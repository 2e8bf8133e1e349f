-- ===== src/Events.antt =====
-- The events of ldk-node in the loop of ldk-server/src/main.rs: what is published, what is stored, and
-- when the node is told that an event has been handled.
pub mod Steps
pub mod Delivery
pub mod Table
pub mod Progress
pub mod RabbitMq
use ldk_server.Prelude.{[], ◌∷◌, ℕ, Option, none, some, List, Result, ok, err, opt_map, opt_bind}
use ldk_server.Prelude.Int.{ℤ, as_i64}
use ldk_server.Text.{Text}
use ldk_server.Storage.Namespace.{KvEnv, IoError}
use ldk_server.Storage.Sqlite.{Row, Engine, write}
use ldk_server.Payment.{Printers, Payment, ForwardedPayment, PaymentDetails, Forwarded}
use ldk_server.Payment.Convert.{payment_to_proto, forwarded_payment_to_proto}
use ldk_server.Api.ListPayments.{
  payments_persistence_primary_namespace, payments_persistence_secondary_namespace,
  forwarded_payments_persistence_primary_namespace,
  forwarded_payments_persistence_secondary_namespace,
}

-- `event_envelope::Event`
pub data Envelope : Type 0 where
  payment_received payment_successful payment_failed : Payment → Envelope
  payment_forwarded : ForwardedPayment → Envelope

-- What the loop calls: ldk-node's store of payments and its event queue, the publisher that the
-- daemon is started with, prost's encoders, and the clock in seconds.
pub record Daemon (types : Printers) : Type 1 where
  pub Node : Type 0
  pub Publisher : Type 0
  pub payment : types.PaymentId → Node → Option (PaymentDetails types)
  pub event_handled : Node → Node
  pub publish : Envelope → Publisher → Result (Unit {0}) Text × Publisher
  pub encode : Payment → List ℕ
  pub encode_forwarded : ForwardedPayment → List ℕ
  pub to_lower_hex : List ℕ → Text
  pub env : KvEnv

-- ldk-node's `Event`, as far as the loop reads it; `forwarded` comes with the random bytes that the
-- loop draws for it.
pub data Event (types : Printers) : Type 0 where
  channel_pending channel_ready unhandled : Event types
  payment_received payment_successful payment_failed : Option types.PaymentId → Event types
  payment_claimable : types.PaymentId → Event types
  payment_forwarded : Forwarded types → List ℕ → Event types

module _ {types : Printers} (d : Daemon types) where
  open d use {Node, Publisher, payment, event_handled, publish, encode, encode_forwarded}

  pub record World : Type 0 where
    pub node : Node
    pub publisher : Publisher
    pub table : List Row

  -- Marking the event as handled; that the node fails to is logged only.
  unfoldable pub handled : World → World
  handled w = record { node = event_handled w.node; publisher = w.publisher; table = w.table }

  -- The match on the result of a `write`.
  unfoldable pub stored : Result (Unit {0}) IoError × List Row → World → World
  unfolding handled
  stored (ok _, table) w =
      handled (record { node = w.node; publisher = w.publisher; table = table })
  stored (err _, table) w = record { node = w.node; publisher = w.publisher; table = table }

  -- The clock is in seconds since 1970; before that there are none, and its `expect` panics.
  unfoldable pub upsert_payment_details : Engine → Option ℕ → Payment → World → Option World
  unfolding stored
  upsert_payment_details engine clock p w =
      opt_map
        (λ seconds.
          stored
            (write d.env engine payments_persistence_primary_namespace
              payments_persistence_secondary_namespace p.id (as_i64 seconds) (encode p) w.table)
            w)
        clock

  -- A publisher's failure ends the handling; what it did before failing stays done.
  unfoldable pub published :
      Result (Unit {0}) Text × Publisher → World → (World → Option World) → Option World
  published (ok _, publisher) w next =
      next (record { node = w.node; publisher = publisher; table = w.table })
  published (err _, publisher) w next =
      some (record { node = w.node; publisher = publisher; table = w.table })

  unfoldable pub publish_event_and_upsert_payment :
      Engine → Option ℕ → types.PaymentId → (Payment → Envelope) → World → Option World
  unfolding published upsert_payment_details
  publish_event_and_upsert_payment engine clock payment_id payment_to_event w =
      elim (payment payment_id w.node) [
        | none ↦ some w
        | some details ↦
            published (publish (payment_to_event (payment_to_proto types details)) w.publisher) w
              (upsert_payment_details engine clock (payment_to_proto types details))
      ]

  unfoldable pub store_forwarded : Engine → ℤ → List ℕ → ForwardedPayment → World → World
  unfolding stored
  store_forwarded engine time id p w =
      stored
        (write d.env engine forwarded_payments_persistence_primary_namespace
          forwarded_payments_persistence_secondary_namespace (d.to_lower_hex id) time
          (encode_forwarded p) w.table)
        w

  -- The match on the event; none where an `expect` panics.
  unfoldable pub handle_event : Engine → Option ℕ → Event types → World → Option World
  unfolding publish_event_and_upsert_payment store_forwarded
  handle_event engine clock channel_pending w = some (handled w)
  handle_event engine clock channel_ready w = some (handled w)
  handle_event engine clock unhandled w = some (handled w)
  handle_event engine clock (Event.payment_received id) w =
      opt_bind id
        (λ i. publish_event_and_upsert_payment engine clock i (λ p. Envelope.payment_received p) w)
  handle_event engine clock (Event.payment_successful id) w =
      opt_bind id (λ i.
        publish_event_and_upsert_payment engine clock i (λ p. Envelope.payment_successful p) w)
  handle_event engine clock (Event.payment_failed id) w =
      opt_bind id
        (λ i. publish_event_and_upsert_payment engine clock i (λ p. Envelope.payment_failed p) w)
  handle_event engine clock (payment_claimable id) w = elim (payment id w.node) [
    | none ↦ some w
    | some details ↦ upsert_payment_details engine clock (payment_to_proto types details) w
  ]
  handle_event engine clock (Event.payment_forwarded f id) w =
      opt_bind (forwarded_payment_to_proto types f) (λ p. opt_bind clock (λ seconds.
        published (publish (Envelope.payment_forwarded p) w.publisher) w
          (λ v. some (store_forwarded engine (as_i64 seconds) id p v))))

  -- The loop, on the events in the order in which they come, each with the clock and with how
  -- SQLite does.
  unfoldable pub handle_events : List (Engine × Option ℕ × Event types) → World → Option World
  unfolding handle_event
  handle_events [] w = some w
  handle_events ((engine, clock, e) ∷ events) w =
      opt_bind (handle_event engine clock e w) (λ v. handle_events events v)
