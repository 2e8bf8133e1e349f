-- ===== src/Events/Progress.antt =====
-- That the node is told of an event when nothing fails.
use ldk_server.Prelude.{ℕ, ◌≡◌, refl, Option, some, List, Result, ok, err}
use ldk_server.Prelude.Int.{ℤ, as_i64}
use ldk_server.Text.{Text, lit}
use ldk_server.Storage.Namespace.{KvEnv, IoError, check_namespace_key_validity}
use ldk_server.Storage.Sqlite.{Row, works, write}
use ldk_server.Payment.{Printers, Payment, ForwardedPayment, PaymentDetails}
use ldk_server.Payment.Convert.{payment_to_proto, forwarded_payment_to_proto}
use ldk_server.Api.ListPayments.{
  payments_persistence_primary_namespace, payments_persistence_secondary_namespace,
  forwarded_payments_persistence_primary_namespace,
  forwarded_payments_persistence_secondary_namespace,
}
use ldk_server.Events.{
  Envelope, Daemon, Event, channel_pending, channel_ready, unhandled, payment_claimable, World,
  handled, stored, published, upsert_payment_details, publish_event_and_upsert_payment,
  store_forwarded, handle_event,
}

-- A key that the store takes, on a working SQLite, is written.
write-works :
    (env : KvEnv) (p n k : Text) (time : ℤ) (buf : List ℕ) (t : List Row)
    → check_namespace_key_validity env p n (some k) (lit "write") ≡ ok tt
    → (write env works p n k time buf t).0 ≡ ok tt
unfolding write
write-works env p n k time buf t good = rw (good, write)

module _ {types : Printers} (d : Daemon types) where
  -- The store takes this id for a payment.
  abbrev TakesPayment : Payment → Type 0
  TakesPayment p =
      check_namespace_key_validity d.env payments_persistence_primary_namespace
        payments_persistence_secondary_namespace (some p.id) (lit "write")
      ≡ ok tt

  abbrev Publishes : Envelope → World d → Type 0
  Publishes envelope w = (d.publish envelope w.publisher).0 ≡ ok tt

  abbrev PaymentReady : Option types.PaymentId → (Payment → Envelope) → World d → Type 0
  PaymentReady id envelope w =
      (i : types.PaymentId) × (details : PaymentDetails types) × (id ≡ some i)
      × (d.payment i w.node ≡ some details)
      × Publishes (envelope (payment_to_proto types details)) w
      × TakesPayment (payment_to_proto types details)

  -- The event's payment is known, the publisher takes it, and the store takes its id.
  abbrev pub Ready : Event types → World d → Type 0
  Ready channel_pending w = Unit
  Ready channel_ready w = Unit
  Ready unhandled w = Unit
  Ready (Event.payment_received id) w = PaymentReady id (λ p. Envelope.payment_received p) w
  Ready (Event.payment_successful id) w = PaymentReady id (λ p. Envelope.payment_successful p) w
  Ready (Event.payment_failed id) w = PaymentReady id (λ p. Envelope.payment_failed p) w
  Ready (payment_claimable id) w =
      (details : PaymentDetails types) × (d.payment id w.node ≡ some details)
      × TakesPayment (payment_to_proto types details)
  Ready (Event.payment_forwarded f id) w =
      (p : ForwardedPayment) × (forwarded_payment_to_proto types f ≡ some p)
      × Publishes (Envelope.payment_forwarded p) w
      × (check_namespace_key_validity d.env forwarded_payments_persistence_primary_namespace
            forwarded_payments_persistence_secondary_namespace (some (d.to_lower_hex id))
            (lit "write")
          ≡ ok tt)

  -- The node has been told once.
  abbrev Told : World d → World d → Type 0
  Told w w' = w'.node ≡ d.event_handled w.node

  stored-Told :
      (o : Result (Unit {0}) IoError × List Row) (w : World d) → o.0 ≡ ok tt → Told w (stored d o w)
  unfolding stored handled
  stored-Told (ok _, t) w h = refl
  stored-Told (err e, t) w h = cc h

  -- It has been told in the outcome of a step, which does not panic.
  abbrev ToldAfter : World d → Option (World d) → Type 0
  ToldAfter w o = (w' : World d) × (o ≡ some w') × Told w w'

  upsert-Told :
      (seconds : ℕ) (p : Payment) (w : World d)
      → TakesPayment p
      → ToldAfter w (upsert_payment_details d works (some seconds) p w)
  unfolding upsert_payment_details
  upsert-Told seconds p w good = (
    _,
    refl,
    stored-Told _ w (write-works d.env _ _ p.id (as_i64 seconds) (d.encode p) w.table good),
  )

  published-Told :
      (o : Result (Unit {0}) Text × d.Publisher) (w : World d) (next : World d → Option (World d))
      → o.0 ≡ ok tt
      → ((v : World d) → ToldAfter v (next v))
      → ToldAfter w (published d o w next)
  unfolding published
  published-Told (ok _, q) w next h t = t (record { node = w.node; publisher = q; table = w.table })
  published-Told (err e, q) w next h t = cc h

  payment-Told :
      (seconds : ℕ) (i : types.PaymentId) (details : PaymentDetails types)
      (envelope : Payment → Envelope) (w : World d)
      → d.payment i w.node ≡ some details
      → Publishes (envelope (payment_to_proto types details)) w
      → TakesPayment (payment_to_proto types details)
      → ToldAfter w (publish_event_and_upsert_payment d works (some seconds) i envelope w)
  unfolding publish_event_and_upsert_payment
  payment-Told seconds i details envelope w known out good =
      rw (known, publish_event_and_upsert_payment)
        (published-Told (d.publish (envelope (payment_to_proto types details)) w.publisher) w
          (upsert_payment_details d works (some seconds) (payment_to_proto types details)) out
          (λ v. upsert-Told seconds (payment_to_proto types details) v good))

  store-Told :
      (time : ℤ) (id : List ℕ) (p : ForwardedPayment) (w : World d)
      → check_namespace_key_validity d.env forwarded_payments_persistence_primary_namespace
          forwarded_payments_persistence_secondary_namespace
          (some (d.to_lower_hex id))
          (lit "write")
        ≡ ok tt
      → Told w (store_forwarded d works time id p w)
  unfolding store_forwarded
  store-Told time id p w good =
      stored-Told _ w
        (write-works d.env _ _ (d.to_lower_hex id) time (d.encode_forwarded p) w.table good)

  -- If the payment of an event is known to the node, or its forwarded payment can be made a message,
  -- the publisher takes the envelope, the store takes the id, SQLite works and the clock is past
  -- 1970, handling the event ends without a panic and tells the node once that it is handled; an
  -- event that only has to be marked needs none of this.
  pub handle_event-Told :
      (seconds : ℕ) (e : Event types) (w : World d)
      → Ready e w
      → (w' : World d) × (handle_event d works (some seconds) e w ≡ some w')
        × (w'.node ≡ d.event_handled w.node)
  unfolding handle_event handled
  handle_event-Told seconds channel_pending w r = (_, refl, refl)
  handle_event-Told seconds channel_ready w r = (_, refl, refl)
  handle_event-Told seconds unhandled w r = (_, refl, refl)
  handle_event-Told seconds (Event.payment_received id) w (i, details, e, known, out, good) =
      rw e (payment-Told seconds i details (λ p. Envelope.payment_received p) w known out good)
  handle_event-Told seconds (Event.payment_successful id) w (i, details, e, known, out, good) =
      rw e (payment-Told seconds i details (λ p. Envelope.payment_successful p) w known out good)
  handle_event-Told seconds (Event.payment_failed id) w (i, details, e, known, out, good) =
      rw e (payment-Told seconds i details (λ p. Envelope.payment_failed p) w known out good)
  handle_event-Told seconds (payment_claimable id) w (details, known, good) =
      rw (known, handle_event) (upsert-Told seconds (payment_to_proto types details) w good)
  handle_event-Told seconds (Event.payment_forwarded f id) w (p, e, out, good) = rw e (
      published-Told (d.publish (Envelope.payment_forwarded p) w.publisher) w
        (λ v. some (store_forwarded d works (as_i64 seconds) id p v)) out
        (λ v. (_, refl, store-Told (as_i64 seconds) id p v good)))
