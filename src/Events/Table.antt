-- ===== src/Events/Table.antt =====
-- What the events do to the table.
use ldk_server.Prelude.{
  ℕ, ◌≡◌, sym, inl, inr, Option, none, some, List, [], ◌∷◌, ok, Option-cases, some-injective,
  opt_bind,
}
use mathlib.Core.Path.{subst}
use ldk_server.Text.{Text}
use ldk_server.Prelude.Int.{as_i64, as_i64-le}
use ldk_server.Storage.Sqlite.{Row, Engine, works, read, write}
use ldk_server.Storage.Sqlite.Table.{IsTable}
use ldk_server.Storage.Sqlite.Access.{write-IsTable, write-keeps}
use ldk_server.Payment.{Printers, Payment, ForwardedPayment}
use ldk_server.Payment.Convert.{payment_to_proto, forwarded_payment_to_proto}
use ldk_server.Api.ListPayments.{
  payments_persistence_primary_namespace, payments_persistence_secondary_namespace,
  forwarded_payments_persistence_primary_namespace,
  forwarded_payments_persistence_secondary_namespace,
}
use ldk_server.Events.{
  Envelope, Daemon, Event, channel_pending, channel_ready, unhandled, payment_claimable, World,
  handled, published, upsert_payment_details, publish_event_and_upsert_payment, store_forwarded,
  handle_event, handle_events,
}
use ldk_server.Events.Steps.{stored-table, published-table}

module _ {types : Printers} (d : Daemon types) where
  -- What every write keeps true of the table, every event keeps.
  module _ (P : List Row → Type 0) (engine : Engine) (clock : Option ℕ)
      (closed : (p n k : Text) (seconds : ℕ) (buf : List ℕ) (t : List Row)
        → P t
        → P (write d.env engine p n k (as_i64 seconds) buf t).1) where
    upsert-closed :
        (o : Option ℕ) (p : Payment) (w w' : World d)
        → upsert_payment_details d engine o p w ≡ some w'
        → P w.table
        → P w'.table
    unfolding upsert_payment_details
    upsert-closed none p w w' h t = cc h
    upsert-closed (some seconds) p w w' h t =
        let primary = payments_persistence_primary_namespace in
        let secondary = payments_persistence_secondary_namespace in
        let o = write d.env engine primary secondary p.id (as_i64 seconds) (d.encode p) w.table in
        subst (λ v. P v.table) (some-injective h)
          (subst P (sym (stored-table d o w))
            (closed primary secondary p.id seconds (d.encode p) w.table t))

    store-closed :
        (seconds : ℕ) (id : List ℕ) (p : ForwardedPayment) (w : World d)
        → P w.table
        → P (store_forwarded d engine (as_i64 seconds) id p w).table
    unfolding store_forwarded
    store-closed seconds id p w t =
        let primary = forwarded_payments_persistence_primary_namespace in
        let secondary = forwarded_payments_persistence_secondary_namespace in
        let key = d.to_lower_hex id in
        let buf = d.encode_forwarded p in
        subst P
          (sym (
            stored-table d (write d.env engine primary secondary key (as_i64 seconds) buf w.table)
              w))
          (closed primary secondary key seconds buf w.table t)

    payment-closed :
        (id : Option types.PaymentId) (envelope : Payment → Envelope) (w w' : World d)
        → opt_bind id (λ i. publish_event_and_upsert_payment d engine clock i envelope w) ≡ some w'
        → P w.table
        → P w'.table
    unfolding publish_event_and_upsert_payment
    payment-closed none envelope w w' h t = cc
    payment-closed (some i) envelope w w' h t = elim (Option-cases (d.payment i w.node)) [
      | inl e ↦
          subst (λ v. P v.table) (some-injective (rw (e, publish_event_and_upsert_payment) at h)) t
      | inr (details, e) ↦
          let p = payment_to_proto types details in
          published-table d P (d.publish (envelope p) w.publisher) w w'
            (upsert_payment_details d engine clock p) (λ v r tv. upsert-closed clock p v w' r tv)
            (rw (e, publish_event_and_upsert_payment) at h) t
    ]

    forwarded-closed :
        (o : Option ℕ) (id : List ℕ) (p : ForwardedPayment) (w w' : World d)
        → opt_bind o (λ seconds.
          published d
            (d.publish (Envelope.payment_forwarded p) w.publisher)
            w
            (λ v. some (store_forwarded d engine (as_i64 seconds) id p v)))
          ≡ some w'
        → P w.table
        → P w'.table
    forwarded-closed none id p w w' h t = cc h
    forwarded-closed (some seconds) id p w w' h t =
        published-table d P (d.publish (Envelope.payment_forwarded p) w.publisher) w w'
          (λ v. some (store_forwarded d engine (as_i64 seconds) id p v))
          (λ v r tv. subst (λ u. P u.table) (some-injective r) (store-closed seconds id p v tv)) h t

    handle_event-closed :
        (e : Event types) (w w' : World d)
        → handle_event d engine clock e w ≡ some w'
        → P w.table
        → P w'.table
    unfolding handle_event handled
    handle_event-closed channel_pending w w' h t = subst (λ v. P v.table) (some-injective h) t
    handle_event-closed channel_ready w w' h t = subst (λ v. P v.table) (some-injective h) t
    handle_event-closed unhandled w w' h t = subst (λ v. P v.table) (some-injective h) t
    handle_event-closed (Event.payment_received id) w w' h t =
        payment-closed id (λ p. Envelope.payment_received p) w w' h t
    handle_event-closed (Event.payment_successful id) w w' h t =
        payment-closed id (λ p. Envelope.payment_successful p) w w' h t
    handle_event-closed (Event.payment_failed id) w w' h t =
        payment-closed id (λ p. Envelope.payment_failed p) w w' h t
    handle_event-closed (payment_claimable id) w w' h t =
        elim (Option-cases (d.payment id w.node)) [
          | inl e ↦ subst (λ v. P v.table) (some-injective (rw (e, handle_event) at h)) t
          | inr (details, e) ↦
              upsert-closed clock (payment_to_proto types details) w w' (rw (e, handle_event) at h)
                t
        ]
    handle_event-closed (Event.payment_forwarded f id) w w' h t =
        elim (Option-cases (forwarded_payment_to_proto types f)) [
          | inl e ↦ cc (rw (e, handle_event) at h)
          | inr (p, e) ↦ forwarded-closed clock id p w w' (rw (e, handle_event) at h) t
        ]

  -- Every event that is handled without a panic keeps the table well formed, whether publishing and
  -- storing succeed or not.
  pub handle_event-IsTable :
      (engine : Engine) (clock : Option ℕ) (e : Event types) (w w' : World d)
      → handle_event d engine clock e w ≡ some w'
      → IsTable w.table
      → IsTable w'.table
  handle_event-IsTable engine clock e w w' h t =
      handle_event-closed IsTable engine clock
        (λ p n k seconds buf u v.
          write-IsTable d.env p n engine k (as_i64 seconds) buf u (as_i64-le seconds) v)
        e w w' h t

  -- The key can be read.
  abbrev pub IsKept : Text → Text → Text → List Row → Type 0
  IsKept p n k t = (v : List ℕ) × (read d.env works p n k t ≡ ok v)

  -- If a key can be read from the table before a sequence of events that are handled without a
  -- panic, it can be read after them, whatever of the publishing and storing fails in between: no
  -- stored payment is lost.
  pub handle_events-IsKept :
      (events : List (Engine × Option ℕ × Event types)) (w w' : World d) (p n k : Text)
      → handle_events d events w ≡ some w'
      → IsKept p n k w.table
      → IsKept p n k w'.table
  unfolding handle_events
  handle_events-IsKept [] w w' p n k h kept =
      subst (λ v. IsKept p n k v.table) (some-injective h) kept
  handle_events-IsKept ((engine, clock, e) ∷ events) w w' p n k h kept =
      elim (Option-cases (handle_event d engine clock e w)) [
        | inl bad ↦ cc (rw (bad, handle_events) at h)
        | inr (v, good) ↦ handle_events-IsKept events v w' p n k (rw (good, handle_events) at h) (
            handle_event-closed (IsKept p n k) engine clock
              (λ p' n' k' seconds buf u r.
                write-keeps d.env engine p' n' k' (as_i64 seconds) buf u p n k r.0 r.1)
              e w v good kept)
      ]
