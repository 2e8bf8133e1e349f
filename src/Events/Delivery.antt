-- ===== src/Events/Delivery.antt =====
-- When the node is told that an event has been handled.
use ldk_server.Prelude.{
  ℕ, List, opt_bind, ◌≡◌, refl, sym, ap, ◌∙◌, ◌⊎◌, inl, inr, Option, none, some, ok, Option-cases,
  some-injective,
}
use mathlib.Core.Path.{subst}
use ldk_server.Prelude.Int.{as_i64}
use ldk_server.Storage.Sqlite.{Engine}
use ldk_server.Payment.{Printers, Payment, ForwardedPayment, PaymentDetails}
use ldk_server.Payment.Convert.{payment_to_proto, forwarded_payment_to_proto}
use ldk_server.Events.{
  Envelope, Daemon, Event, channel_pending, channel_ready, unhandled, payment_claimable, World,
  handled, upsert_payment_details, published, publish_event_and_upsert_payment, store_forwarded,
  handle_event,
}
use ldk_server.Events.Steps.{
  published-cases, HasPayment, HasForwarded, upsert-handled, store-handled,
}

module _ {types : Printers} (d : Daemon types) where
  -- The payment that the node has for the event has been published in its envelope and is stored.
  abbrev pub PaymentDelivered :
      Option types.PaymentId → (Payment → Envelope) → World d → World d → Type 0
  PaymentDelivered id envelope w w' =
      (i : types.PaymentId) × (details : PaymentDetails types) × (id ≡ some i)
      × (d.payment i w.node ≡ some details)
      × ((d.publish (envelope (payment_to_proto types details)) w.publisher).0 ≡ ok tt)
      × HasPayment d (payment_to_proto types details) w'

  -- What has been done for an event before the node is told.
  abbrev pub Delivered : Event types → World d → World d → Type 0
  Delivered channel_pending w w' = Unit
  Delivered channel_ready w w' = Unit
  Delivered unhandled w w' = Unit
  Delivered (Event.payment_received id) w w' =
      PaymentDelivered id (λ p. Envelope.payment_received p) w w'
  Delivered (Event.payment_successful id) w w' =
      PaymentDelivered id (λ p. Envelope.payment_successful p) w w'
  Delivered (Event.payment_failed id) w w' =
      PaymentDelivered id (λ p. Envelope.payment_failed p) w w'
  Delivered (payment_claimable id) w w' =
      (details : PaymentDetails types) × (d.payment id w.node ≡ some details)
      × HasPayment d (payment_to_proto types details) w'
  Delivered (Event.payment_forwarded f id) w w' =
      (p : ForwardedPayment) × (forwarded_payment_to_proto types f ≡ some p)
      × ((d.publish (Envelope.payment_forwarded p) w.publisher).0 ≡ ok tt)
      × HasForwarded d id p w'

  -- The same for the payment events.
  payment-handled :
      (engine : Engine) (clock : Option ℕ) (id : Option types.PaymentId)
      (envelope : Payment → Envelope) (w w' : World d)
      → opt_bind id (λ i. publish_event_and_upsert_payment d engine clock i envelope w) ≡ some w'
      → (w'.node ≡ w.node)
        ⊎ ((w'.node ≡ d.event_handled w.node) × PaymentDelivered id envelope w w')
  unfolding publish_event_and_upsert_payment
  payment-handled engine clock none envelope w w' h = cc h
  payment-handled engine clock (some i) envelope w w' h = elim (Option-cases (d.payment i w.node)) [
    | inl e ↦ inl (
        ap (λ (v : World d). v.node)
          (sym (some-injective (rw (e, publish_event_and_upsert_payment) at h))))
    | inr (details, e) ↦
        let p = payment_to_proto types details in
        elim (published-cases d (λ v. (v.node ≡ d.event_handled w.node) × HasPayment d p v)
          (d.publish (envelope p) w.publisher) w w' (upsert_payment_details d engine clock p)
          (λ v same r. elim (upsert-handled d engine clock p v w' r) [
            | inl f ↦ inl (f ∙ same)
            | inr (told, f) ↦ inr (told ∙ ap d.event_handled same, f)
          ])
          (rw (e, publish_event_and_upsert_payment) at h)) [
            | inl f ↦ inl f
            | inr (out, (told, f)) ↦ inr (told, (i, details, refl, e, out, f))
          ]
  ]

  forwarded-handled :
      (engine : Engine) (o : Option ℕ) (id : List ℕ) (p : ForwardedPayment) (w w' : World d)
      → opt_bind o (λ seconds.
        published d
          (d.publish (Envelope.payment_forwarded p) w.publisher)
          w
          (λ v. some (store_forwarded d engine (as_i64 seconds) id p v)))
        ≡ some w'
      → (w'.node ≡ w.node)
        ⊎ (((d.publish (Envelope.payment_forwarded p) w.publisher).0 ≡ ok tt)
            × ((w'.node ≡ d.event_handled w.node) × HasForwarded d id p w'))
  forwarded-handled engine none id p w w' h = cc h
  forwarded-handled engine (some seconds) id p w w' h =
      published-cases d (λ v. (v.node ≡ d.event_handled w.node) × HasForwarded d id p v)
        (d.publish (Envelope.payment_forwarded p) w.publisher) w w'
        (λ v. some (store_forwarded d engine (as_i64 seconds) id p v))
        (λ v is r.
          subst
            (λ u. (u.node ≡ w.node) ⊎ ((u.node ≡ d.event_handled w.node) × HasForwarded d id p u))
            (some-injective r)
            (elim (store-handled d engine (as_i64 seconds) id p v) [
              | inl g ↦ inl (g ∙ is)
              | inr (told, g) ↦ inr (told ∙ ap d.event_handled is, g)
            ]))
        h

  -- Handling an event without a panic leaves the node as it was, or tells it once that the event has
  -- been handled; in the second case the event is one that only has to be marked, or its payment or
  -- forwarded payment can be read from the table under its id and has been published in the event's
  -- envelope (a claimable payment is stored only).
  pub handle_event-Delivered :
      (engine : Engine) (clock : Option ℕ) (e : Event types) (w w' : World d)
      → handle_event d engine clock e w ≡ some w'
      → (w'.node ≡ w.node) ⊎ ((w'.node ≡ d.event_handled w.node) × Delivered e w w')
  unfolding handle_event handled
  handle_event-Delivered engine clock channel_pending w w' h =
      inr (ap (λ (v : World d). v.node) (sym (some-injective h)), tt)
  handle_event-Delivered engine clock channel_ready w w' h =
      inr (ap (λ (v : World d). v.node) (sym (some-injective h)), tt)
  handle_event-Delivered engine clock unhandled w w' h =
      inr (ap (λ (v : World d). v.node) (sym (some-injective h)), tt)
  handle_event-Delivered engine clock (Event.payment_received id) w w' h =
      payment-handled engine clock id (λ p. Envelope.payment_received p) w w' h
  handle_event-Delivered engine clock (Event.payment_successful id) w w' h =
      payment-handled engine clock id (λ p. Envelope.payment_successful p) w w' h
  handle_event-Delivered engine clock (Event.payment_failed id) w w' h =
      payment-handled engine clock id (λ p. Envelope.payment_failed p) w w' h
  handle_event-Delivered engine clock (payment_claimable id) w w' h =
      elim (Option-cases (d.payment id w.node)) [
        | inl e ↦
            inl (ap (λ (v : World d). v.node) (sym (some-injective (rw (e, handle_event) at h))))
        | inr (details, e) ↦
            elim (upsert-handled d engine clock (payment_to_proto types details) w w'
              (rw (e, handle_event) at h)) [
                | inl f ↦ inl f
                | inr (told, f) ↦ inr (told, (details, e, f))
              ]
      ]
  handle_event-Delivered engine clock (Event.payment_forwarded f id) w w' h =
      elim (Option-cases (forwarded_payment_to_proto types f)) [
        | inl e ↦ cc (rw (e, handle_event) at h)
        | inr (p, e) ↦ elim (forwarded-handled engine clock id p w w' (rw (e, handle_event) at h)) [
          | inl g ↦ inl g
          | inr (out, (told, g)) ↦ inr (told, (p, e, out, g))
        ]
      ]
