-- ===== src/Events/Steps.antt =====
-- The two steps of an event, publishing and storing, one by one.
use ldk_server.Prelude.{
  ℕ, ◌≡◌, refl, ◌∙◌, ◌⊎◌, inl, inr, some, none, Option, ap, sym, some-injective, List, Result, ok,
  err, Result-cases,
}
use mathlib.Core.Path.{subst}
use ldk_server.Prelude.Int.{ℤ, as_i64}
use ldk_server.Text.{Text, lit}
use ldk_server.Text.Equality.{text_eq_refl}
use ldk_server.Storage.Namespace.{KvEnv, IoError, check_namespace_key_validity}
use ldk_server.Storage.Sqlite.{Row, Engine, works, prepare_fails, run_fails, read, write}
use ldk_server.Storage.Sqlite.Access.{read-write}
use ldk_server.Payment.{Printers, Payment, ForwardedPayment}
use ldk_server.Api.ListPayments.{
  payments_persistence_primary_namespace, payments_persistence_secondary_namespace,
  forwarded_payments_persistence_primary_namespace,
  forwarded_payments_persistence_secondary_namespace,
}
use ldk_server.Events.{
  Daemon, World, handled, stored, upsert_payment_details, published, store_forwarded,
}

-- A write that returns ok has stored the bytes.
write-ok :
    (env : KvEnv) (engine : Engine) (p n k : Text) (time : ℤ) (buf : List ℕ) (t : List Row)
    → (write env engine p n k time buf t).0 ≡ ok tt
    → read env works p n k (write env engine p n k time buf t).1 ≡ ok buf
unfolding write
write-ok env works p n k time buf t h =
    read-write env p n k p n k time buf t (write env works p n k time buf t).1
      (λ i. (h i, (write env works p n k time buf t).1))
    ∙ rw (text_eq_refl p) (rw (text_eq_refl n) (rw (text_eq_refl k) refl))
write-ok env (prepare_fails m) p n k time buf t h =
    elim (Result-cases (check_namespace_key_validity env p n (some k) (lit "write"))) [
      | inl (u, good) ↦ cc (rw (good, write) at h)
      | inr (e, bad) ↦ cc (rw (bad, write) at h)
    ]
write-ok env (run_fails m) p n k time buf t h =
    elim (Result-cases (check_namespace_key_validity env p n (some k) (lit "write"))) [
      | inl (u, good) ↦ cc (rw (good, write) at h)
      | inr (e, bad) ↦ cc (rw (bad, write) at h)
    ]

module _ {types : Printers} (d : Daemon types) where
  pub stored-cases :
      (P : List Row → Type 0) (o : Result (Unit {0}) IoError × List Row) (w : World d)
      → (o.0 ≡ ok tt → P o.1)
      → ((stored d o w).node ≡ w.node)
        ⊎ (((stored d o w).node ≡ d.event_handled w.node) × P (stored d o w).table)
  unfolding stored handled
  stored-cases P (ok _, t) w h = inr (refl, h refl)
  stored-cases P (err e, t) w h = inl refl

  pub stored-table :
      (o : Result (Unit {0}) IoError × List Row) (w : World d) → (stored d o w).table ≡ o.1
  unfolding stored handled
  stored-table (ok _, t) w = refl
  stored-table (err e, t) w = refl

  pub published-cases :
      (R : World d → Type 0) (o : Result (Unit {0}) Text × d.Publisher) (w w' : World d)
      (next : World d → Option (World d))
      → ((v : World d) → v.node ≡ w.node → next v ≡ some w' → (w'.node ≡ w.node) ⊎ R w')
      → published d o w next ≡ some w'
      → (w'.node ≡ w.node) ⊎ ((o.0 ≡ ok tt) × R w')
  unfolding published
  published-cases R (err e, q) w w' next h r =
      inl (ap (λ (v : World d). v.node) (sym (some-injective r)))
  published-cases R (ok _, q) w w' next h r =
      elim (h (record { node = w.node; publisher = q; table = w.table }) refl r) [
        | inl e ↦ inl e
        | inr e ↦ inr (refl, e)
      ]

  pub published-table :
      (P : List Row → Type 0) (o : Result (Unit {0}) Text × d.Publisher) (w w' : World d)
      (next : World d → Option (World d))
      → ((v : World d) → next v ≡ some w' → P v.table → P w'.table)
      → published d o w next ≡ some w'
      → P w.table
      → P w'.table
  unfolding published
  published-table P (err e, q) w w' next h r t = subst (λ v. P v.table) (some-injective r) t
  published-table P (ok _, q) w w' next h r t =
      h (record { node = w.node; publisher = q; table = w.table }) r t

  -- The bytes can be read from the table under this key.
  abbrev pub InTable : Text → Text → Text → List ℕ → World d → Type 0
  InTable p n k buf w = read d.env works p n k w.table ≡ ok buf

  -- A payment or a forwarded payment is in the table under its id.
  abbrev pub HasPayment : Payment → World d → Type 0
  HasPayment p w =
      InTable payments_persistence_primary_namespace payments_persistence_secondary_namespace p.id
        (d.encode p) w

  abbrev pub HasForwarded : List ℕ → ForwardedPayment → World d → Type 0
  HasForwarded id p w =
      InTable forwarded_payments_persistence_primary_namespace
        forwarded_payments_persistence_secondary_namespace (d.to_lower_hex id)
        (d.encode_forwarded p) w

  pub upsert-handled :
      (engine : Engine) (clock : Option ℕ) (p : Payment) (w w' : World d)
      → upsert_payment_details d engine clock p w ≡ some w'
      → (w'.node ≡ w.node) ⊎ ((w'.node ≡ d.event_handled w.node) × HasPayment p w')
  unfolding upsert_payment_details
  upsert-handled engine none p w w' h = cc h
  upsert-handled engine (some seconds) p w w' h =
      let primary = payments_persistence_primary_namespace in
      let secondary = payments_persistence_secondary_namespace in
      let time = as_i64 seconds in
      subst (λ v. (v.node ≡ w.node) ⊎ ((v.node ≡ d.event_handled w.node) × HasPayment p v))
        (some-injective h)
        (stored-cases (λ t. read d.env works primary secondary p.id t ≡ ok (d.encode p))
          (write d.env engine primary secondary p.id time (d.encode p) w.table) w
          (write-ok d.env engine primary secondary p.id time (d.encode p) w.table))

  pub store-handled :
      (engine : Engine) (time : ℤ) (id : List ℕ) (p : ForwardedPayment) (w : World d)
      → ((store_forwarded d engine time id p w).node ≡ w.node)
        ⊎ (((store_forwarded d engine time id p w).node ≡ d.event_handled w.node)
            × HasForwarded id p (store_forwarded d engine time id p w))
  unfolding store_forwarded
  store-handled engine time id p w =
      stored-cases
        (λ t.
          read d.env works forwarded_payments_persistence_primary_namespace
            forwarded_payments_persistence_secondary_namespace (d.to_lower_hex id) t
          ≡ ok (d.encode_forwarded p))
        (write d.env engine forwarded_payments_persistence_primary_namespace
          forwarded_payments_persistence_secondary_namespace (d.to_lower_hex id) time
          (d.encode_forwarded p) w.table)
        w
        (write-ok d.env engine forwarded_payments_persistence_primary_namespace
          forwarded_payments_persistence_secondary_namespace (d.to_lower_hex id) time
          (d.encode_forwarded p) w.table)
