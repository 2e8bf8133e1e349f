-- ===== src/Events/RabbitMq/Acked.antt =====
-- When `publish` of ldk-server/src/io/events/rabbitmq/mod.rs succeeds, and how it fails.
use ldk_server.Prelude.{
  ◌≡◌, refl, sym, ap, ◌∙◌, some, List, ℕ, Result, ok, err, arith, ok-injective, Bool-cases, inl,
  inr,
}
use ldk_server.Text.{Text, lit}
use ldk_server.Api.Error.{LdkServerError, internal_server_error}
use ldk_server.Api.Act.{◌>>=◌, >>=-Holds}
use ldk_server.Events.RabbitMq.{
  RabbitMqConfig, Confirmation, ack, nack, not_requested, Lapin, Session, attempt, failed, held,
  is_alive, connect, kept, ensure_connected, acknowledged, publish_on, publish,
  delivery_mode_persistent,
}

module _ (lapin : Lapin) where
  open lapin use {Net, Channel, Confirm}

  -- A failure is an internal error of the server.
  abbrev IsInternal : {A : Type 0} → Result A LdkServerError → Type 0
  IsInternal (ok a) = Unit
  IsInternal (err e) = e.error_code ≡ internal_server_error

  -- The broker has acknowledged these bytes, published to the exchange on this channel.
  abbrev pub Acked : RabbitMqConfig → List ℕ → Channel → Type 0
  Acked config bytes channel =
      (net later : Net) × (confirm : Confirm) × (lapin.basic_publish channel config.exchange_name
          delivery_mode_persistent bytes net
        ≡ (ok confirm, later))
      × ((lapin.confirm confirm later).0 ≡ ok ack)

  -- What a run of `publish` ends with.
  abbrev pub Outcome :
      RabbitMqConfig → List ℕ → Result (Unit {0}) LdkServerError × Session lapin → Type 0
  Outcome config bytes (ok done, s) =
      (channel : Channel) × (s.channel ≡ some channel) × Acked config bytes channel
  Outcome config bytes (err e, s) = e.error_code ≡ internal_server_error

  failed-ok :
      {A : Type 0} (what : Text) (r : Result A Text) {a : A} → failed lapin what r ≡ ok a → r ≡ ok a
  failed-ok what (ok b) h = cc (ok-injective h)
  failed-ok what (err e) h = cc h

  failed-internal :
      {A : Type 0} (what : Text) (r : Result A Text) {e : LdkServerError}
      → failed lapin what r ≡ err e
      → e.error_code ≡ internal_server_error
  failed-internal what (ok b) h = cc h
  failed-internal what (err m) h = cc h

  module _ {A : Type 0} (what : Text) (call : Net → Result A Text × Net) (s : Session lapin) where
    attempt_ok :
        {a : A} {s' : Session lapin}
        → attempt lapin what call s ≡ (ok a, s')
        → (call s.net ≡ (ok a, s'.net)) × (s'.channel ≡ s.channel)
    attempt_ok h = (
      cc (
        failed-ok what (call s.net).0 (ap (λ p. p.0) h),
        ap (λ (p : Result A LdkServerError × Session lapin). p.1.net) h,
      ),
      sym (ap (λ (p : Result A LdkServerError × Session lapin). p.1.channel) h),
    )

    attempt_err :
        {e : LdkServerError} {s' : Session lapin}
        → attempt lapin what call s ≡ (err e, s')
        → e.error_code ≡ internal_server_error
    attempt_err h = failed-internal what (call s.net).0 (ap (λ p. p.0) h)

  acknowledged-Outcome :
      (config : RabbitMqConfig) (bytes : List ℕ) (channel : Channel) (confirmation : Confirmation)
      (s : Session lapin)
      → s.channel ≡ some channel
      → (confirmation ≡ ack → Acked config bytes channel)
      → Outcome config bytes (acknowledged lapin confirmation, s)
  acknowledged-Outcome config bytes channel ack s c k = (channel, c, k refl)
  acknowledged-Outcome config bytes channel nack s c k = refl
  acknowledged-Outcome config bytes channel not_requested s c k = refl

  publish_on-Outcome :
      (config : RabbitMqConfig) (bytes : List ℕ) (channel : Channel) (s : Session lapin)
      → s.channel ≡ some channel
      → Outcome config bytes (publish_on lapin config bytes channel s)
  publish_on-Outcome config bytes channel s c =
      let send = lapin.basic_publish channel config.exchange_name 2 bytes in
      let sending = lit "Failed to publish event, error: " in
      let waiting = lit "Failed to get confirmation: " in
      >>=-Holds (Outcome config bytes) (attempt lapin sending send) _ s
        (λ confirm s' e.
          let (p, same) = attempt_ok sending send s e in
          >>=-Holds (Outcome config bytes) (attempt lapin waiting (lapin.confirm confirm)) _ s'
            (λ confirmation s'' e'.
              let (q, same') = attempt_ok waiting (lapin.confirm confirm) s' e' in
              acknowledged-Outcome config bytes channel confirmation s'' (same' ∙ same ∙ c)
                (λ a. (s.net, s'.net, confirm, p, ap (λ r. r.0) q ∙ ap ok a)))
            (λ error s'' e'. attempt_err waiting (lapin.confirm confirm) s' e'))
        (λ error s' e. attempt_err sending send s e)

  held-ok :
      (s : Session lapin) {channel : Channel} {s' : Session lapin}
      → held lapin s ≡ (ok channel, s')
      → s'.channel ≡ some channel
  held-ok s e = ground (arith, e)

  held-internal :
      (s : Session lapin) {error : LdkServerError}
      → (held lapin s).0 ≡ err error
      → error.error_code ≡ internal_server_error
  held-internal s e = ground (arith, e)

  held-Outcome :
      (config : RabbitMqConfig) (bytes : List ℕ) (s : Session lapin)
      → Outcome config bytes ((held lapin >>= λ channel. publish_on lapin config bytes channel) s)
  held-Outcome config bytes s =
      >>=-Holds (Outcome config bytes) (held lapin) _ s
        (λ channel s' e. publish_on-Outcome config bytes channel s' (held-ok s e))
        (λ error s' e. held-internal s (ap (λ p. p.0) e))

  kept-internal :
      (r : Result (lapin.Connection × Channel) LdkServerError × Session lapin) {e : LdkServerError}
      → (kept lapin r).0 ≡ err e
      → e.error_code ≡ internal_server_error
  kept-internal (ok (conn, channel), s) h = cc h
  kept-internal (err m, s) h = cc h

  ensure-internal :
      (config : RabbitMqConfig) (s : Session lapin) {e : LdkServerError}
      → (ensure_connected lapin config s).0 ≡ err e
      → e.error_code ≡ internal_server_error
  unfolding ensure_connected
  ensure-internal config s h = elim (Bool-cases (is_alive lapin s)) [
    | inl a ↦ cc (rw a at h)
    | inr a ↦ kept-internal (connect lapin config s) (rw a at h)
  ]

  -- When publish succeeds, it has published the encoded event, persistently, to the exchange on the
  -- channel that it holds and the broker has acknowledged it; every failure of publish is an
  -- internal server error.
  pub publish-Outcome :
      (config : RabbitMqConfig) (bytes : List ℕ) (s : Session lapin)
      → Outcome config bytes (publish lapin config bytes s)
  unfolding publish
  publish-Outcome config bytes s =
      >>=-Holds (Outcome config bytes) (ensure_connected lapin config) _ s
        (λ done s' e. held-Outcome config bytes s')
        (λ error s' e. ensure-internal config s (ap (λ p. p.0) e))
