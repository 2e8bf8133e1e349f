-- ===== src/Events/RabbitMq.antt =====
-- The publisher of ldk-server/src/io/events/rabbitmq/mod.rs, over what it calls of lapin.
pub mod Acked
use ldk_server.Prelude.{
  ℕ, Bool, true, false, Option, none, some, List, [], ◌∷◌, ◌++◌, Result, ok, err, if◌then◌else◌,
  opt_map, unwrap_or,
}
use ldk_server.Text.{Text, lit}
use ldk_server.Api.Error.{LdkServerError, new, internal_server_error, display}
use ldk_server.Api.Act.{Act, pure, lift, ◌>>=◌, ◌>>◌}

pub record RabbitMqConfig : Type 0 where
  pub connection_string : Text
  pub exchange_name : Text

-- `Confirmation` of lapin
pub data Confirmation : Type 0 where
  ack nack not_requested : Confirmation

-- lapin and the broker behind it; a failed call may change the broker's side too.
pub record Lapin : Type 1 where
  pub Net : Type 0
  pub Connection : Type 0
  pub Channel : Type 0
  pub Confirm : Type 0
  pub connect : Text → Net → Result Connection Text × Net
  pub create_channel : Connection → Net → Result Channel Text × Net
  pub confirm_select : Channel → Net → Result (Unit {0}) Text × Net
  -- a durable fanout exchange
  pub exchange_declare : Channel → Text → Net → Result (Unit {0}) Text × Net
  pub is_connected : Connection → Net → Bool
  -- with the empty routing key, and this delivery mode
  pub basic_publish : Channel → Text → ℕ → List ℕ → Net → Result Confirm Text × Net
  pub confirm : Confirm → Net → Result Confirmation Text × Net

abbrev pub delivery_mode_persistent : ℕ
delivery_mode_persistent = 2

module _ (lapin : Lapin) where
  open lapin use {Net, Connection, Channel, Confirm}

  -- `RabbitMqEventPublisher`, and the broker
  pub record Session : Type 0 where
    pub connection : Option Connection
    pub channel : Option Channel
    pub net : Net

  -- a call of lapin, with the error that the publisher makes of its failure
  abbrev pub failed : {A : Type 0} → Text → Result A Text → Result A LdkServerError
  failed what (ok a) = ok a
  failed what (err e) = err (new internal_server_error (what ++ e))

  abbrev pub attempt : {A : Type 0} → Text → (Net → Result A Text × Net) → Act Session A
  attempt what call s = let (r, net) = call s.net in (failed what r, record s { net = net })

  -- `RabbitMqEventPublisher::connect`
  unfoldable pub connect : RabbitMqConfig → Act Session (Connection × Channel)
  connect config =
      attempt (lit "Failed to connect to RabbitMQ: ") (lapin.connect config.connection_string)
      >>= λ conn.
          attempt (lit "Failed to create channel: ") (lapin.create_channel conn) >>= λ channel.
          attempt (lit "Failed to enable confirms: ") (lapin.confirm_select channel)
          >> attempt (lit "Failed to declare exchange: ")
              (lapin.exchange_declare channel config.exchange_name)
          >> pure (conn, channel)

  -- the connection is there and alive
  abbrev pub is_alive : Session → Bool
  is_alive s = unwrap_or (opt_map (λ c. lapin.is_connected c s.net) s.connection) false

  -- keeping the new connection and channel; the error of `connect` is printed into a new one
  abbrev pub kept :
      Result (Connection × Channel) LdkServerError × Session
      → Result (Unit {0}) LdkServerError × Session
  kept (err e, s) = (err (new internal_server_error (display e)), s)
  kept (ok (conn, channel), s) =
      (ok tt, record { connection = some conn; channel = some channel; net = s.net })

  unfoldable pub ensure_connected : RabbitMqConfig → Act Session (Unit {0})
  ensure_connected config s = if is_alive s then (ok tt, s) else kept (connect config s)

  abbrev pub acknowledged : Confirmation → Result (Unit {0}) LdkServerError
  acknowledged ack = ok tt
  acknowledged nack = err (new internal_server_error (lit "Message not acknowledged"))
  acknowledged not_requested = err (new internal_server_error (lit "Unexpected confirmation"))

  -- The channel that is held, or the error of a missing one.
  abbrev pub held : Act Session Channel
  held s = (
    elim s.channel [
      | none ↦ err (new internal_server_error (lit "Channel not initialized"))
      | some channel ↦ ok channel
    ],
    s,
  )

  -- the part of `publish` with a channel
  abbrev pub publish_on : RabbitMqConfig → List ℕ → Channel → Act Session (Unit {0})
  publish_on config bytes channel =
      attempt (lit "Failed to publish event, error: ")
        (lapin.basic_publish channel config.exchange_name delivery_mode_persistent bytes)
      >>= λ confirm.
          attempt (lit "Failed to get confirmation: ") (lapin.confirm confirm) >>= λ confirmation.
          lift (acknowledged confirmation)

  -- `publish`, on the encoded event
  unfoldable pub publish : RabbitMqConfig → List ℕ → Act Session (Unit {0})
  publish config bytes =
      ensure_connected config >> (held >>= λ channel. publish_on config bytes channel)

-- `NoopEventPublisher::publish`, without the feature
abbrev pub noop_publish : List ℕ → Result (Unit {0}) LdkServerError
noop_publish bytes = ok tt
