-- ===== src/Tests/Daemon.antt =====
-- A small daemon whose node has one payment.
use ldk_server.Prelude.{ℕ, ◌+◌, ◌≡◌, refl, ◌⊎◌, none, some, [], ◌∷◌, ok}
use ldk_server.Prelude.Int.{pos}
use ldk_server.Text.{Text, lit, text_eq}
use ldk_server.Storage.Namespace.{check_namespace_key_validity}
use ldk_server.Storage.Sqlite.{read, works, write}
use ldk_server.Storage.Sqlite.Table.{IsTable}
use ldk_server.Payment
use ldk_server.Payment.{Printers, PaymentDetails, inbound, succeeded}
use ldk_server.Payment.Convert.{payment_to_proto}
use ldk_server.Events.{
  Daemon, Event, World, handle_event, handle_events, handled, stored, upsert_payment_details,
}
use ldk_server.Events.Delivery.{Delivered, handle_event-Delivered}
use ldk_server.Events.Table.{handle_event-IsTable, IsKept, handle_events-IsKept}
use ldk_server.Tests.Pages.{lower_case, two_payments, two_payments-IsTable}

abbrev texts : Printers
texts = record {
  PaymentId = Text;
  Txid = Text;
  BlockHash = Text;
  PaymentHash = Text;
  PaymentPreimage = Text;
  OfferId = Text;
  UntrustedString = Text;
  ChannelId = Text;
  NodeId = Text;
  show_payment_id = λ s. s;
  show_txid = λ s. s;
  show_block_hash = λ s. s;
  show_hash = λ s. s;
  show_preimage = λ s. s;
  show_offer_id = λ s. s;
  show_untrusted = λ s. s;
  show_channel_id = λ s. s;
  show_node_id = λ s. s;
}

abbrev pub details : PaymentDetails texts
details = record {
  id = lit "c";
  kind = Payment.PaymentKind.spontaneous (lit "hash") none;
  amount_msat = some 1000;
  fee_paid_msat = none;
  direction = inbound;
  status = succeeded;
  latest_update_timestamp = 9;
}

-- The node counts the handled events, the publisher the envelopes.
abbrev pub daemon : Daemon texts
daemon = record {
  Node = ℕ;
  Publisher = ℕ;
  payment = λ i n. some details;
  event_handled = λ n. n + 1;
  publish = λ e n. (ok tt, n + 1);
  encode = λ p. p.status ∷ [];
  encode_forwarded = λ p. [];
  to_lower_hex = λ s. s;
  env = lower_case;
}

abbrev pub before_event : World daemon
before_event = record { node = 0; publisher = 0; table = two_payments }

abbrev after_event : World daemon
after_event = record {
  node = 1;
  publisher = 1;
  table = (write lower_case works (lit "payments") [] (lit "c") (pos 9) (1 ∷ []) two_payments).1;
}

received :
    handle_event daemon works (some 9) (Event.payment_received (some (lit "c"))) before_event
    ≡ some after_event
unfolding handle_event upsert_payment_details stored handled write check_namespace_key_validity lit
    payment_to_proto
received = refl

handle_event-Delivered_example :
    (after_event.node ≡ before_event.node)
    ⊎ ((after_event.node ≡ daemon.event_handled before_event.node)
        × Delivered daemon (Event.payment_received (some (lit "c"))) before_event after_event)
handle_event-Delivered_example =
    handle_event-Delivered daemon works (some 9) (Event.payment_received (some (lit "c")))
      before_event after_event received

handle_event-IsTable_example : IsTable after_event.table
handle_event-IsTable_example =
    handle_event-IsTable daemon works (some 9) (Event.payment_received (some (lit "c")))
      before_event after_event received two_payments-IsTable

all_handled :
    handle_events daemon
      ((works, some 9, Event.payment_received (some (lit "c"))) ∷ [])
      before_event
    ≡ some after_event
unfolding handle_events
all_handled = received

before_event-IsKept : IsKept daemon (lit "payments") [] (lit "a") before_event.table
unfolding read check_namespace_key_validity text_eq lit
before_event-IsKept = (1 ∷ [], refl)

handle_events-IsKept_example : IsKept daemon (lit "payments") [] (lit "a") after_event.table
handle_events-IsKept_example =
    handle_events-IsKept daemon ((works, some 9, Event.payment_received (some (lit "c"))) ∷ [])
      before_event after_event (lit "payments") [] (lit "a") all_handled before_event-IsKept
