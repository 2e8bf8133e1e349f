-- ===== src/Tests/Handlers.antt =====
-- A small node, and the handlers on it.
use ldk_server.Prelude.{
  ℕ, ◌+◌, ◌≤◌, ◌≡◌, refl, ◌↔◌, ◌⊎◌, none, some, List, [], ◌∷◌, map, Result, ok, err, take, last?,
}
use ldk_server.Text.{Text, lit, text_eq}
use ldk_server.Text.Decimal.{parse_unsigned}
use ldk_server.Api.Node.{Ldk, RouteParametersConfig}
use ldk_server.Api.Error.{NodeError}
use ldk_server.Api.ChannelConfig.{build_channel_config_from_proto}
use ldk_server.Storage.Sqlite.{works, read, list_keys_max_page_size}
use ldk_server.Storage.Namespace.{check_namespace_key_validity}
use ldk_server.Storage.Sqlite.Pages.{listing, key_of, first_page, list-first}
use ldk_server.Api.Channels.{
  UpdateChannelConfigRequest, handle_close_channel_request, handle_force_close_channel_request,
  handle_splice_in_request, handle_update_channel_config_request,
}
use ldk_server.Api.Channels.Laws.{ByChannel, Refuses, Updated, channel_calls, update-eq_ok}
use ldk_server.Api.PaymentArgs.{
  OnchainSendRequest, ProtoRouteParameters, route_parameters_from_proto,
}
use ldk_server.Api.Payments.{handle_onchain_send_request}
use ldk_server.Api.Payments.Laws.{Sends, Unsendable, route_parameters_iff, onchain_send_calls}
use ldk_server.Api.ListPayments.{payments_listed, handle_list, handle_list_payments_request}
use ldk_server.Api.ListPayments.Laws.{decoded_at, handle_list_iff, list_payments-first}
use ldk_server.Tests.Pages.{
  lower_case, payments, two_payments, two_payments-IsTable, two_listed, listable,
}
use ldk_server.Tests.Values.{config, change}

-- The node counts its calls; each works and answers with what it was asked for.
abbrev count : {A : Type 0} → A → ℕ → Result A NodeError × ℕ
count a n = (ok a, n + 1)

abbrev node : Ldk
node = record {
  Node = ℕ;
  PublicKey = Text;
  SocketAddress = Text;
  UncheckedAddress = Text;
  Address = Text;
  FeeRate = ℕ;
  Bolt11Invoice = Text;
  Offer = Text;
  Description = Text;
  public_key_from_str = λ s. ok s;
  socket_address_from_str = λ s. some s;
  address_from_str = λ s. some s;
  require_network = λ a n. some a;
  fee_rate_from_sat_per_vb = λ n. some (n + n);
  bolt11_invoice_from_str = λ s. some s;
  offer_from_str = λ s. some s;
  description_new = λ s. ok s;
  hash_from_hex = λ s. none;
  show_error = λ e. lit "error";
  show_address = λ s. s;
  show_invoice = λ s. s;
  show_offer = λ s. s;
  close_channel = λ n k. count tt;
  force_close_channel = λ n k r. count tt;
  splice_in = λ n k sats. count tt;
  splice_out = λ n k a sats. count tt;
  open_channel = λ k a sats push c. count 1;
  open_announced_channel = λ k a sats push c. count 2;
  update_channel_config = λ n k c. count tt;
  channel_configs = λ n. (7, config) ∷ [];
  default_channel_config = config;
  connect = λ k a p. count tt;
  new_address = count (lit "new");
  send_to_address = λ a sats fee. count (lit "sent");
  send_all_to_address = λ a keep fee. count (lit "all");
  bolt11_receive = λ msat d secs. count (lit "invoice");
  bolt11_receive_variable_amount = λ d secs. count (lit "invoice");
  bolt11_send = λ i p. count (lit "id");
  bolt11_send_using_amount = λ i msat p. count (lit "id");
  bolt12_receive = λ msat d secs q. count (lit "offer");
  bolt12_receive_variable_amount = λ d secs. count (lit "offer");
  bolt12_send = λ o q note p. count (lit "id");
  bolt12_send_using_amount = λ o msat q note p. count (lit "id");
}

channel_calls_example :
    ByChannel node
      (lit "7")
      (lit "02ab")
      node.close_channel
      (handle_close_channel_request node
        (record { user_channel_id = lit "7"; counterparty_node_id = lit "02ab" }))
      3
    × ByChannel node
        (lit "7")
        (lit "02ab")
        (λ n k. node.force_close_channel n k none)
        (handle_force_close_channel_request node (record {
          user_channel_id = lit "7";
          counterparty_node_id = lit "02ab";
          force_close_reason = none;
        }))
        3
    × ByChannel node
        (lit "7")
        (lit "02ab")
        (λ n k. node.splice_in n k 500)
        (handle_splice_in_request node (record {
          user_channel_id = lit "7";
          counterparty_node_id = lit "02ab";
          splice_amount_sats = 500;
        }))
        3
channel_calls_example = channel_calls node (lit "7") (lit "02ab") none 500 3

abbrev update : UpdateChannelConfigRequest
update = record {
  user_channel_id = lit "7";
  counterparty_node_id = lit "02ab";
  channel_config = some change;
}

update-done : handle_update_channel_config_request node update 3 ≡ (ok tt, 4)
unfolding handle_update_channel_config_request parse_unsigned lit build_channel_config_from_proto
update-done = refl

update-eq_ok_example : Updated node update 3 4
update-eq_ok_example = update-eq_ok node update 3 4 update-done

abbrev send : OnchainSendRequest
send = record {
  address = lit "bc1q";
  amount_sats = some 600;
  send_all = none;
  fee_rate_sat_per_vb = some 2;
}

onchain_send_calls_example :
    (Unsendable node send 3 × Refuses node (handle_onchain_send_request node send) 3)
    ⊎ Sends node send 3
onchain_send_calls_example = onchain_send_calls node send 3

abbrev limits : ProtoRouteParameters
limits = record {
  max_total_routing_fee_msat = none;
  max_total_cltv_expiry_delta = 1008;
  max_path_count = 10;
  max_channel_saturation_power_of_half = 2;
}

abbrev route : RouteParametersConfig
route = record {
  max_total_routing_fee_msat = none;
  max_total_cltv_expiry_delta = 1008;
  max_path_count = 10;
  max_channel_saturation_power_of_half = 2;
}

route_parameters_iff_example :
    (route_parameters_from_proto (some limits) ≡ ok (some route))
    ↔ (10 ≤ 255) × (2 ≤ 255) × (route ≡ route)
route_parameters_iff_example = route_parameters_iff limits route

-- The stored payments are single numbers.
abbrev number : List ℕ → Result ℕ Text
number (n ∷ []) = ok n
number _ = err (lit "no number")

both_decoded :
    map
      (decoded_at lower_case number (λ e. e.message) payments_listed works two_payments)
      (map key_of (take list_keys_max_page_size (listing payments [] two_payments)))
    ≡ map some (2 ∷ 1 ∷ [])
unfolding read check_namespace_key_validity text_eq lit
both_decoded = rw two_listed refl

handle_list_iff_example :
    (handle_list lower_case number (λ e. e.message) payments_listed works none two_payments
      ≡ ok (record {
        payments = 2 ∷ 1 ∷ [];
        next_page_token = (first_page (listing payments [] two_payments)).next_page_token;
      }))
    ↔ (map
          (decoded_at lower_case number (λ e. e.message) payments_listed works two_payments)
          (first_page (listing payments [] two_payments)).keys
        ≡ map some (2 ∷ 1 ∷ []))
handle_list_iff_example =
    handle_list_iff lower_case number (λ e. e.message) payments_listed works none two_payments
      (first_page (listing payments [] two_payments)) (2 ∷ 1 ∷ [])
      (list-first lower_case payments [] two_payments two_payments-IsTable listable)

list_payments-first_example :
    handle_list_payments_request lower_case number (λ e. e.message) works none two_payments
    ≡ ok (record {
      payments = 2 ∷ 1 ∷ [];
      next_page_token = last? (take list_keys_max_page_size (listing payments [] two_payments));
    })
list_payments-first_example =
    list_payments-first lower_case number (λ e. e.message) two_payments (2 ∷ 1 ∷ [])
      two_payments-IsTable listable both_decoded
