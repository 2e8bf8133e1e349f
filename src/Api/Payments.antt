-- ===== src/Api/Payments.antt =====
-- The handlers of payments: onchain_receive.rs, onchain_send.rs, bolt11_receive.rs, bolt11_send.rs,
-- bolt12_receive.rs and bolt12_send.rs of ldk-server/src/api.
pub mod Laws
use ldk_server.Prelude.{ℕ, Bool, true, false, Option, none, some, err, ok_or, opt_bind}
use ldk_server.Text.{Text, lit}
use ldk_server.Api.Error.{
  new, invalid_request_error, invalid_address, invalid_invoice, invalid_offer, from_node_error,
}
use ldk_server.Api.Act.{Act, pure, lift, node_call, ◌>>=◌}
use ldk_server.Api.Node.{Ldk}
use ldk_server.Api.PaymentArgs.{
  OnchainSendRequest, Bolt11ReceiveRequest, Bolt11SendRequest, Bolt12ReceiveRequest,
  Bolt12SendRequest, route_parameters_from_proto, proto_to_bolt11_description,
}

module _ (ldk : Ldk) where
  open ldk use {Node, Address, FeeRate, Description}

  -- `handle_onchain_receive_request`; the response is the address.
  unfoldable pub handle_onchain_receive_request : Act Node Text
  handle_onchain_receive_request =
      node_call ldk.show_error ldk.new_address >>= λ address. pure (ldk.show_address address)

  -- the address of the request, for the node's network
  unfoldable pub checked_address : Text → Act Node Address
  checked_address text s = elim (ldk.address_from_str text) [
    | none ↦ (err (from_node_error ldk.show_error invalid_address), s)
    | some unchecked ↦ (
      ok_or (ldk.require_network unchecked s)
          (new invalid_request_error (lit "Address is not valid for the configured network.")),
      s,
    )
  ]

  -- the match on `(request.amount_sats, request.send_all)`
  unfoldable pub send_onchain : Option ℕ → Option Bool → Address → Option FeeRate → Act Node Text
  send_onchain (some amount_sats) none address fee_rate s =
      node_call ldk.show_error (ldk.send_to_address address amount_sats fee_rate) s
  send_onchain none (some true) address fee_rate s =
      node_call ldk.show_error (ldk.send_all_to_address address false fee_rate) s
  send_onchain none (some false) address fee_rate s = (
    err (
        new invalid_request_error
          (lit "Must specify either `send_all` or `amount_sats`, but not both or neither")),
    s,
  )
  send_onchain none none address fee_rate s = (
    err (
        new invalid_request_error
          (lit "Must specify either `send_all` or `amount_sats`, but not both or neither")),
    s,
  )
  send_onchain (some amount_sats) (some all) address fee_rate s = (
    err (
        new invalid_request_error
          (lit "Must specify either `send_all` or `amount_sats`, but not both or neither")),
    s,
  )

  -- `handle_onchain_send_request`
  unfoldable pub handle_onchain_send_request : OnchainSendRequest → Act Node Text
  unfolding checked_address send_onchain
  handle_onchain_send_request request = checked_address request.address >>= λ address.
      send_onchain request.amount_sats request.send_all address
        (opt_bind request.fee_rate_sat_per_vb ldk.fee_rate_from_sat_per_vb)

  -- `handle_bolt11_receive_request`; the response is the invoice.
  unfoldable pub handle_bolt11_receive_request : Bolt11ReceiveRequest → Act Node Text
  unfolding proto_to_bolt11_description
  handle_bolt11_receive_request request =
      lift (proto_to_bolt11_description ldk request.description) >>= λ description.
      node_call ldk.show_error (elim request.amount_msat [
        | some amount_msat ↦ ldk.bolt11_receive amount_msat description request.expiry_secs
        | none ↦ ldk.bolt11_receive_variable_amount description request.expiry_secs
      ])
      >>= λ invoice. pure (ldk.show_invoice invoice)

  -- `handle_bolt11_send_request`; the response is the payment id.
  unfoldable pub handle_bolt11_send_request : Bolt11SendRequest → Act Node Text
  unfolding route_parameters_from_proto
  handle_bolt11_send_request request =
      lift (
        ok_or (ldk.bolt11_invoice_from_str request.invoice)
          (from_node_error ldk.show_error invalid_invoice))
      >>= λ invoice.
          lift (route_parameters_from_proto request.route_parameters) >>= λ route_parameters.
          node_call ldk.show_error (elim request.amount_msat [
            | none ↦ ldk.bolt11_send invoice route_parameters
            | some amount_msat ↦ ldk.bolt11_send_using_amount invoice amount_msat route_parameters
          ])

  -- `handle_bolt12_receive_request`; the response is the offer.
  unfoldable pub handle_bolt12_receive_request : Bolt12ReceiveRequest → Act Node Text
  handle_bolt12_receive_request request =
      node_call ldk.show_error (elim request.amount_msat [
        | some amount_msat ↦
            ldk.bolt12_receive amount_msat request.description request.expiry_secs request.quantity
        | none ↦ ldk.bolt12_receive_variable_amount request.description request.expiry_secs
      ])
      >>= λ offer. pure (ldk.show_offer offer)

  -- `handle_bolt12_send_request`; the response is the payment id.
  unfoldable pub handle_bolt12_send_request : Bolt12SendRequest → Act Node Text
  unfolding route_parameters_from_proto
  handle_bolt12_send_request request =
      lift (ok_or (ldk.offer_from_str request.offer) (from_node_error ldk.show_error invalid_offer))
      >>= λ offer.
          lift (route_parameters_from_proto request.route_parameters) >>= λ route_parameters.
          node_call ldk.show_error (elim request.amount_msat [
            | none ↦ ldk.bolt12_send offer request.quantity request.payer_note route_parameters
            | some amount_msat ↦
                ldk.bolt12_send_using_amount offer amount_msat request.quantity request.payer_note
                  route_parameters
          ])
