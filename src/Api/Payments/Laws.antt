-- ===== src/Api/Payments/Laws.antt =====
-- When a payment handler calls the node, and with what.
use ldk_server.Prelude.{
  ℕ, ◌≤◌, ◌≡◌, refl, ◌∙◌, ◌↔◌, ◌⊎◌, inl, inr, true, false, Option, none, some, ok, Option-cases,
  not, is_some, Bool, Bool-cases, opt_bind, leb, leb→le, le→leb,
}
use ldk_server.Text.{Text, lit}
use ldk_server.Api.Error.{invalid_address, from_node_error}
use ldk_server.Api.Act.{Act, node_call}
use ldk_server.Api.Node.{Ldk, RouteParametersConfig}
use ldk_server.Api.Channels.Laws.{Refuses}
use ldk_server.Api.PaymentArgs.{
  OnchainSendRequest, ProtoRouteParameters, route_parameters_from_proto,
}
use ldk_server.Api.Payments.{handle_onchain_send_request, checked_address, send_onchain}

-- Route parameters are taken over unchanged, exactly if the path count and the saturation power are
-- at most 255.
pub route_parameters_iff :
    (q : ProtoRouteParameters) (p : RouteParametersConfig)
    → (route_parameters_from_proto (some q) ≡ ok (some p))
      ↔ (q.max_path_count ≤ 255)
        × (q.max_channel_saturation_power_of_half ≤ 255)
        × (p ≡ record {
          max_total_routing_fee_msat = q.max_total_routing_fee_msat;
          max_total_cltv_expiry_delta = q.max_total_cltv_expiry_delta;
          max_path_count = q.max_path_count;
          max_channel_saturation_power_of_half = q.max_channel_saturation_power_of_half;
        })
unfolding route_parameters_from_proto
route_parameters_iff q p = elim (Bool-cases (leb q.max_path_count 255)) [
  | inl a ↦ elim (Bool-cases (leb q.max_channel_saturation_power_of_half 255)) [
    | inl b ↦ rw a (rw b ((λ h. (leb→le _ _ a, leb→le _ _ b, cc)), (λ h. cc)))
    | inr b ↦ rw a (rw b ((λ h. cc), (λ h. cc (le→leb _ _ h.1))))
  ]
  | inr a ↦ rw a ((λ h. cc), (λ h. cc (le→leb _ _ h.0)))
]

module _ (ldk : Ldk) where
  open ldk use {Node, UncheckedAddress, Address, FeeRate}

  -- the fee rate that a send is made with: also `none` for a rate that does not fit
  abbrev pub rate : OnchainSendRequest → Option FeeRate
  rate request = opt_bind request.fee_rate_sat_per_vb ldk.fee_rate_from_sat_per_vb

  -- A run that makes one call, for the amount or for all funds.
  abbrev pub SendsEither :
      Option ℕ → Option Bool → Address → Option FeeRate → Act Node Text → Node → Type 0
  SendsEither amount all address fee m s =
      ((sats : ℕ) × (amount ≡ some sats)
        × (all ≡ none)
        × (m s ≡ node_call ldk.show_error (ldk.send_to_address address sats fee) s))
      ⊎ ((amount ≡ none)
          × (all ≡ some true)
          × (m s ≡ node_call ldk.show_error (ldk.send_all_to_address address false fee) s))

  -- The request asks for an amount or for all funds, and not for both.
  abbrev pub is_choice : Option ℕ → Option Bool → Bool
  is_choice amount all = elim amount [
    | some sats ↦ not (is_some all)
    | none ↦ elim all [ some b ↦ b | none ↦ false ]
  ]

  neither : Text
  neither = lit "Must specify either `send_all` or `amount_sats`, but not both or neither"

  send_onchain_lem :
      (amount : Option ℕ) (all : Option Bool) (a : Address) (fee : Option FeeRate) (s : Node)
      → ((is_choice amount all ≡ false) × Refuses ldk (send_onchain ldk amount all a fee) s)
        ⊎ SendsEither amount all a fee (send_onchain ldk amount all a fee) s
  unfolding send_onchain neither
  send_onchain_lem (some sats) none a fee s = inr (inl (sats, refl, refl, refl))
  send_onchain_lem none (some true) a fee s = inr (inr (refl, refl, refl))
  send_onchain_lem none (some false) a fee s = inl (refl, (neither, refl))
  send_onchain_lem none none a fee s = inl (refl, (neither, refl))
  send_onchain_lem (some sats) (some all) a fee s = inl (refl, (neither, refl))

  -- What an on-chain send that is not refused sends, and to where.
  pub record Sends (request : OnchainSendRequest) (s : Node) : Type 0 where
    pub unchecked : UncheckedAddress
    pub address : Address
    pub parsed : ldk.address_from_str request.address ≡ some unchecked
    pub for_network : ldk.require_network unchecked s ≡ some address
    pub sent :
        SendsEither request.amount_sats request.send_all address
          (rate request)
          (handle_onchain_send_request ldk request)
          s

  -- The address is none of the node's network, or the request does not choose what to send.
  abbrev pub Unsendable : OnchainSendRequest → Node → Type 0
  Unsendable request s =
      (ldk.address_from_str request.address ≡ none)
      ⊎ ((unchecked : UncheckedAddress) × (ldk.address_from_str request.address ≡ some unchecked)
          × (ldk.require_network unchecked s ≡ none))
      ⊎ (is_choice request.amount_sats request.send_all ≡ false)

  -- An on-chain send makes one call of the node, to an address of the node's network, for the amount
  -- or for all funds, whichever of the two the request asks for, unless it asks for both or neither
  -- or its address does not parse or is of another network; only then it is refused as invalid and
  -- leaves the node as it was.
  pub onchain_send_calls :
      (request : OnchainSendRequest) (s : Node)
      → (Unsendable request s × Refuses ldk (handle_onchain_send_request ldk request) s)
        ⊎ Sends request s
  unfolding handle_onchain_send_request checked_address from_node_error
  onchain_send_calls request s = elim (Option-cases (ldk.address_from_str request.address)) [
    | inl e ↦ inl (
      inl e,
      (ldk.show_error invalid_address, rw (e, handle_onchain_send_request, checked_address) refl),
    )
    | inr (u, e) ↦ elim (Option-cases (ldk.require_network u s)) [
      | inl f ↦ inl (
        inr (inl (u, e, f)),
        (
          lit "Address is not valid for the configured network.",
          rw (e, f, handle_onchain_send_request, checked_address) refl,
        ),
      )
      | inr (a, f) ↦
          let same : handle_onchain_send_request ldk request s
              ≡ send_onchain ldk request.amount_sats request.send_all a (rate request) s =
            rw (e, f, handle_onchain_send_request, checked_address) refl in
          elim (send_onchain_lem request.amount_sats request.send_all a (rate request) s) [
            | inl (c, (m, g)) ↦ inl (inr (inr c), (m, same ∙ g))
            | inr c ↦ inr (record {
              unchecked = u;
              address = a;
              parsed = e;
              for_network = f;
              sent = elim c [
                | inl (sats, x, y, g) ↦ inl (sats, x, y, same ∙ g)
                | inr (x, y, g) ↦ inr (x, y, same ∙ g)
              ];
            })
          ]
    ]
  ]
