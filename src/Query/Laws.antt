-- ===== src/Query/Laws.antt =====
-- What the answers keep of the node's state.
use ldk_server.Prelude.{◌≤◌, ◌≡◌, refl, List, [], ◌∷◌, ok, map, All, All-map}
use ldk_server.Text.Decimal.{u128_max}
use ldk_server.Text.Decimal.Laws.{parse_unsigned-show_nat}
use ldk_server.Api.Channels.{parse_user_channel_id}
use ldk_server.Payment.{Printers}
use ldk_server.Query.Balance.{
  LightningBalance, PendingSweepBalance, lightning_balance_to_proto, pending_sweep_balance_to_proto,
}
use ldk_server.Query.Amounts.{proto_amount, proto_sweep_amount, amount, sweep_amount}
use ldk_server.Query.Channels.{Channel, ChannelDetails, channel_to_proto}
use ldk_server.Query.{
  View, GetBalancesResponse, ListChannelsResponse, handle_get_balances_request,
  handle_list_channels_request,
}

-- Two maps, one after the other, that give what a third one gives on each element.
map-fused :
    {A B C : Type 0} (f : A → B) (g : B → C) (h : A → C) (xs : List A)
    → All (λ x. g (f x) ≡ h x) xs
    → map g (map f xs) ≡ map h xs
map-fused f g h [] a = refl
map-fused f g h (x ∷ xs) (e, a) = cc (e, map-fused f g h xs a)

All-of_each : {A : Type 0} (P : A → Type 0) → ((x : A) → P x) → (xs : List A) → All P xs
All-of_each P p [] = tt
All-of_each P p (x ∷ xs) = (p x, All-of_each P p xs)

module _ {types : Printers} (node : View types) where
  amount-to_proto :
      (b : LightningBalance types)
      → proto_amount (lightning_balance_to_proto types node.channel_hex b) ≡ amount b
  unfolding lightning_balance_to_proto
  amount-to_proto (LightningBalance.claimable_on_channel_close c n a t p f i h) = refl
  amount-to_proto (LightningBalance.claimable_awaiting_confirmations c n a h) = refl
  amount-to_proto (LightningBalance.contentious_claimable c n a t h p) = refl
  amount-to_proto (LightningBalance.maybe_timeout_claimable_htlc c n a h p o) = refl
  amount-to_proto (LightningBalance.maybe_preimage_claimable_htlc c n a e h) = refl
  amount-to_proto (LightningBalance.counterparty_revoked_output_claimable c n a) = refl

  sweep_amount-to_proto :
      (b : PendingSweepBalance types)
      → proto_sweep_amount (pending_sweep_balance_to_proto types node.channel_hex b)
        ≡ sweep_amount b
  unfolding pending_sweep_balance_to_proto
  sweep_amount-to_proto (PendingSweepBalance.pending_broadcast c a) = refl
  sweep_amount-to_proto (PendingSweepBalance.broadcast_awaiting_confirmation c h t a) = refl
  sweep_amount-to_proto (PendingSweepBalance.awaiting_threshold_confirmations c t k h a) = refl

  pub get_balances-amounts :
      (r : GetBalancesResponse) × (handle_get_balances_request node ≡ ok r)
      × (map proto_amount r.lightning_balances ≡ map amount node.list_balances.lightning_balances)
      × (map proto_sweep_amount r.pending_balances_from_channel_closures
          ≡ map sweep_amount node.list_balances.pending_balances_from_channel_closures)
      × (r.total_lightning_balance_sats ≡ node.list_balances.total_lightning_balance_sats)
      × (r.spendable_onchain_balance_sats ≡ node.list_balances.spendable_onchain_balance_sats)
  unfolding handle_get_balances_request
  get_balances-amounts = (
    _,
    refl,
    map-fused _ proto_amount amount _ (All-of_each _ amount-to_proto _),
    map-fused _ proto_sweep_amount sweep_amount _ (All-of_each _ sweep_amount-to_proto _),
    refl,
    refl,
  )

  shown :
      (c : ChannelDetails types)
      → c.user_channel_id ≤ u128_max
      → parse_user_channel_id (channel_to_proto types node.channel_hex c).user_channel_id
        ≡ ok c.user_channel_id
  unfolding channel_to_proto parse_user_channel_id
  shown c small = rw (parse_unsigned-show_nat u128_max c.user_channel_id small)

  pub list_channels-parse_user_channel_id :
      All (λ (c : ChannelDetails types). c.user_channel_id ≤ u128_max) node.list_channels
      → (r : ListChannelsResponse) × (handle_list_channels_request node ≡ ok r)
        × (map (λ (c : Channel). parse_user_channel_id c.user_channel_id) r.channels
            ≡ map (λ (c : ChannelDetails types). ok c.user_channel_id) node.list_channels)
  unfolding handle_list_channels_request
  list_channels-parse_user_channel_id small =
      (_, refl, map-fused _ _ _ node.list_channels (All-map shown node.list_channels small))
