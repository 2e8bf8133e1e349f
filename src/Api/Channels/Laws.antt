-- ===== src/Api/Channels/Laws.antt =====
-- When a channel handler calls the node, and with what.
use ldk_server.Prelude.{
  ℕ, ◌≤◌, ◌≡◌, ◌++◌, refl, ◌⊎◌, inl, inr, Option, none, some, Result, ok, err, Option-cases,
  Result-cases, find?, ◌==◌,
}
use ldk_server.Text.{Text, lit}
use ldk_server.Text.Decimal.{parse_unsigned, u128_max}
use ldk_server.Text.Decimal.Laws.{parse_unsigned-le}
use ldk_server.Api.Error.{NodeError, new, invalid_request_error, lightning_error}
use ldk_server.Api.Act.{Act, lift, node_call, node_call_or-eq_ok, ◌>>=◌}
use ldk_server.Api.ChannelConfig.{
  ChannelConfig, ProtoChannelConfig, build_channel_config_from_proto,
}
use ldk_server.Api.Node.{Ldk}
use ldk_server.Api.Channels.{
  UpdateChannelConfigRequest, parse_user_channel_id, parse_counterparty_node_id,
  handle_close_channel_request, handle_force_close_channel_request, handle_splice_in_request,
  handle_update_channel_config_request,
}

module _ (ldk : Ldk) where
  open ldk use {Node, PublicKey}

  -- The run refuses the request as invalid, and leaves the node alone.
  abbrev pub Refuses : {A : Type 0} → Act Node A → Node → Type 0
  Refuses m s = (e : Text) × (m s ≡ (err (new invalid_request_error e), s))

  -- The text is no channel id, or the other one is no public key.
  abbrev pub Unparsed : Text → Text → Type 0
  Unparsed id peer =
      (parse_unsigned u128_max id ≡ none) ⊎ ((e : Text) × (ldk.public_key_from_str peer ≡ err e))

  -- The run calls an operation on the channel and the counterparty that the texts name, or one of
  -- the texts does not parse and the run refuses.
  abbrev pub ByChannel :
      Text
      → Text
      → (ℕ → PublicKey → Node → Result (Unit {0}) NodeError × Node)
      → Act Node (Unit {0})
      → Node
      → Type 0
  ByChannel id peer op m s =
      (Unparsed id peer × Refuses m s)
      ⊎ ((n : ℕ) × (k : PublicKey) × (n ≤ u128_max)
          × (parse_unsigned u128_max id ≡ some n)
          × (ldk.public_key_from_str peer ≡ ok k)
          × (m s ≡ node_call ldk.show_error (op n k) s))

  by_channel :
      (id peer : Text) (op : ℕ → PublicKey → Node → Result (Unit {0}) NodeError × Node) (s : Node)
      → ByChannel id peer op
          (lift (parse_user_channel_id id) >>= λ n.
            lift (parse_counterparty_node_id ldk peer) >>= λ k. node_call ldk.show_error (op n k))
          s
  unfolding parse_user_channel_id parse_counterparty_node_id
  by_channel id peer op s = elim (Option-cases (parse_unsigned u128_max id)) [
    | inl e ↦ inl (inl e, (lit "Invalid UserChannelId.", rw e refl))
    | inr (n, e) ↦ elim (Result-cases (ldk.public_key_from_str peer)) [
      | inr (m, f) ↦
          inl (inr (m, f), (lit "Invalid counterparty node ID, error: " ++ m, rw e (rw f refl)))
      | inl (k, f) ↦ inr (n, k, parse_unsigned-le u128_max n id e, e, f, rw e (rw f refl))
    ]
  ]

  -- Closing, force closing and splicing in call the node's operation once for the parsed channel id,
  -- a u128, and public key and report its outcome, unless one of the two texts does not parse; only
  -- then they refuse the request as invalid and leave the node as it was.
  pub channel_calls :
      (id peer : Text) (reason : Option Text) (sats : ℕ) (s : Node)
      → ByChannel id peer ldk.close_channel
          (handle_close_channel_request ldk
            (record { user_channel_id = id; counterparty_node_id = peer }))
          s
        × ByChannel id peer
            (λ n k. ldk.force_close_channel n k reason)
            (handle_force_close_channel_request ldk (record {
              user_channel_id = id;
              counterparty_node_id = peer;
              force_close_reason = reason;
            }))
            s
        × ByChannel id peer
            (λ n k. ldk.splice_in n k sats)
            (handle_splice_in_request ldk (record {
              user_channel_id = id;
              counterparty_node_id = peer;
              splice_amount_sats = sats;
            }))
            s
  unfolding handle_close_channel_request handle_force_close_channel_request handle_splice_in_request
  channel_calls id peer reason sats s = (
    by_channel id peer ldk.close_channel s,
    by_channel id peer (λ n k. ldk.force_close_channel n k reason) s,
    by_channel id peer (λ n k. ldk.splice_in n k sats) s,
  )

  -- What a successful update has found, built and called.
  pub record Updated (request : UpdateChannelConfigRequest) (s s' : Node) : Type 0 where
    pub id : ℕ
    pub peer : PublicKey
    pub current : ℕ × ChannelConfig
    pub proto : ProtoChannelConfig
    pub updated : ChannelConfig
    pub parsed : parse_unsigned u128_max request.user_channel_id ≡ some id
    pub listed : find? (λ (c : ℕ × ChannelConfig). c.0 == id) (ldk.channel_configs s) ≡ some current
    pub given : request.channel_config ≡ some proto
    pub built : build_channel_config_from_proto current.1 proto ≡ ok updated
    pub named : ldk.public_key_from_str request.counterparty_node_id ≡ ok peer
    pub called : ldk.update_channel_config id peer updated s ≡ (ok tt, s')

  -- A successful update of a channel's configuration has called the node once, on the parsed ids,
  -- with the request's configuration laid over the one that the node lists for that channel.
  pub update-eq_ok :
      (request : UpdateChannelConfigRequest) (s s' : Node)
      → handle_update_channel_config_request ldk request s ≡ (ok tt, s')
      → Updated request s s'
  unfolding handle_update_channel_config_request
  update-eq_ok request s s' h =
      elim (Option-cases (parse_unsigned u128_max request.user_channel_id)) [
        | inl a ↦ cc (rw a at h)
        | inr (id, a) ↦
            elim (Option-cases
              (find? (λ (c : ℕ × ChannelConfig). c.0 == id) (ldk.channel_configs s))) [
                | inl b ↦ cc (rw (a, b) at h)
                | inr (current, b) ↦ elim (Option-cases request.channel_config) [
                  | inl c ↦ cc (rw (a, b, c) at h)
                  | inr (proto, c) ↦
                      elim (Result-cases (build_channel_config_from_proto current.1 proto)) [
                        | inr (_, d) ↦ cc (rw (a, b, c, d) at h)
                        | inl (updated, d) ↦
                            elim (Result-cases
                              (ldk.public_key_from_str request.counterparty_node_id)) [
                                | inr (_, e) ↦ cc (rw (a, b, c, d, e) at h)
                                | inl (peer, e) ↦ record {
                                  id = id;
                                  peer = peer;
                                  current = current;
                                  proto = proto;
                                  updated = updated;
                                  parsed = a;
                                  listed = b;
                                  given = c;
                                  built = d;
                                  named = e;
                                  called =
                                      node_call_or-eq_ok
                                        (λ e. new lightning_error (
                                          lit "Failed to update channel config: "
                                          ++ ldk.show_error e))
                                        (ldk.update_channel_config id peer updated)
                                        (rw (a, b, c, d, e) at h);
                                }
                              ]
                      ]
                ]
              ]
      ]
