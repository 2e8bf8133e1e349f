-- ===== src/Gui/Indices.antt =====
-- An operation is known by its index.
use ldk_server.Prelude.{ℕ, ◌≡◌, refl, sym, ap, ◌∙◌, ==_iff, true, if◌then◌else◌, ◌==◌}
use ldk_server.Gui.State.{Op, op_eq, op_index}

-- The operation with this index.
abbrev op_at : ℕ → Op
op_at n =
    if n == 0
    then Op.node_info
    else if n == 1
    then Op.balances
    else if n == 2
    then Op.channels
    else if n == 3
    then Op.payments
    else if n == 4
    then Op.onchain_receive
    else if n == 5
    then Op.onchain_send
    else if n == 6
    then Op.bolt11_receive
    else if n == 7
    then Op.bolt11_send
    else if n == 8
    then Op.bolt12_receive
    else if n == 9
    then Op.bolt12_send
    else if n == 10
    then Op.open_channel
    else if n == 11
    then Op.close_channel
    else if n == 12
    then Op.force_close_channel
    else if n == 13
    then Op.splice_in
    else if n == 14
    then Op.splice_out
    else if n == 15
    then Op.update_channel_config
    else Op.connect_peer

op_at-op_index : (o : Op) → op_at (op_index o) ≡ o
op_at-op_index Op.node_info = refl
op_at-op_index Op.balances = refl
op_at-op_index Op.channels = refl
op_at-op_index Op.payments = refl
op_at-op_index Op.onchain_receive = refl
op_at-op_index Op.onchain_send = refl
op_at-op_index Op.bolt11_receive = refl
op_at-op_index Op.bolt11_send = refl
op_at-op_index Op.bolt12_receive = refl
op_at-op_index Op.bolt12_send = refl
op_at-op_index Op.open_channel = refl
op_at-op_index Op.close_channel = refl
op_at-op_index Op.force_close_channel = refl
op_at-op_index Op.splice_in = refl
op_at-op_index Op.splice_out = refl
op_at-op_index Op.update_channel_config = refl
op_at-op_index Op.connect_peer = refl

pub same-op : (a b : Op) → op_eq a b ≡ true → a ≡ b
same-op a b h =
    sym (op_at-op_index a) ∙ ap op_at ((==_iff (op_index a) (op_index b)).0 h) ∙ op_at-op_index b
