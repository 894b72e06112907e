-- ===== src/Session/Merge.antt =====
-- _store.py: the merges of on-chain reads and of vouchers into the stored state.
use pympp.Prelude.{
  ℕ, String, false, not, Option, none, some, leb, ltb, ◌==◌, if◌then◌else◌, or_else,
}
use pympp.Prelude.Result.{Result, ok, raise, raise_if, ◌>>◌}
use pympp.Session.State.{
  SignedVoucher, ChannelDescriptor, precompile, ChannelState, OnChainChannelState, SessionError,
  channel_not_found, channel_closed,
}
use pympp.Session.Vouchers.{retain_vouchers}

unfoldable pub keep_greater : ℕ → ℕ → ℕ
keep_greater current next_value = if ltb next_value current then current else next_value

pub record ActiveOnChainState : Type 0 where
  pub close_requested_at : ℕ
  pub deposit : ℕ
  pub settled_on_chain : ℕ

-- `current` is read through its three fields only, each 0 without a state.
unfoldable pub merge_active_on_chain_state :
    Option ChannelState → OnChainChannelState → ActiveOnChainState
unfolding keep_greater
merge_active_on_chain_state none state = record {
  close_requested_at = keep_greater 0 state.close_requested_at;
  deposit = keep_greater 0 state.deposit;
  settled_on_chain = keep_greater 0 state.settled;
}
merge_active_on_chain_state (some current) state = record {
  close_requested_at = keep_greater current.close_requested_at state.close_requested_at;
  deposit = keep_greater current.deposit state.deposit;
  settled_on_chain = keep_greater current.settled_on_chain state.settled;
}

pub record HighestVoucher : Type 0 where
  pub highest_voucher_amount : ℕ
  pub highest_voucher : Option SignedVoucher

abbrev candidate : String → ℕ → String → HighestVoucher
candidate channel_id cumulative_amount signature = record {
  highest_voucher_amount = cumulative_amount;
  highest_voucher = some (record {
    channel_id = channel_id;
    cumulative_amount = cumulative_amount;
    signature = signature;
  });
}

unfoldable pub resolve_highest_voucher : String → Option ChannelState → ℕ → String → HighestVoucher
resolve_highest_voucher channel_id none cumulative_amount signature =
    candidate channel_id cumulative_amount signature
resolve_highest_voucher channel_id (some current) cumulative_amount signature =
    if ltb cumulative_amount current.highest_voucher_amount
    then record {
      highest_voucher_amount = current.highest_voucher_amount;
      highest_voucher = current.highest_voucher;
    }
    else candidate channel_id cumulative_amount signature

unfoldable pub with_on_chain : ChannelState → ActiveOnChainState → ChannelState
with_on_chain current on_chain = record current {
  close_requested_at = on_chain.close_requested_at;
  deposit = on_chain.deposit;
  settled_on_chain = on_chain.settled_on_chain;
}

unfoldable pub top_up_channel_state :
    Option ChannelState → OnChainChannelState → Option ChannelState
unfolding merge_active_on_chain_state with_on_chain
top_up_channel_state none state = none
top_up_channel_state (some current) state =
    some (with_on_chain current (merge_active_on_chain_state (some current) state))

-- The arguments of an open that the chain has verified. `now_iso` is the clock's reading.
pub record OpenRequest : Type 0 where
  pub authorized_signer : String
  pub chain_id : ℕ
  pub channel_id : String
  pub descriptor : ChannelDescriptor
  pub escrow : String
  pub expiring_nonce_hash : String
  pub cumulative_amount : ℕ
  pub signature : String
  pub state : OnChainChannelState
  pub now_iso : String

unfoldable pub open_channel_state : Option ChannelState → OpenRequest → ChannelState
unfolding merge_active_on_chain_state resolve_highest_voucher keep_greater
open_channel_state none r =
    let on_chain = merge_active_on_chain_state none r.state in
    let highest = resolve_highest_voucher r.channel_id none r.cumulative_amount r.signature in
    record {
      channel_id = r.channel_id;
      authorized_signer = r.authorized_signer;
      chain_id = r.chain_id;
      escrow_contract = r.escrow;
      payer = r.descriptor.payer;
      payee = r.descriptor.payee;
      token = r.descriptor.token;
      deposit = on_chain.deposit;
      settled_on_chain = on_chain.settled_on_chain;
      highest_voucher_amount = highest.highest_voucher_amount;
      highest_voucher = highest.highest_voucher;
      spent = keep_greater 0 r.state.settled;
      units = 0;
      close_requested_at = on_chain.close_requested_at;
      finalized = false;
      created_at = r.now_iso;
      pending_close_valid_before = none;
      backend = some precompile;
      descriptor = some r.descriptor;
      expiring_nonce_hash = some r.expiring_nonce_hash;
      operator = some r.descriptor.operator;
      salt = some r.descriptor.salt;
      on_chain_verified_at = none;
      scheduled_settlement_lease = none;
      last_settlement_at = none;
      last_settlement_spent = none;
      last_settlement_units = none;
      retained_vouchers = none;
      pending_settlement = none;
      idempotency_markers = none;
      close_supervised_from_block = none;
    }
open_channel_state (some current) r =
    let on_chain = merge_active_on_chain_state (some current) r.state in
    let highest =
      resolve_highest_voucher r.channel_id (some current) r.cumulative_amount r.signature in
    record current {
      authorized_signer = r.authorized_signer;
      backend = some precompile;
      chain_id = r.chain_id;
      channel_id = r.channel_id;
      descriptor = some r.descriptor;
      escrow_contract = r.escrow;
      expiring_nonce_hash = some r.expiring_nonce_hash;
      operator = some r.descriptor.operator;
      payee = r.descriptor.payee;
      payer = r.descriptor.payer;
      salt = some r.descriptor.salt;
      token = r.descriptor.token;
      close_requested_at = on_chain.close_requested_at;
      deposit = on_chain.deposit;
      settled_on_chain = on_chain.settled_on_chain;
      highest_voucher_amount = highest.highest_voucher_amount;
      highest_voucher = highest.highest_voucher;
      spent = keep_greater current.spent r.state.settled;
      retained_vouchers =
          if ltb current.highest_voucher_amount highest.highest_voucher_amount
          then some (
              retain_vouchers current highest.highest_voucher_amount
                (some on_chain.settled_on_chain))
          else current.retained_vouchers;
    }

-- `max(verified_at, current.on_chain_verified_at or 0)`
abbrev verified : ChannelState → Option ℕ → Option ℕ
verified current none = current.on_chain_verified_at
verified current (some verified_at) =
    let seen = or_else current.on_chain_verified_at 0 in
    some (if ltb verified_at seen then seen else verified_at)

unfoldable pub accept_voucher_state_update :
    OnChainChannelState
    → Option ChannelState
    → SignedVoucher
    → Option ℕ
    → Result SessionError ChannelState
unfolding merge_active_on_chain_state with_on_chain
accept_voucher_state_update channel_state none voucher verified_at = raise channel_not_found
accept_voucher_state_update channel_state (some current) voucher verified_at = do
  raise_if current.finalized channel_closed
  raise_if (not (current.close_requested_at == 0)) channel_closed
  let on_chain = merge_active_on_chain_state (some current) channel_state
  let merged = record (with_on_chain current on_chain) {
    on_chain_verified_at = verified current verified_at;
  }
  ok (
      if leb voucher.cumulative_amount current.highest_voucher_amount
      then merged
      else record merged {
        highest_voucher_amount = voucher.cumulative_amount;
        highest_voucher = some voucher;
        retained_vouchers =
            some
              (retain_vouchers current voucher.cumulative_amount (some on_chain.settled_on_chain));
      })
