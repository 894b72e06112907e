-- ===== src/Session/Close.antt =====
-- _store.py: what a close captures, the pending-close marker, and the closed state; and `uint96`
-- of _protocol.py.
use Prim.Native.Nat.{◌^◌}
use pympp.Prelude.{
  ℕ, ◌+◌, ◌-◌, String, true, not, ◌||◌, Option, none, some, leb, ltb, ◌==◌, if◌then◌else◌, or_else,
}
use pympp.Prelude.Result.{Result, ok, raise, raise_if, ◌>>=◌, ◌>>◌}
use pympp.Session.State.{
  ChannelState, OnChainChannelState, SessionError, channel_closed, amount_exceeds_deposit,
  verification_failed, value_error,
}
use pympp.Session.Merge.{keep_greater, resolve_highest_voucher}

abbrev pub uint96_max : ℕ
uint96_max = 2 ^ 96 - 1

unfoldable pub uint96 : ℕ → Result SessionError ℕ
uint96 value = if leb value uint96_max then ok value else raise value_error

-- The arguments are in the order of the source: voucher, deposit, settled, spent.
unfoldable pub resolve_close_capture_amount : ℕ → ℕ → ℕ → ℕ → Result SessionError ℕ
unfolding uint96
resolve_close_capture_amount cumulative_amount on_chain_deposit on_chain_settled spent = do
  raise_if (ltb cumulative_amount spent) verification_failed
  capture_amount ← uint96 (if ltb on_chain_settled spent then spent else on_chain_settled)
  raise_if (ltb cumulative_amount capture_amount) verification_failed
  raise_if (ltb on_chain_deposit capture_amount) amount_exceeds_deposit
  ok capture_amount

abbrev pub pending_close_validity_seconds : ℕ
pending_close_validity_seconds = 25

abbrev pub pending_close_clock_skew_seconds : ℕ
pending_close_clock_skew_seconds = 30

-- `max(close_requested_at + validity, pending_close_valid_before or 0)`
unfoldable pub close_expires_at : ChannelState → ℕ
close_expires_at current =
    let marked = current.close_requested_at + pending_close_validity_seconds in
    let signed = or_else current.pending_close_valid_before 0 in
    if ltb marked signed then signed else marked

unfoldable pub reconcile_expired_pending_close :
    Option ChannelState → ℕ → OnChainChannelState → Option ChannelState
unfolding close_expires_at
reconcile_expired_pending_close none now state = none
reconcile_expired_pending_close (some current) now state =
    if current.finalized || current.close_requested_at == 0
    then some current
    else if not (state.close_requested_at == 0) || state.deposit == 0
    then some current
    else if leb now (close_expires_at current + pending_close_clock_skew_seconds)
    then some current
    else some (record current { close_requested_at = 0; pending_close_valid_before = none })

pub record PendingCloseUpdate : Type 0 where
  pub capture_amount : ℕ
  pub state : Option ChannelState

-- The arguments are in the order of the source: marker, voucher, state, deposit, settled.
unfoldable pub mark_pending_close :
    ℕ → ℕ → Option ChannelState → ℕ → ℕ → Result SessionError PendingCloseUpdate
mark_pending_close close_requested_at cumulative_amount none on_chain_deposit on_chain_settled =
    ok (record { capture_amount = 0; state = none })
mark_pending_close close_requested_at cumulative_amount (some current) deposit settled = do
  raise_if current.finalized channel_closed
  raise_if (not (current.close_requested_at == 0)) channel_closed
  capture_amount ← resolve_close_capture_amount cumulative_amount deposit settled current.spent
  ok (record {
    capture_amount = capture_amount;
    state = some (record current { close_requested_at = close_requested_at });
  })

-- The arguments are in the order of the source: captured, channel, voucher, state, signature.
unfoldable pub finalize_closed_channel_state :
    ℕ → String → ℕ → Option ChannelState → String → Option ChannelState
unfolding keep_greater resolve_highest_voucher
finalize_closed_channel_state capture_amount channel_id cumulative_amount none signature = none
finalize_closed_channel_state capture_amount channel_id cumulative_amount (some current) signature =
    let highest = resolve_highest_voucher channel_id (some current) cumulative_amount signature in
    some (record current {
      finalized = true;
      close_requested_at = 0;
      deposit = 0;
      settled_on_chain = keep_greater current.settled_on_chain capture_amount;
      highest_voucher_amount = highest.highest_voucher_amount;
      highest_voucher = highest.highest_voucher;
    })
