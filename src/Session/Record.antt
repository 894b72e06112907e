-- ===== src/Session/Record.antt =====
-- The other store updates of channels: those of _verification.py after chain reads and around a
-- close, and those of _close_supervisor.py.
use Prim.Native.Nat.{max}
use pympp.Prelude.{
  ℕ, ◌+◌, Bool, true, false, not, ◌||◌, Option, none, some, leb, ◌==◌, if◌then◌else◌, or_else,
  is_some,
}
use pympp.Prelude.Result.{Result}
use pympp.Session.State.{ChannelState, OnChainChannelState, SessionError}
use pympp.Session.Merge.{keep_greater, merge_active_on_chain_state, with_on_chain}
use pympp.Session.Close.{
  PendingCloseUpdate, mark_pending_close, reconcile_expired_pending_close,
  pending_close_clock_skew_seconds,
}

-- `update` of `_record_pending_close`
unfoldable pub record_pending_close :
    OnChainChannelState → Option ChannelState → Option ChannelState
unfolding keep_greater
record_pending_close state none = none
record_pending_close state (some current) = some (record current {
  settled_on_chain = keep_greater current.settled_on_chain state.settled;
  close_requested_at = keep_greater current.close_requested_at state.close_requested_at;
})

-- `forget` of `_record_on_chain_read_in_background`
unfoldable pub forget_verified : Option ChannelState → Option ChannelState
forget_verified none = none
forget_verified (some current) = some (
    if not (is_some current.on_chain_verified_at)
    then current
    else record current { on_chain_verified_at = none })

-- `update` of `_record_on_chain_read_in_background`
unfoldable pub record_read : OnChainChannelState → ℕ → Option ChannelState → Option ChannelState
unfolding merge_active_on_chain_state with_on_chain
record_read state started_at none = none
record_read state started_at (some current) = some (
    if current.finalized || not (current.close_requested_at == 0)
    then current
    else record (with_on_chain current (merge_active_on_chain_state (some current) state)) {
      on_chain_verified_at = some (max started_at (or_else current.on_chain_verified_at 0));
    })

-- `mark` of `_handle_close`
unfoldable pub mark_close :
    ℕ → ℕ → OnChainChannelState → Option ChannelState → Result SessionError PendingCloseUpdate
unfolding mark_pending_close reconcile_expired_pending_close
mark_close now cumulative state current =
    mark_pending_close now cumulative (reconcile_expired_pending_close current now state)
      state.deposit state.settled

-- `clear` of `_handle_close`, after a close that failed for good
unfoldable pub clear_marker : ℕ → Option ChannelState → Option ChannelState
clear_marker started_at none = none
clear_marker started_at (some current) = some (
    if current.close_requested_at == started_at
    then record current { close_requested_at = 0 }
    else current)

-- `finalize` of `_supervise_channel`: the channel left the escrow, having paid `paid`
unfoldable pub finalize_supervised : ℕ → Option ChannelState → Option ChannelState
unfolding keep_greater
finalize_supervised paid none = none
finalize_supervised paid (some current) = some (
    if current.finalized then current else record current {
      close_requested_at = 0;
      pending_close_valid_before = none;
      deposit = 0;
      finalized = true;
      settled_on_chain = keep_greater current.settled_on_chain paid;
    })

-- the first supervision's `close_supervised_from_block`
unfoldable pub pin_supervision : ℕ → Option ChannelState → Option ChannelState
pin_supervision pinned none = none
pin_supervision pinned (some current) = some (
    if is_some current.close_supervised_from_block
    then current
    else record current { close_supervised_from_block = some pinned })

-- `merge` of `_supervise_channel`, for a channel that the payer is closing
unfoldable pub merge_closing : OnChainChannelState → Option ChannelState → Option ChannelState
unfolding merge_active_on_chain_state with_on_chain
merge_closing state none = none
merge_closing state (some current) = some (
    if current.finalized
    then current
    else with_on_chain current (merge_active_on_chain_state (some current) state))

-- A server close that may still land, by the expiry that it was signed with.
unfoldable pub close_in_flight : ChannelState → ℕ → Bool
close_in_flight current now = elim current.pending_close_valid_before [
  | none ↦ false
  | some before ↦ leb now (before + pending_close_clock_skew_seconds)
]

-- `reserve` of `_close_at_spend`, with the `reserved` that it sets
unfoldable pub reserve_close : ℕ → ℕ → ℕ → Option ChannelState → Option ChannelState × Bool
unfolding close_in_flight
reserve_close now valid_before spent none = (none, false)
reserve_close now valid_before spent (some current) =
    if current.finalized || current.close_requested_at == 0 || not (current.spent == spent)
    then (some current, false)
    else if close_in_flight current now
    then (some current, false)
    else (some (record current { pending_close_valid_before = some valid_before }), true)

-- the release of that reservation, after a close that was never sent
unfoldable pub unreserve_close : ℕ → Option ChannelState → Option ChannelState
unreserve_close valid_before none = none
unreserve_close valid_before (some current) = some (elim current.pending_close_valid_before [
  | none ↦ current
  | some before ↦
      if before == valid_before
      then record current { pending_close_valid_before = none }
      else current
])
