-- ===== src/Session/Step.antt =====
-- Every store update that the program makes to a channel, as a step relation, and histories of them.
use pympp.Prelude.{ℕ, ◌≡◌, String, Bool, Option, some}
use pympp.Prelude.Result.{ok}
use pympp.Session.State.{ChannelState, OnChainChannelState, SignedVoucher}
use pympp.Session.Merge.{
  OpenRequest, open_channel_state, top_up_channel_state, accept_voucher_state_update,
}
use pympp.Session.Close.{reconcile_expired_pending_close, finalize_closed_channel_state}
use pympp.Session.Change.{set}
use pympp.Session.Charge.{DeductResult, KeyedResult, plan_deduction, plan_keyed_deduction}
use pympp.Session.Credit.{CreditOutcome, CreditTerms, plan_credit}
use pympp.Session.Schedule.{
  ResolvedSettlementSchedule, claim_update, renew_update, release_update, complete_update,
}
use pympp.Session.Settlement.{choose_settlement, release_settlement, record_settlement}
use pympp.Session.Record.{
  record_pending_close, forget_verified, record_read, mark_close, clear_marker, finalize_supervised,
  pin_supervision, merge_closing, reserve_close, unreserve_close,
}

-- `Step c c'`: an update turns the stored state `c` into `c'`.
pub data Step (c c' : ChannelState) : Type 0 where
  opens : (r : OpenRequest) → open_channel_state (some c) r ≡ c' → Step c c'
  tops_up : (s : OnChainChannelState) → top_up_channel_state (some c) s ≡ some c' → Step c c'
  accepts :
      (s : OnChainChannelState) (v : SignedVoucher) (at : Option ℕ)
      → accept_voucher_state_update s (some c) v at ≡ ok c'
      → Step c c'
  charges :
      (amount : ℕ) (r : Option DeductResult) → plan_deduction (some c) amount ≡ set r c' → Step c c'
  charges_keyed :
      (amount : ℕ) (key : String) (expires_at now : ℕ) (r : Option KeyedResult)
      → plan_keyed_deduction (some c) amount key expires_at now ≡ set r c'
      → Step c c'
  credits :
      (t : CreditTerms) (r : Option CreditOutcome) → plan_credit (some c) t ≡ set r c' → Step c c'
  reconciles :
      (now : ℕ) (s : OnChainChannelState)
      → reconcile_expired_pending_close (some c) now s ≡ some c'
      → Step c c'
  marks_close :
      (now cumulative capture : ℕ) (s : OnChainChannelState)
      → mark_close now cumulative s (some c)
        ≡ ok (record { capture_amount = capture; state = some c' })
      → Step c c'
  clears_marker : (at : ℕ) → clear_marker at (some c) ≡ some c' → Step c c'
  finalizes :
      (capture cumulative : ℕ) (id signature : String)
      → finalize_closed_channel_state capture id cumulative (some c) signature ≡ some c'
      → Step c c'
  claims :
      (parse : String → Option ℕ) (schedule : ResolvedSettlementSchedule) (lease_ms now due_at : ℕ)
      (owner : String) (claimed : Bool)
      → claim_update parse schedule lease_ms now due_at owner (some c) ≡ (some c', claimed)
      → Step c c'
  renews :
      (owner : String) (lease_ms now : ℕ)
      → renew_update owner lease_ms now (some c) ≡ some c'
      → Step c c'
  releases_lease : (owner : String) → release_update owner (some c) ≡ some c' → Step c c'
  completes : (owner at : String) → complete_update owner at (some c) ≡ some c' → Step c c'
  chooses :
      (now expires_at : ℕ) (v : Option SignedVoucher)
      → choose_settlement now expires_at (some c) ≡ ok (some c', v)
      → Step c c'
  releases :
      (amount expires_at : ℕ) → release_settlement amount expires_at (some c) ≡ some c' → Step c c'
  records :
      (amount new_settled units : ℕ) (at : String)
      → record_settlement amount new_settled units at (some c) ≡ some c'
      → Step c c'
  records_close : (s : OnChainChannelState) → record_pending_close s (some c) ≡ some c' → Step c c'
  forgets : forget_verified (some c) ≡ some c' → Step c c'
  records_read :
      (s : OnChainChannelState) (started_at : ℕ)
      → record_read s started_at (some c) ≡ some c'
      → Step c c'
  finalizes_supervised : (paid : ℕ) → finalize_supervised paid (some c) ≡ some c' → Step c c'
  pins : (block : ℕ) → pin_supervision block (some c) ≡ some c' → Step c c'
  merges_closing : (s : OnChainChannelState) → merge_closing s (some c) ≡ some c' → Step c c'
  reserves_close :
      (now before spent : ℕ) (reserved : Bool)
      → reserve_close now before spent (some c) ≡ (some c', reserved)
      → Step c c'
  unreserves_close : (before : ℕ) → unreserve_close before (some c) ≡ some c' → Step c c'

-- A history of updates.
pub data Reach (c : ChannelState) : ChannelState → Type 0 where
  here : Reach c c
  next : {d e : ChannelState} → Reach c d → Step d e → Reach c e
