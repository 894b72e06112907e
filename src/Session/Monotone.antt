-- ===== src/Session/Monotone.antt =====
-- What no update of a channel takes back.
use native.Mathlib.Nat.{le_refl, le_trans}
use pympp.Prelude.{◌≤◌, ◌≡◌, refl, ◌⊎◌, inl, inr, Bool, true, false, arith}
use pympp.Session.State.{ChannelState}
use pympp.Session.Merge.{open_channel_state, top_up_channel_state, accept_voucher_state_update}
use pympp.Session.Close.{reconcile_expired_pending_close, finalize_closed_channel_state}
use pympp.Session.Charge.{plan_deduction, plan_keyed_deduction}
use pympp.Session.Credit.{plan_credit}
use pympp.Session.Schedule.{claim_update, renew_update, release_update, complete_update}
use pympp.Session.Settlement.{choose_settlement, release_settlement, record_settlement}
use pympp.Session.Record.{
  record_pending_close, forget_verified, record_read, mark_close, clear_marker, finalize_supervised,
  pin_supervision, merge_closing, reserve_close, unreserve_close,
}
use pympp.Session.Step.{
  Step, opens, tops_up, accepts, charges, charges_keyed, credits, reconciles, marks_close,
  clears_marker, finalizes, claims, renews, releases_lease, completes, chooses, releases, records,
  records_close, forgets, records_read, finalizes_supervised, pins, merges_closing, reserves_close,
  unreserves_close, Reach, here, next,
}

pub record Monotone (c c' : ChannelState) : Type 0 where
  pub highest : c.highest_voucher_amount ≤ c'.highest_voucher_amount
  pub settled : c.settled_on_chain ≤ c'.settled_on_chain
  pub finalized : (c.finalized ≡ false) ⊎ (c'.finalized ≡ true)

Step-Monotone : {c c' : ChannelState} → Step c c' → Monotone c c'
unfolding open_channel_state top_up_channel_state accept_voucher_state_update plan_deduction
    plan_keyed_deduction plan_credit reconcile_expired_pending_close mark_close clear_marker
    finalize_closed_channel_state claim_update renew_update release_update complete_update
    choose_settlement release_settlement record_settlement record_pending_close forget_verified
    record_read finalize_supervised pin_supervision merge_closing reserve_close unreserve_close
Step-Monotone (opens r e) = ground arith
Step-Monotone (tops_up s e) = ground arith
Step-Monotone (accepts s v at e) = ground arith
Step-Monotone (charges amount r e) = ground arith
Step-Monotone (charges_keyed amount key expires_at now r e) = ground arith
Step-Monotone (credits t r e) = ground arith
Step-Monotone (reconciles now s e) = ground arith
Step-Monotone (marks_close now cumulative capture s e) = ground arith
Step-Monotone (clears_marker at e) = ground arith
Step-Monotone (finalizes capture cumulative id signature e) = ground arith
Step-Monotone (claims parse schedule lease_ms now due_at owner claimed e) = ground arith
Step-Monotone (renews owner lease_ms now e) = ground arith
Step-Monotone (releases_lease owner e) = ground arith
Step-Monotone (completes owner at e) = ground arith
Step-Monotone (chooses now expires_at v e) = ground arith
Step-Monotone (releases amount expires_at e) = ground arith
Step-Monotone (records amount new_settled units at e) = ground arith
Step-Monotone (records_close s e) = ground arith
Step-Monotone (forgets e) = ground arith
Step-Monotone (records_read s started_at e) = ground arith
Step-Monotone (finalizes_supervised paid e) = ground arith
Step-Monotone (pins block e) = ground arith
Step-Monotone (merges_closing s e) = ground arith
Step-Monotone (reserves_close now before spent reserved e) = ground arith
Step-Monotone (unreserves_close before e) = ground arith

open_or_final : (b : Bool) → (b ≡ false) ⊎ (b ≡ true)
open_or_final true = inr refl
open_or_final false = inl refl

-- Along any history of updates, the highest voucher amount and the settled amount never fall, and a
-- finalized channel stays finalized.
pub Reach-Monotone : {c c' : ChannelState} → Reach c c' → Monotone c c'
Reach-Monotone {c} here = record {
  highest = le_refl _;
  settled = le_refl _;
  finalized = open_or_final c.finalized;
}
Reach-Monotone (next r s) =
    let before = Reach-Monotone r in
    let after = Step-Monotone s in
    record {
      highest = le_trans before.highest after.highest;
      settled = le_trans before.settled after.settled;
      finalized = ground arith;
    }
