-- ===== src/Session/Invariant.antt =====
-- The invariant of a stored channel, and that every update keeps it.
use pympp.Prelude.{
  ℕ, ◌≤◌, ◌<◌, ◌≡◌, refl, Option, none, some, List, [], ◌∷◌, arith, ltb, or_else, All, length,
  select, length-select-le, String, Bool-cases, inl, inr,
}
use pympp.Prelude.Result.{ok}
use pympp.Session.State.{SignedVoucher, RetainedVoucher, ChannelState, OnChainChannelState}
use pympp.Session.Vouchers.{accepted_vouchers, retain_vouchers, max_retained_vouchers}
use pympp.Session.Vouchers.Retained.{Ascending, Ascending-mono, retain_vouchers_keeps}
use pympp.Session.Merge.{
  keep_greater, OpenRequest, merge_active_on_chain_state, open_channel_state, top_up_channel_state,
  accept_voucher_state_update,
}
use pympp.Session.Close.{reconcile_expired_pending_close, finalize_closed_channel_state}
use pympp.Session.Charge.{plan_deduction, plan_keyed_deduction}
use pympp.Session.Credit.{plan_credit}
use pympp.Session.Schedule.{claim_update, renew_update, release_update, complete_update}
use pympp.Session.Settlement.{
  choose_settlement, release_settlement, record_settlement, retained_above,
}
use pympp.Session.Record.{
  record_pending_close, forget_verified, record_read, mark_close, clear_marker, finalize_supervised,
  pin_supervision, merge_closing, reserve_close, unreserve_close,
}
use pympp.Session.Step.{
  Step, opens, tops_up, accepts, charges, charges_keyed, credits, reconciles, marks_close,
  clears_marker, finalizes, claims, renews, releases_lease, completes, chooses, releases, records,
  records_close, forgets, records_read, finalizes_supervised, pins, merges_closing, reserves_close,
  unreserves_close, Reach, here, next,
}

-- The stored highest voucher is worth the stored highest amount.
abbrev pub HighestMatches : Option SignedVoucher → ℕ → Type 0
HighestMatches none n = Unit
HighestMatches (some v) n = v.cumulative_amount ≡ n

abbrev pub Kept : List RetainedVoucher → ℕ → Type 0
Kept vs highest =
    (length vs ≤ max_retained_vouchers)
    × Ascending 0 vs
    × All (λ v. v.cumulative_amount < highest) vs

-- The retained vouchers are at most 16, ascending, and below the highest amount.
pub record IsWellFormed (c : ChannelState) : Type 0 where
  pub highest : HighestMatches c.highest_voucher c.highest_voucher_amount
  pub retained : Kept (or_else c.retained_vouchers []) c.highest_voucher_amount

All-lt :
    (vs : List RetainedVoucher) (m n : ℕ)
    → m ≤ n
    → All (λ v. v.cumulative_amount < m) vs
    → All (λ v. v.cumulative_amount < n) vs
All-lt [] m n h a = tt
All-lt (v ∷ vs) m n h a = (omega arith, All-lt vs m n h a.1)

Kept-mono : (vs : List RetainedVoucher) (m n : ℕ) → m ≤ n → Kept vs m → Kept vs n
Kept-mono vs m n h k = (k.0, k.1, All-lt vs m n h k.2)

All-true : (vs : List RetainedVoucher) → All (λ v. Unit {0}) vs
All-true [] = tt
All-true (v ∷ vs) = (tt, All-true vs)

All-upper :
    (settled highest : ℕ) (vs : List RetainedVoucher)
    → All (λ v. (settled < v.cumulative_amount) × (v.cumulative_amount < highest) × Unit {0}) vs
    → All (λ v. v.cumulative_amount < highest) vs
All-upper settled highest [] a = tt
All-upper settled highest (v ∷ vs) a = (a.0.1, All-upper settled highest vs a.1)

retain_vouchers-Kept :
    (c : ChannelState) (highest settled : ℕ)
    → Kept (retain_vouchers c highest (some settled)) highest
retain_vouchers-Kept c highest settled =
    let k =
      retain_vouchers_keeps (λ v. Unit {0}) c highest settled (All-true (accepted_vouchers c)) in
    (omega arith, k.2, All-upper settled highest _ k.3)

open-IsWellFormed_new : (r : OpenRequest) → IsWellFormed (open_channel_state none r)
unfolding open_channel_state
open-IsWellFormed_new r = record { highest = refl; retained = (omega arith, tt, tt) }

open-IsWellFormed :
    (c : ChannelState) (r : OpenRequest)
    → IsWellFormed c
    → IsWellFormed (open_channel_state (some c) r)
unfolding open_channel_state
open-IsWellFormed c r w =
    let on_chain = merge_active_on_chain_state (some c) r.state in
    let kept = retain_vouchers-Kept c r.cumulative_amount on_chain.settled_on_chain in
    elim (Bool-cases (ltb r.cumulative_amount c.highest_voucher_amount)) [
      | inl e ↦ rw e (record { highest = w.highest; retained = ground arith })
      | inr e ↦ rw e (elim (Bool-cases (ltb c.highest_voucher_amount r.cumulative_amount)) [
        | inl l ↦ rw l (record { highest = refl; retained = kept })
        | inr l ↦ rw l (record {
          highest = refl;
          retained = Kept-mono _ c.highest_voucher_amount _ (ground arith) w.retained;
        })
      ])
    ]

top_up-IsWellFormed :
    (c c' : ChannelState) (s : OnChainChannelState)
    → top_up_channel_state (some c) s ≡ some c'
    → IsWellFormed c
    → IsWellFormed c'
unfolding top_up_channel_state
top_up-IsWellFormed c c' s e w = ground arith

accept-IsWellFormed :
    (c c' : ChannelState) (s : OnChainChannelState) (v : SignedVoucher) (at : Option ℕ)
    → accept_voucher_state_update s (some c) v at ≡ ok c'
    → IsWellFormed c
    → IsWellFormed c'
unfolding accept_voucher_state_update
accept-IsWellFormed c c' s v at e w =
    let on_chain = merge_active_on_chain_state (some c) s in
    ground (arith, retain_vouchers-Kept c v.cumulative_amount on_chain.settled_on_chain)

reconcile-IsWellFormed :
    (c c' : ChannelState) (now : ℕ) (s : OnChainChannelState)
    → reconcile_expired_pending_close (some c) now s ≡ some c'
    → IsWellFormed c
    → IsWellFormed c'
unfolding reconcile_expired_pending_close
reconcile-IsWellFormed c c' now s e w = ground arith

finalize-IsWellFormed :
    (c c' : ChannelState) (captured amount : ℕ) (id signature : String)
    → finalize_closed_channel_state captured id amount (some c) signature ≡ some c'
    → IsWellFormed c
    → IsWellFormed c'
unfolding finalize_closed_channel_state
finalize-IsWellFormed c c' captured amount id signature e w =
    ground (arith, Kept-mono (or_else c.retained_vouchers []) c.highest_voucher_amount amount)

select-Ascending :
    (settled lo : ℕ) (vs : List RetainedVoucher)
    → Ascending lo vs
    → Ascending lo (select (λ v. ltb settled v.cumulative_amount) vs)
select-Ascending settled lo [] a = tt
select-Ascending settled lo (v ∷ vs) a =
    let ih = select-Ascending settled v.cumulative_amount vs a.1 in
    elim (Bool-cases (ltb settled v.cumulative_amount)) [
      | inl e ↦ rw e (a.0, ih)
      | inr e ↦ rw e (Ascending-mono _ a.0 ih)
    ]

select-All-lt :
    (settled n : ℕ) (vs : List RetainedVoucher)
    → All (λ v. v.cumulative_amount < n) vs
    → All (λ v. v.cumulative_amount < n) (select (λ v. ltb settled v.cumulative_amount) vs)
select-All-lt settled n [] a = tt
select-All-lt settled n (v ∷ vs) a =
    let ih = select-All-lt settled n vs a.1 in
    elim (Bool-cases (ltb settled v.cumulative_amount)) [ inl e ↦ rw e (a.0, ih) | inr e ↦ rw e ih ]

retained_above-Kept :
    (settled n : ℕ) (o : Option (List RetainedVoucher))
    → Kept (or_else o []) n
    → Kept (or_else (retained_above settled o) []) n
unfolding retained_above
retained_above-Kept settled n none k = k
retained_above-Kept settled n (some vs) k = (
  omega (arith, length-select-le (λ (v : RetainedVoucher). ltb settled v.cumulative_amount) vs),
  select-Ascending settled 0 vs k.1,
  select-All-lt settled n vs k.2,
)

records-IsWellFormed :
    (c c' : ChannelState) (amount new_settled units : ℕ) (at : String)
    → record_settlement amount new_settled units at (some c) ≡ some c'
    → IsWellFormed c
    → IsWellFormed c'
unfolding record_settlement
records-IsWellFormed c c' amount new_settled units at e w =
    let kept =
      retained_above-Kept (keep_greater c.settled_on_chain new_settled) c.highest_voucher_amount
        c.retained_vouchers w.retained in
    ground arith

Step-IsWellFormed : {c c' : ChannelState} → Step c c' → IsWellFormed c → IsWellFormed c'
unfolding plan_deduction plan_keyed_deduction plan_credit mark_close clear_marker claim_update
    renew_update release_update complete_update choose_settlement release_settlement
    record_pending_close forget_verified record_read finalize_supervised pin_supervision
    merge_closing reserve_close unreserve_close
Step-IsWellFormed {c} (opens r e) w = rw (← e) (open-IsWellFormed c r w)
Step-IsWellFormed {c} {c'} (tops_up s e) w = top_up-IsWellFormed c c' s e w
Step-IsWellFormed {c} {c'} (accepts s v at e) w = accept-IsWellFormed c c' s v at e w
Step-IsWellFormed (charges amount r e) w = ground arith
Step-IsWellFormed (charges_keyed amount key expires_at now r e) w = ground arith
Step-IsWellFormed (credits t r e) w = ground arith
Step-IsWellFormed {c} {c'} (reconciles now s e) w = reconcile-IsWellFormed c c' now s e w
Step-IsWellFormed (marks_close now cumulative capture s e) w = ground arith
Step-IsWellFormed (clears_marker at e) w = ground arith
Step-IsWellFormed {c} {c'} (finalizes capture cumulative id signature e) w =
    finalize-IsWellFormed c c' capture cumulative id signature e w
Step-IsWellFormed (claims parse schedule lease_ms now due_at owner claimed e) w = ground arith
Step-IsWellFormed (renews owner lease_ms now e) w = ground arith
Step-IsWellFormed (releases_lease owner e) w = ground arith
Step-IsWellFormed (completes owner at e) w = ground arith
Step-IsWellFormed (chooses now expires_at v e) w = ground arith
Step-IsWellFormed (releases amount expires_at e) w = ground arith
Step-IsWellFormed {c} {c'} (records amount new_settled units at e) w =
    records-IsWellFormed c c' amount new_settled units at e w
Step-IsWellFormed (records_close s e) w = ground arith
Step-IsWellFormed (forgets e) w = ground arith
Step-IsWellFormed (records_read s started_at e) w = ground arith
Step-IsWellFormed (finalizes_supervised paid e) w = ground arith
Step-IsWellFormed (pins block e) w = ground arith
Step-IsWellFormed (merges_closing s e) w = ground arith
Step-IsWellFormed (reserves_close now before spent reserved e) w = ground arith
Step-IsWellFormed (unreserves_close before e) w = ground arith

-- After a channel is opened and then updated in any way, its highest voucher is worth the highest
-- amount, and its retained vouchers are at most 16, ascending, and below that amount.
pub opened-IsWellFormed :
    (r : OpenRequest) {c : ChannelState} → Reach (open_channel_state none r) c → IsWellFormed c
opened-IsWellFormed r here = open-IsWellFormed_new r
opened-IsWellFormed r (next h s) = Step-IsWellFormed s (opened-IsWellFormed r h)
