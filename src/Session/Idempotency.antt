-- ===== src/Session/Idempotency.antt =====
-- Retries of keyed charges and credits: the first outcome of a key stands while its marker lives,
-- whatever else happens to the channel in between.
use pympp.Prelude.{
  ℕ, ◌<◌, ◌≡◌, String, true, false, Option, none, some, [], ◌∷◌, arith, ◌==◌, if◌then◌else◌,
  or_else, eq_iff, Option-cases, inl, inr, ◌⊎◌, ◌&&◌,
}
use pympp.Prelude.Dict.{Dict, lookup, insert, lookup-insert, lookup-insert_self}
use pympp.Session.State.{
  ChannelState, IdempotencyMarker, MarkerOutcome, charged, credited, declined, CreditDeclineReason,
}
use pympp.Session.Change.{set, noop}
use pympp.Session.Merge.{open_channel_state, top_up_channel_state, accept_voucher_state_update}
use pympp.Session.Close.{reconcile_expired_pending_close, finalize_closed_channel_state}
use pympp.Session.Charge.{
  KeyedResult, conflict, result, live_only, plan_deduction, plan_keyed_deduction, charge_key,
}
use pympp.Session.Credit
use pympp.Session.Credit.{
  CreditOutcome, CreditTerms, was_credited, was_declined, plan_credit, credit_key,
  credit_decline_reason, credit_marker,
}
use pympp.Session.Schedule.{claim_update, renew_update, release_update, complete_update}
use pympp.Session.Settlement.{choose_settlement, release_settlement, record_settlement}
use pympp.Session.Record.{
  record_pending_close, forget_verified, record_read, mark_close, clear_marker, finalize_supervised,
  pin_supervision, merge_closing, reserve_close, unreserve_close,
}
use pympp.Session.Step.{
  Step, opens, tops_up, accepts, charges, charges_keyed, credits, reconciles, marks_close,
  clears_marker, finalizes, claims, renews, releases_lease, completes, chooses, releases, records,
  records_close, forgets, records_read, finalizes_supervised, pins, merges_closing, reserves_close,
  unreserves_close,
}

abbrev pub Recorded : String → IdempotencyMarker → ChannelState → Type 0
Recorded k m c = lookup k (or_else c.idempotency_markers []) ≡ some m

-- The updates that read the clock to drop markers do so before a time.
abbrev pub Before : {c c' : ChannelState} → ℕ → Step c c' → Type 0
Before n (charges_keyed amount key expires_at now r e) = now < n
Before n (credits t r e) = t.now < n
Before n _ = Unit

-- A history of updates before a time.
pub data ReachBefore (n : ℕ) (c : ChannelState) : ChannelState → Type 0 where
  here : ReachBefore n c c
  next : {d e : ChannelState} → ReachBefore n c d → (s : Step d e) → Before n s → ReachBefore n c e

lookup-live_only :
    (k : String) (m : IdempotencyMarker) (now : ℕ) (d : Dict IdempotencyMarker)
    → now < m.expires_at
    → lookup k d ≡ some m
    → lookup k (live_only now d) ≡ some m
unfolding lookup live_only
lookup-live_only k m now [] h e = cc
lookup-live_only k m now ((j, w) ∷ d) h e = ground (arith, eq_iff j k, lookup-live_only k m now d h)

lookup-insert_absent :
    (k j : String) (m w : IdempotencyMarker) (d : Dict IdempotencyMarker)
    → lookup k d ≡ some m
    → lookup j d ≡ none
    → lookup k (insert j w d) ≡ some m
lookup-insert_absent k j m w d h h' = ground (arith, lookup-insert j k w d, eq_iff j k)

charges_keyed-Recorded :
    (k : String) (m : IdempotencyMarker) (c c' : ChannelState) (amount : ℕ) (key : String)
    (expires_at now : ℕ) (r : Option KeyedResult)
    → plan_keyed_deduction (some c) amount key expires_at now ≡ set r c'
    → now < m.expires_at
    → Recorded k m c
    → Recorded k m c'
unfolding plan_keyed_deduction plan_deduction
charges_keyed-Recorded k m c c' amount key expires_at now r e b h =
    let d = or_else c.idempotency_markers [] in
    let live = live_only now d in
    let w : IdempotencyMarker = record {
      amount = amount;
      expires_at = expires_at;
      outcome = charged;
      units = none;
    } in
    ground (arith, lookup-live_only k m now d b h, lookup-insert_absent k (charge_key key) m w live)

credits-Recorded :
    (k : String) (m : IdempotencyMarker) (c c' : ChannelState) (t : CreditTerms)
    (r : Option CreditOutcome)
    → plan_credit (some c) t ≡ set r c'
    → t.now < m.expires_at
    → Recorded k m c
    → Recorded k m c'
unfolding plan_credit
credits-Recorded k m c c' t r e b h =
    let d = or_else c.idempotency_markers [] in
    let live = live_only t.now d in
    let j = credit_key t.idempotency_key in
    let reason = credit_decline_reason c t.amount t.now in
    let kept = lookup-live_only k m t.now d b h in
    let insert_kept = λ (w : IdempotencyMarker). lookup-insert_absent k j m w live kept in
    elim (Option-cases reason) [
      | inl n ↦ ground (arith, n, insert_kept (credit_marker t credited))
      | inr (why, n) ↦ ground (arith, n, insert_kept (credit_marker t (declined why)))
    ]

Step-Recorded :
    (k : String) (m : IdempotencyMarker) {c c' : ChannelState} (s : Step c c')
    → Before m.expires_at s
    → Recorded k m c
    → Recorded k m c'
unfolding open_channel_state top_up_channel_state accept_voucher_state_update plan_deduction
    reconcile_expired_pending_close mark_close clear_marker finalize_closed_channel_state
    claim_update renew_update release_update complete_update choose_settlement release_settlement
    record_settlement record_pending_close forget_verified record_read finalize_supervised
    pin_supervision merge_closing reserve_close unreserve_close
Step-Recorded k m (opens r e) b h = ground arith
Step-Recorded k m (tops_up s e) b h = ground arith
Step-Recorded k m (accepts s v at e) b h = ground arith
Step-Recorded k m (charges amount r e) b h = ground arith
Step-Recorded k m {c} {c'} (charges_keyed amount key expires_at now r e) b h =
    charges_keyed-Recorded k m c c' amount key expires_at now r e b h
Step-Recorded k m {c} {c'} (credits t r e) b h = credits-Recorded k m c c' t r e b h
Step-Recorded k m (reconciles now s e) b h = ground arith
Step-Recorded k m (marks_close now cumulative capture s e) b h = ground arith
Step-Recorded k m (clears_marker at e) b h = ground arith
Step-Recorded k m (finalizes capture cumulative id signature e) b h = ground arith
Step-Recorded k m (claims parse schedule lease_ms now due_at owner claimed e) b h = ground arith
Step-Recorded k m (renews owner lease_ms now e) b h = ground arith
Step-Recorded k m (releases_lease owner e) b h = ground arith
Step-Recorded k m (completes owner at e) b h = ground arith
Step-Recorded k m (chooses now expires_at v e) b h = ground arith
Step-Recorded k m (releases amount expires_at e) b h = ground arith
Step-Recorded k m (records amount new_settled units at e) b h = ground arith
Step-Recorded k m (records_close s e) b h = ground arith
Step-Recorded k m (forgets e) b h = ground arith
Step-Recorded k m (records_read s started_at e) b h = ground arith
Step-Recorded k m (finalizes_supervised paid e) b h = ground arith
Step-Recorded k m (pins block e) b h = ground arith
Step-Recorded k m (merges_closing s e) b h = ground arith
Step-Recorded k m (reserves_close now before spent reserved e) b h = ground arith
Step-Recorded k m (unreserves_close before e) b h = ground arith

ReachBefore-Recorded :
    (k : String) (m : IdempotencyMarker) {c c' : ChannelState}
    → ReachBefore m.expires_at c c'
    → Recorded k m c
    → Recorded k m c'
ReachBefore-Recorded k m here h = h
ReachBefore-Recorded k m (next r s b) h = Step-Recorded k m s b (ReachBefore-Recorded k m r h)

-- A keyed charge that is made leaves its marker.
charge-Recorded :
    (c c' : ChannelState) (amount : ℕ) (key : String) (expires_at now : ℕ) (r : Option KeyedResult)
    → plan_keyed_deduction (some c) amount key expires_at now ≡ set r c'
    → Recorded
        (charge_key key)
        (record { amount = amount; expires_at = expires_at; outcome = charged; units = none })
        c'
unfolding plan_keyed_deduction plan_deduction
charge-Recorded c c' amount key expires_at now r e =
    let w : IdempotencyMarker = record {
      amount = amount;
      expires_at = expires_at;
      outcome = charged;
      units = none;
    } in
    let live = live_only now (or_else c.idempotency_markers []) in
    ground (arith, lookup-insert_self (charge_key key) w live)

-- Once a keyed charge is made, and after any updates before its marker expires, a retry under the
-- key before then leaves the channel as it is: with the same amount it is answered as a replayed
-- charge, and with another amount as a conflict.
pub charge_at_most_once :
    (c c₁ c₂ : ChannelState) (amount : ℕ) (key : String) (expires_at now : ℕ)
    (r : Option KeyedResult)
    → plan_keyed_deduction (some c) amount key expires_at now ≡ set r c₁
    → ReachBefore expires_at c₁ c₂
    → (retry_amount retry_expires retry_now : ℕ) → retry_now < expires_at
    → plan_keyed_deduction (some c₂) retry_amount key retry_expires retry_now
      ≡ noop (
          some (
            if amount == retry_amount
            then result (record { ok = true; channel = c₂; replayed = true })
            else conflict))
unfolding plan_keyed_deduction
charge_at_most_once c c₁ c₂ amount key expires_at now r e h retry_amount retry_expires retry_now b =
    let m : IdempotencyMarker = record {
      amount = amount;
      expires_at = expires_at;
      outcome = charged;
      units = none;
    } in
    let recorded =
      ReachBefore-Recorded (charge_key key) m h
        (charge-Recorded c c₁ amount key expires_at now r e) in
    let live =
      lookup-live_only (charge_key key) m retry_now (or_else c₂.idempotency_markers []) b
        recorded in
    ground (arith, live)

-- The answer to a retry of a credit that was answered by an outcome.
abbrev pub replayed_as : ChannelState → CreditOutcome → CreditOutcome
replayed_as c Credit.conflict = Credit.conflict
replayed_as c Credit.capacity = Credit.capacity
replayed_as c (was_credited d replayed) = was_credited c true
replayed_as c (was_declined d replayed reason) = was_declined c true reason

abbrev outcome_of : CreditOutcome → MarkerOutcome
outcome_of Credit.conflict = credited
outcome_of Credit.capacity = credited
outcome_of (was_credited d replayed) = credited
outcome_of (was_declined d replayed reason) = declined reason

credit-Recorded :
    (c c' : ChannelState) (t : CreditTerms) (out : CreditOutcome)
    → plan_credit (some c) t ≡ set (some out) c'
    → Recorded (credit_key t.idempotency_key) (credit_marker t (outcome_of out)) c'
unfolding plan_credit
credit-Recorded c c' t out e =
    let live = live_only t.now (or_else c.idempotency_markers []) in
    let j = credit_key t.idempotency_key in
    elim (Option-cases (credit_decline_reason c t.amount t.now)) [
      | inl n ↦ ground (arith, n, lookup-insert_self j (credit_marker t credited) live)
      | inr (why, n) ↦ ground (arith, n, lookup-insert_self j (credit_marker t (declined why)) live)
    ]

-- A new key is answered by a credit or by a reason to decline it, not by an error.
credit_answered :
    (c c' : ChannelState) (t : CreditTerms) (out : CreditOutcome)
    → plan_credit (some c) t ≡ set (some out) c'
    → (out ≡ was_credited c' false)
      ⊎ ((why : CreditDeclineReason) × (out ≡ was_declined c' false why))
unfolding plan_credit
credit_answered c c' t out e = elim (Option-cases (credit_decline_reason c t.amount t.now)) [
  | inl n ↦ inl (ground (arith, n))
  | inr (why, n) ↦ inr (why, ground (arith, n))
]

-- The first outcome of a keyed credit, credited or declined, is final: after any updates before its
-- marker expires, a retry under the key before then leaves the channel as it is. With the same amount
-- and units it is answered by that outcome, replayed, and with other terms as a conflict.
pub credit_at_most_once :
    (c c₁ c₂ : ChannelState) (t u : CreditTerms) (out : CreditOutcome)
    → plan_credit (some c) t ≡ set (some out) c₁
    → ReachBefore t.expires_at c₁ c₂
    → u.idempotency_key ≡ t.idempotency_key
    → u.now < t.expires_at
    → plan_credit (some c₂) u
      ≡ noop (
          some (
            if t.amount == u.amount && t.units == u.units
            then replayed_as c₂ out
            else Credit.conflict))
unfolding plan_credit
credit_at_most_once c c₁ c₂ t u out e h same b =
    let m = credit_marker t (outcome_of out) in
    let k = credit_key t.idempotency_key in
    let recorded = ReachBefore-Recorded k m h (credit-Recorded c c₁ t out e) in
    let live = lookup-live_only k m u.now (or_else c₂.idempotency_markers []) b recorded in
    ground (arith, live, credit_answered c c₁ t out e)
