-- ===== src/Session/Capacity.antt =====
-- How many credit markers a channel holds: keyed charges do not crowd out credits.
use text.Mathlib.TextPositions.{starts_with-append, slice-append_left}
use pympp.Prelude.{
  ℕ, ◌+◌, ◌≤◌, ◌≡◌, String, true, false, none, List, [], ◌∷◌, arith, if◌then◌else◌, or_else,
  Option-cases, inl, inr, starts_with, eq_iff,
}
use pympp.Prelude.Dict.{Dict, insert}
use pympp.Session.State.{ChannelState, IdempotencyMarker, charged, credited, declined}
use pympp.Session.Charge.{live_only, charge_key}
use pympp.Session.Credit.{
  plan_credit, CreditTerms, credit_key, credit_markers, credit_marker, credit_decline_reason,
}
use pympp.Session.Ledger.{LedgerOp, charge, charge_keyed, credit, perform, run}

charge_key_no_credit : (k : String) → starts_with (charge_key k) "credit:" ≡ false
charge_key_no_credit k = rw (slice-append_left "charge:" k)

credit_key_credit : (k : String) → starts_with (credit_key k) "credit:" ≡ true
credit_key_credit k = starts_with-append "credit:" k

credit_markers-live_only :
    (now : ℕ) (d : Dict IdempotencyMarker) → credit_markers (live_only now d) ≤ credit_markers d
unfolding credit_markers live_only
credit_markers-live_only now [] = omega arith
credit_markers-live_only now ((k, m) ∷ d) = ground (arith, credit_markers-live_only now d)

credit_markers-insert :
    (k : String) (m : IdempotencyMarker) (d : Dict IdempotencyMarker)
    → credit_markers (insert k m d) ≤ credit_markers d + (if starts_with k "credit:" then 1 else 0)
unfolding credit_markers insert
credit_markers-insert k m [] = omega arith
credit_markers-insert k m ((j, w) ∷ d) = ground (arith, eq_iff j k, credit_markers-insert k m d)

abbrev pub markers_of : ChannelState → Dict IdempotencyMarker
markers_of c = or_else c.idempotency_markers []

perform_charge-capacity :
    (c : ChannelState) (amount limit : ℕ)
    → credit_markers (markers_of c) ≤ limit
    → credit_markers (markers_of (perform c (charge amount))) ≤ limit
unfolding perform
perform_charge-capacity c amount limit h = ground arith

perform_keyed-capacity :
    (c : ChannelState) (amount : ℕ) (key : String) (expires_at now limit : ℕ)
    → credit_markers (markers_of c) ≤ limit
    → credit_markers (markers_of (perform c (charge_keyed amount key expires_at now))) ≤ limit
unfolding perform
perform_keyed-capacity c amount key expires_at now limit h =
    let live = live_only now (markers_of c) in
    let w : IdempotencyMarker = record {
      amount = amount;
      expires_at = expires_at;
      outcome = charged;
      units = none;
    } in
    ground (
      arith,
      credit_markers-live_only now (markers_of c),
      credit_markers-insert (charge_key key) w live,
      charge_key_no_credit key,
    )

perform_credit-capacity :
    (c : ChannelState) (t : CreditTerms) (limit : ℕ)
    → t.max_markers ≤ limit
    → credit_markers (markers_of c) ≤ limit
    → credit_markers (markers_of (perform c (credit t))) ≤ limit
unfolding perform plan_credit
perform_credit-capacity c t limit b h =
    let live = live_only t.now (markers_of c) in
    let added =
      λ (w : IdempotencyMarker). credit_markers-insert (credit_key t.idempotency_key) w live in
    let is_credit = credit_key_credit t.idempotency_key in
    elim (Option-cases (credit_decline_reason c t.amount t.now)) [
      | inl n ↦ ground (arith, n, added (credit_marker t credited), is_credit)
      | inr (why, n) ↦ ground (arith, n, added (credit_marker t (declined why)), is_credit)
    ]

-- Every credit among the operations is asked with at most so many markers.
abbrev pub Limited : ℕ → List LedgerOp → Type 0
Limited limit [] = Unit
Limited limit (charge amount ∷ ops) = Limited limit ops
Limited limit (charge_keyed amount key expires_at now ∷ ops) = Limited limit ops
Limited limit (credit t ∷ ops) = (t.max_markers ≤ limit) × Limited limit ops

-- If every credit of a sequence of charges, keyed charges and credits is asked with `max_markers` at
-- most a limit, and the channel holds at most that many credit markers, then so it does at the end,
-- however many charges are keyed.
pub credit_markers_bounded :
    (c : ChannelState) (ops : List LedgerOp) (limit : ℕ)
    → Limited limit ops
    → credit_markers (markers_of c) ≤ limit
    → credit_markers (markers_of (run c ops)) ≤ limit
unfolding run
credit_markers_bounded c [] limit l h = h
credit_markers_bounded c (charge amount ∷ ops) limit l h =
    credit_markers_bounded (perform c (charge amount)) ops limit l
      (perform_charge-capacity c amount limit h)
credit_markers_bounded c (charge_keyed amount key expires_at now ∷ ops) limit l h =
    credit_markers_bounded (perform c (charge_keyed amount key expires_at now)) ops limit l
      (perform_keyed-capacity c amount key expires_at now limit h)
credit_markers_bounded c (credit t ∷ ops) limit l h =
    credit_markers_bounded (perform c (credit t)) ops limit l.1
      (perform_credit-capacity c t limit l.0 h)
