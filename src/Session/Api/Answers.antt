-- ===== src/Session/Api/Answers.antt =====
-- What the answers of the charging operations say of the stored channel.
use pympp.Prelude.{
  ℕ, ◌+◌, ◌≤◌, ◌≡◌, refl, inl, inr, String, true, false, Option, none, some, arith, leb, or_else,
  if◌then◌else◌, ◌==◌, ◌||◌, Bool-cases, Option-cases,
}
use pympp.Prelude.Dict.{Dict, lookup}
use pympp.Prelude.Result.{Result, ok, raise}
use pympp.Session.State.{ChannelState, IdempotencyMarker, SessionError, value_error}
use pympp.Session.Charge.{live_markers}
use pympp.Session.Change.{StoreChange, set, delete, noop, apply_change, change_result}
use pympp.Session.Merge.{keep_greater}
use pympp.Session.Credit.{
  CreditOutcome, CreditTerms, credit_key, conflict, was_credited, was_declined, settling,
  replay_credit, credit_markers, capacity, credit_decline_reason, record_credit, plan_credit,
}
use pympp.Session.Api.Charges.{Charges}
use pympp.Session.Api.{
  credit_answer, CreditResult, credited, declined, unknown, Write, answered, failed_before,
  failed_after, default_idempotency_retention, credit_channel, Outcome, assert_idempotency_options,
}

-- What each answer to a credit of `amount` says. After `unknown` the credit may have been made.
pub Credits : ChannelState → ℕ → Outcome CreditResult → Type 0
Credits c amount (stored, ok (credited c' true)) = (stored ≡ some c') × (c' ≡ c)
Credits c amount (stored, ok (credited c' false)) =
    (stored ≡ some c') × (c'.spent + amount ≡ c.spent) × (c.settled_on_chain ≤ c'.spent)
Credits c amount (stored, ok (declined c' replayed reason)) =
    (stored ≡ some c') × (c'.spent ≡ c.spent) × (c'.units ≡ c.units)
Credits c amount (stored, ok unknown) =
    (c' : ChannelState) × (stored ≡ some c')
    × (c'.spent ≤ c.spent)
    × ((c.settled_on_chain ≤ c.spent) → (c.settled_on_chain ≤ c'.spent))
Credits c amount (stored, raise e) = stored ≡ some c

-- What a planned credit changes.
Planned : ChannelState → ℕ → StoreChange (Option CreditOutcome) → Type 0
Planned c amount change =
    Credits c amount (apply_change (some c) change, credit_answer (change_result change))

record_credit-Planned :
    (c : ChannelState) (t : CreditTerms) (markers : Dict IdempotencyMarker)
    → Planned c t.amount (record_credit c t markers (credit_decline_reason c t.amount t.now))
unfolding record_credit credit_decline_reason keep_greater settling Credits Planned
record_credit-Planned c t markers = ground arith

replay_credit-Planned :
    (c : ChannelState) (t : CreditTerms) (m : IdempotencyMarker)
    → Planned c t.amount (noop (some (replay_credit c t m)))
unfolding Credits Planned
replay_credit-Planned c t m = ground arith

capacity-Planned : (c : ChannelState) (amount : ℕ) → Planned c amount (noop (some capacity))
unfolding Credits Planned
capacity-Planned c amount = refl

plan_credit-Planned :
    (c : ChannelState) (t : CreditTerms) → Planned c t.amount (plan_credit (some c) t)
unfolding plan_credit
plan_credit-Planned c t =
    let markers = live_markers c t.now in
    let full = leb t.max_markers (credit_markers markers) in
    elim (Option-cases (lookup (credit_key t.idempotency_key) markers)) [
      | inr (m, there) ↦
          let e : plan_credit (some c) t ≡ noop (some (replay_credit c t m)) =
            rw (plan_credit, there) refl in
          rw e (replay_credit-Planned c t m)
      | inl fresh ↦ elim (Bool-cases full) [
        | inl no_room ↦
            let e : plan_credit (some c) t ≡ noop (some capacity) =
              rw (plan_credit, fresh, no_room) refl in
            rw e (capacity-Planned c t.amount)
        | inr room ↦
            let e : plan_credit (some c) t
                ≡ record_credit c t markers (credit_decline_reason c t.amount t.now) =
              rw (plan_credit, fresh, room) refl in
            rw e (record_credit-Planned c t markers)
      ]
    ]

-- A write that failed left the channel as it was or as the planned credit makes it.
failed_after-Credits :
    (c : ChannelState) (amount : ℕ) (change : StoreChange (Option CreditOutcome))
    → Planned c amount change
    → Credits c amount (apply_change (some c) change, ok unknown)
unfolding Planned Credits
failed_after-Credits c amount (noop r) h = (c, refl, ground arith, λ k. k)
failed_after-Credits c amount (delete none) h = absurd (ground arith)
failed_after-Credits c amount (delete (some capacity)) h = absurd (ground arith)
failed_after-Credits c amount (delete (some conflict)) h = absurd (ground arith)
failed_after-Credits c amount (delete (some (was_credited d true))) h = absurd (ground arith)
failed_after-Credits c amount (delete (some (was_credited d false))) h = absurd (ground arith)
failed_after-Credits c amount (delete (some (was_declined d replayed why))) h =
    absurd (ground arith)
failed_after-Credits c amount (set none v) h = (v, refl, ground arith, ground arith)
failed_after-Credits c amount (set (some capacity) v) h = (v, refl, ground arith, ground arith)
failed_after-Credits c amount (set (some conflict) v) h = (v, refl, ground arith, ground arith)
failed_after-Credits c amount (set (some (was_credited d true)) v) h =
    (v, refl, ground arith, ground arith)
failed_after-Credits c amount (set (some (was_credited d false)) v) h =
    (v, refl, ground arith, ground arith)
failed_after-Credits c amount (set (some (was_declined d replayed why)) v) h =
    (v, refl, ground arith, ground arith)

raise-Credits :
    (c : ChannelState) (amount : ℕ) (e : SessionError) → Credits c amount (some c, raise e)
unfolding Credits
raise-Credits c amount e = refl

unknown-Credits : (c : ChannelState) (amount : ℕ) → Credits c amount (some c, ok unknown)
unfolding Credits
unknown-Credits c amount = (c, refl, ground arith, λ k. k)

-- A call that passed the checks of its arguments.
called-Credits :
    (write : Write) (c : ChannelState) (t : CreditTerms)
    → Credits c t.amount (elim write [
      | answered ↦ (
        apply_change (some c) (plan_credit (some c) t),
        credit_answer (change_result (plan_credit (some c) t)),
      )
      | failed_before ↦ (some c, ok unknown)
      | failed_after ↦ (apply_change (some c) (plan_credit (some c) t), ok unknown)
    ])
unfolding Planned
called-Credits answered c t = plan_credit-Planned c t
called-Credits failed_before c t = unknown-Credits c t.amount
called-Credits failed_after c t =
    failed_after-Credits c t.amount (plan_credit (some c) t) (plan_credit-Planned c t)

-- `credit_channel`, by the checks of its arguments.
credit_channel-cases :
    (write : Write) (c : ChannelState) (amount : ℕ) (key : String) (max_markers : ℕ)
    (retention : Option ℕ) (units now : ℕ) (checked : Result SessionError (Unit {0}))
    → Credits c amount (elim checked [
      | raise e ↦ (some c, raise e)
      | ok u ↦
          if amount == 0 || max_markers == 0
          then (some c, raise value_error)
          else let terms : CreditTerms = record {
            amount = amount;
            expires_at = now + or_else retention default_idempotency_retention;
            idempotency_key = key;
            max_markers = max_markers;
            now = now;
            units = units;
          } in
            let change = plan_credit (some c) terms in
            elim write [
              | answered ↦ (apply_change (some c) change, credit_answer (change_result change))
              | failed_before ↦ (some c, ok unknown)
              | failed_after ↦ (apply_change (some c) change, ok unknown)
            ]
    ])
credit_channel-cases write c amount key max_markers retention units now (raise e) =
    raise-Credits c amount e
credit_channel-cases write c amount key max_markers retention units now (ok u) =
    elim (Bool-cases (amount == 0 || max_markers == 0)) [
      | inl refused ↦ rw refused (raise-Credits c amount value_error)
      | inr valid ↦ rw valid (
          called-Credits write c (record {
            amount = amount;
            expires_at = now + or_else retention default_idempotency_retention;
            idempotency_key = key;
            max_markers = max_markers;
            now = now;
            units = units;
          }))
    ]

-- Every answer of `credit_channel` on a stored channel, whatever the store does to the write: a credit
-- lowers what is spent by the amount, not below what settled, and its replay changes nothing; after a
-- decline the same is spent and counted; an error leaves the channel as before; and an unknown outcome
-- at most lowers what is spent, and not below what settled if it was not below before.
pub credit_channel_lem :
    (write : Write) (c : ChannelState) (amount : ℕ) (key : String) (max_markers : ℕ)
    (retention : Option ℕ) (units now : ℕ)
    → Credits c amount (credit_channel write (some c) amount key max_markers retention units now)
unfolding credit_channel
credit_channel_lem write c amount key max_markers retention units now =
    credit_channel-cases write c amount key max_markers retention units now
      (assert_idempotency_options (some key) retention)
