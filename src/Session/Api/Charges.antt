-- ===== src/Session/Api/Charges.antt =====
-- What the answers of `charge_session_channel` say, by the options, the stored channel and the marker
-- of the idempotency key.
use pympp.Prelude.{
  ℕ, ◌+◌, ◌≤◌, ◌<◌, ◌≡◌, ◌≢◌, refl, ◌⊎◌, inl, inr, String, true, false, Option, none, some, [],
  arith, or_else, eq_iff, ◌==◌, Bool-cases, Option-cases,
}
use pympp.Prelude.Dict.{lookup, lookup-insert_self}
use pympp.Prelude.Result.{ok, raise}
use pympp.Session.State.{
  ChannelState, IdempotencyMarker, MarkerOutcome, charged, credited, declined, channel_closed,
  idempotency_key_conflict, value_error, insufficient_balance,
}
use pympp.Session.Change.{StoreChange, apply_change, change_result}
use pympp.Session.Charge.{
  KeyedResult, plan_deduction, plan_keyed_deduction, live_markers, charge_key, replay_charge,
  record_charge, charge_marker, is_charged,
}
use pympp.Session.Api.{
  Outcome, assert_idempotency_options, default_idempotency_retention, charge_answer, keyed_answer,
  is_conflict,
}

-- An empty key and a retention of zero are refused.
abbrev pub AreValid : Option String → Option ℕ → Type 0
AreValid key retention = (key ≢ some "") × (retention ≢ some 0)

-- The marker of a charge's key that lives at a time.
abbrev pub recorded : ChannelState → Option String → ℕ → Option IdempotencyMarker
recorded c none now = none
recorded c (some key) now = lookup (charge_key key) (live_markers c now)

-- A charge leaves the marker of its key, which lives for the retention.
abbrev pub Marked : ChannelState → ChannelState → ℕ → Option String → Option ℕ → ℕ → Type 0
Marked c c' amount none retention now = c'.idempotency_markers ≡ c.idempotency_markers
Marked c c' amount (some key) retention now =
    lookup (charge_key key) (or_else c'.idempotency_markers [])
    ≡ some (record {
      amount = amount;
      expires_at = now + or_else retention default_idempotency_retention;
      outcome = charged;
      units = none;
    })

-- A marker that the charge replays.
abbrev pub Matches : IdempotencyMarker → ℕ → Type 0
Matches m amount = (m.outcome ≡ charged) × (m.amount ≡ amount)

-- What each answer of a charge of `amount` with valid options says of a stored channel.
unfoldable pub ChargesStored :
    ChannelState → ℕ → Option String → Option ℕ → ℕ → Outcome ChannelState → Type 0
ChargesStored c amount key retention now (stored, ok c') =
    (stored ≡ some c')
    × (((recorded c key now ≡ none)
          × (c'.spent ≡ c.spent + amount)
          × (c'.units ≡ c.units + 1)
          × (c'.spent ≤ c.highest_voucher_amount)
          × (c.finalized ≡ false)
          × (c.close_requested_at ≡ 0)
          × Marked c c' amount key retention now)
        ⊎ ((m : IdempotencyMarker) × (recorded c key now ≡ some m) × Matches m amount × (c' ≡ c)))
ChargesStored c amount key retention now (stored, raise e) =
    (stored ≡ some c)
    × (((m : IdempotencyMarker) × (recorded c key now ≡ some m)
          × (¬ Matches m amount)
          × (e ≡ idempotency_key_conflict))
        ⊎ ((recorded c key now ≡ none)
            × (((e ≡ channel_closed) × ((c.finalized ≡ true) ⊎ (c.close_requested_at ≢ 0)))
                ⊎ ((e ≡ insufficient_balance) × (c.highest_voucher_amount < c.spent + amount)))))

-- What each answer says, of whatever is stored.
unfoldable pub Charges :
    Option ChannelState → ℕ → Option String → Option ℕ → ℕ → Outcome ChannelState → Type 0
Charges current amount key retention now outcome =
    ((¬ AreValid key retention) × (outcome ≡ (current, raise value_error)))
    ⊎ (AreValid key retention
        × (((current ≡ none) × (outcome ≡ (none, raise channel_closed)))
            ⊎ ((c : ChannelState) × (current ≡ some c)
                × ChargesStored c amount key retention now outcome)))

pub assert_idempotency_options-cases :
    (key : Option String) (retention : Option ℕ)
    → ((¬ AreValid key retention) × (assert_idempotency_options key retention ≡ raise value_error))
      ⊎ (AreValid key retention × (assert_idempotency_options key retention ≡ ok tt))
unfolding assert_idempotency_options
assert_idempotency_options-cases none none = ground arith
assert_idempotency_options-cases none (some retention) = ground arith
assert_idempotency_options-cases (some key) none = ground (arith, eq_iff key "")
assert_idempotency_options-cases (some key) (some retention) = ground (arith, eq_iff key "")

-- A planned keyed charge, answered.
unfoldable pub Answered :
    ChannelState → ℕ → String → Option ℕ → ℕ → StoreChange (Option KeyedResult) → Type 0
Answered c amount key retention now change =
    ChargesStored c amount (some key) retention now
      (apply_change (some c) change, charge_answer (keyed_answer (change_result change)))

is_charged-cases :
    (o : MarkerOutcome)
    → ((o ≡ charged) × (is_charged o ≡ true)) ⊎ ((o ≢ charged) × (is_charged o ≡ false))
is_charged-cases charged = inl (refl, refl)
is_charged-cases credited = inr (ground arith, refl)
is_charged-cases (declined r) = inr (ground arith, refl)

replay_charge-Answered :
    (c : ChannelState) (amount : ℕ) (key : String) (retention : Option ℕ) (now : ℕ)
    (m : IdempotencyMarker)
    → recorded c (some key) now ≡ some m
    → Answered c amount key retention now (replay_charge c amount m)
unfolding Answered ChargesStored is_conflict
replay_charge-Answered c amount key retention now m there = elim (is_charged-cases m.outcome) [
  | inr (other, not_charge) ↦ rw not_charge (refl, inl (m, there, λ h. other h.0, refl))
  | inl (paid, of_charge) ↦ rw of_charge (elim (Bool-cases (m.amount == amount)) [
    | inl same ↦ rw same (refl, inr (m, there, (paid, ground (arith, same)), refl))
    | inr differs ↦ rw differs (refl, inl (m, there, λ h. ground (arith, h.1, differs), refl))
  ])
]

record_charge-Answered :
    (c : ChannelState) (amount : ℕ) (key : String) (retention : Option ℕ) (now : ℕ)
    → recorded c (some key) now ≡ none
    → let expires_at = now + or_else retention default_idempotency_retention in
      Answered c amount key retention now (
        record_charge
          (live_markers c now)
          (charge_key key)
          (charge_marker amount expires_at)
          (plan_deduction (some c) amount))
unfolding Answered ChargesStored plan_deduction
record_charge-Answered c amount key retention now fresh =
    let expires_at = now + or_else retention default_idempotency_retention in
    let inserted =
      lookup-insert_self (charge_key key) (charge_marker amount expires_at) (live_markers c now) in
    ground arith

pub keyed-ChargesStored :
    (c : ChannelState) (amount : ℕ) (key : String) (retention : Option ℕ) (now : ℕ)
    → let expires_at = now + or_else retention default_idempotency_retention in
      Answered c amount key retention now (plan_keyed_deduction (some c) amount key expires_at now)
unfolding plan_keyed_deduction plan_deduction
keyed-ChargesStored c amount key retention now =
    let expires_at = now + or_else retention default_idempotency_retention in
    let markers = live_markers c now in
    elim (Option-cases (lookup (charge_key key) markers)) [
      | inl fresh ↦
          let e : plan_keyed_deduction (some c) amount key expires_at now
              ≡ record_charge markers (charge_key key) (charge_marker amount expires_at)
                  (plan_deduction (some c) amount) =
            rw (plan_keyed_deduction, fresh) refl in
          rw e (record_charge-Answered c amount key retention now fresh)
      | inr (m, there) ↦
          let e : plan_keyed_deduction (some c) amount key expires_at now
              ≡ replay_charge c amount m =
            rw (plan_keyed_deduction, there) refl in
          rw e (replay_charge-Answered c amount key retention now m there)
    ]
