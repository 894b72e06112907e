-- ===== src/Session/Api/Charging.antt =====
-- `charge_session_channel` by the check of its options.
use mathlib.Core.Path.{subst}
use pympp.Prelude.{
  ℕ, ◌+◌, ◌≡◌, refl, ap, ◌∙◌, sym, inl, inr, String, Option, none, some, arith, or_else,
}
use pympp.Prelude.Result.{ok, raise}
use pympp.Session.State.{ChannelState, channel_closed, value_error}
use pympp.Session.Change.{apply_change, change_result}
use pympp.Session.Charge.{plan_deduction, plan_keyed_deduction}
use pympp.Session.Api.{
  assert_idempotency_options, default_idempotency_retention, deduct_from_channel,
  charge_session_channel, charge_answer, keyed_answer, is_conflict,
}
use pympp.Session.Api.Charges.{AreValid, ChargesStored, Charges, Answered, keyed-ChargesStored}

-- A call whose options were accepted.
deduct_from_channel_keyed_lem :
    (current : Option ChannelState) (amount : ℕ) (key : String) (retention : Option ℕ) (now : ℕ)
    → assert_idempotency_options (some key) retention ≡ ok tt
    → let expires_at = now + or_else retention default_idempotency_retention in
      let change = plan_keyed_deduction current amount key expires_at now in
      deduct_from_channel current amount (some key) retention now
      ≡ (apply_change current change, keyed_answer (change_result change))
unfolding deduct_from_channel plan_keyed_deduction
deduct_from_channel_keyed_lem current amount key retention now valid =
    rw (deduct_from_channel, valid) refl

deduct_from_channel-ChargesStored :
    (c : ChannelState) (amount : ℕ) (key : Option String) (retention : Option ℕ) (now : ℕ)
    → assert_idempotency_options key retention ≡ ok tt
    → let (stored, answer) = deduct_from_channel (some c) amount key retention now in
      ChargesStored c amount key retention now (stored, charge_answer answer)
unfolding deduct_from_channel plan_deduction ChargesStored
deduct_from_channel-ChargesStored c amount none retention now valid = ground arith
deduct_from_channel-ChargesStored c amount (some key) retention now valid =
    let e = deduct_from_channel_keyed_lem (some c) amount key retention now valid in
    subst (λ x. ChargesStored c amount (some key) retention now (x.0, charge_answer x.1)) (sym e)
      (unfold Answered in keyed-ChargesStored c amount key retention now)

charged_lem :
    (current : Option ChannelState) (amount : ℕ) (key : Option String) (retention : Option ℕ)
    (now : ℕ)
    → assert_idempotency_options key retention ≡ ok tt
    → let (stored, answer) = deduct_from_channel current amount key retention now in
      charge_session_channel current amount key retention now ≡ (stored, charge_answer answer)
unfolding charge_session_channel deduct_from_channel
charged_lem current amount key retention now valid = rw (charge_session_channel, valid) refl

missing_lem :
    (amount : ℕ) (key : Option String) (retention : Option ℕ) (now : ℕ)
    → assert_idempotency_options key retention ≡ ok tt
    → charge_session_channel none amount key retention now ≡ (none, raise channel_closed)
unfolding deduct_from_channel plan_deduction plan_keyed_deduction is_conflict
missing_lem amount none retention now valid = charged_lem none amount none retention now valid
missing_lem amount (some key) retention now valid =
    charged_lem none amount (some key) retention now valid
    ∙ ap (λ x. (x.0, charge_answer x.1))
        (deduct_from_channel_keyed_lem none amount key retention now valid)

stored-ChargesStored :
    (c : ChannelState) (amount : ℕ) (key : Option String) (retention : Option ℕ) (now : ℕ)
    → assert_idempotency_options key retention ≡ ok tt
    → ChargesStored c amount key retention now
        (charge_session_channel (some c) amount key retention now)
stored-ChargesStored c amount key retention now valid =
    subst (ChargesStored c amount key retention now)
      (sym (charged_lem (some c) amount key retention now valid))
      (deduct_from_channel-ChargesStored c amount key retention now valid)

refused_lem :
    (current : Option ChannelState) (amount : ℕ) (key : Option String) (retention : Option ℕ)
    (now : ℕ)
    → assert_idempotency_options key retention ≡ raise value_error
    → charge_session_channel current amount key retention now ≡ (current, raise value_error)
unfolding charge_session_channel
refused_lem current amount key retention now refused = rw (charge_session_channel, refused) refl

pub checked-Charges :
    (current : Option ChannelState) (amount : ℕ) (key : Option String) (retention : Option ℕ)
    (now : ℕ)
    → AreValid key retention
    → assert_idempotency_options key retention ≡ ok tt
    → Charges current amount key retention now
        (charge_session_channel current amount key retention now)
unfolding Charges
checked-Charges none amount key retention now v valid =
    inr (v, inl (refl, missing_lem amount key retention now valid))
checked-Charges (some c) amount key retention now v valid =
    inr (v, inr (c, refl, stored-ChargesStored c amount key retention now valid))

pub refused-Charges :
    (current : Option ChannelState) (amount : ℕ) (key : Option String) (retention : Option ℕ)
    (now : ℕ)
    → (¬ AreValid key retention)
    → assert_idempotency_options key retention ≡ raise value_error
    → Charges current amount key retention now
        (charge_session_channel current amount key retention now)
unfolding Charges
refused-Charges current amount key retention now v refused =
    inl (v, refused_lem current amount key retention now refused)
