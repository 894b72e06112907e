-- ===== src/Session/Api.antt =====
-- The operations that charge and credit a stored channel: `deduct_from_channel` and `credit_channel`
-- of _store.py, and `charge_session_channel` of _settlement.py. Each takes the stored channel and
-- returns the one stored next, with its result.
pub mod Charges
pub mod Charging
pub mod Answers
use pympp.Prelude.{
  ℕ, ◌+◌, String, Bool, true, false, not, ◌&&◌, ◌||◌, Option, none, some, ltb, ◌==◌, str_eq,
  if◌then◌else◌, or_else,
}
use pympp.Prelude.Result.{Result, ok, raise, raise_if, ◌>>=◌, ◌>>◌}
use pympp.Session.State.{
  ChannelState, CreditDeclineReason, SessionError, channel_not_found, channel_closed,
  idempotency_key_conflict, value_error, runtime_error, insufficient_balance,
}
use pympp.Session.Change.{StoreChange, change_result, apply_change}
use pympp.Session.Charge.{
  DeductResult, KeyedResult, conflict, result, plan_deduction, plan_keyed_deduction,
}
use pympp.Session.Credit.{
  CreditTerms, CreditOutcome, conflict, capacity, was_credited, was_declined, plan_credit,
}

-- A day, in milliseconds.
abbrev pub default_idempotency_retention : ℕ
default_idempotency_retention = 86400000

-- A key is text and a retention a whole number here; an empty key and a zero retention are refused.
unfoldable pub assert_idempotency_options :
    Option String → Option ℕ → Result SessionError (Unit {0})
assert_idempotency_options none none = ok tt
assert_idempotency_options none (some retention) = raise_if (retention == 0) value_error
assert_idempotency_options (some key) none = raise_if (str_eq key "") value_error
assert_idempotency_options (some key) (some retention) = do
  raise_if (str_eq key "") value_error
  raise_if (retention == 0) value_error

-- What the stored channel becomes, and what the caller gets or must catch.
abbrev pub Outcome : Type 0 → Type 0
Outcome A = Option ChannelState × Result SessionError A

abbrev keyed_answer : Option KeyedResult → Result SessionError DeductResult
keyed_answer none = raise channel_not_found
keyed_answer (some conflict) = raise idempotency_key_conflict
keyed_answer (some (result r)) = ok r

abbrev plain_answer : Option DeductResult → Result SessionError DeductResult
plain_answer none = raise channel_not_found
plain_answer (some r) = ok r

unfoldable pub deduct_from_channel :
    Option ChannelState → ℕ → Option String → Option ℕ → ℕ → Outcome DeductResult
unfolding plan_deduction plan_keyed_deduction assert_idempotency_options
deduct_from_channel current amount none retention now =
    let change = plan_deduction current amount in
    (apply_change current change, plain_answer (change_result change))
deduct_from_channel current amount (some key) retention now =
    elim (assert_idempotency_options (some key) retention) [
      | raise e ↦ (current, raise e)
      | ok u ↦
          let expires_at = now + or_else retention default_idempotency_retention in
          let change = plan_keyed_deduction current amount key expires_at now in
          (apply_change current change, keyed_answer (change_result change))
    ]

-- `charge_session_channel` maps a charge that failed to the typed errors.
unfoldable pub is_conflict : SessionError → Bool
is_conflict idempotency_key_conflict = true
is_conflict e = false

abbrev charge_answer : Result SessionError DeductResult → Result SessionError ChannelState
charge_answer (raise e) =
    if is_conflict e then raise idempotency_key_conflict else raise channel_closed
charge_answer (ok r) =
    if not r.ok
    then if r.channel.finalized
      then raise channel_closed
      else if not (r.channel.close_requested_at == 0)
      then raise channel_closed
      else raise insufficient_balance
    else ok r.channel

unfoldable pub charge_session_channel :
    Option ChannelState → ℕ → Option String → Option ℕ → ℕ → Outcome ChannelState
unfolding deduct_from_channel assert_idempotency_options is_conflict
charge_session_channel current amount key retention now =
    elim (assert_idempotency_options key retention) [
      | raise e ↦ (current, raise e)
      | ok u ↦
          let (stored, answer) = deduct_from_channel current amount key retention now in
          (stored, charge_answer answer)
    ]

-- The `CreditResult` of a credit; `unknown` means that the store's write failed.
pub data CreditResult : Type 0 where
  credited : ChannelState → Bool → CreditResult
  declined : ChannelState → Bool → CreditDeclineReason → CreditResult
  unknown : CreditResult

abbrev pub credit_answer : Option CreditOutcome → Result SessionError CreditResult
credit_answer none = raise channel_not_found
credit_answer (some capacity) = raise runtime_error
credit_answer (some conflict) = raise idempotency_key_conflict
credit_answer (some (was_credited channel replayed)) = ok (credited channel replayed)
credit_answer (some (was_declined channel replayed reason)) = ok (declined channel replayed reason)

-- How the store took the update: it answered, or it raised before or after the write.
pub data Write : Type 0 where
  answered failed_before failed_after : Write

unfoldable pub credit_channel :
    Write → Option ChannelState → ℕ → String → ℕ → Option ℕ → ℕ → ℕ → Outcome CreditResult
unfolding plan_credit
credit_channel write current amount key max_markers retention units now =
    elim (assert_idempotency_options (some key) retention) [
      | raise e ↦ (current, raise e)
      | ok u ↦
          if amount == 0 || max_markers == 0
          then (current, raise value_error)
          else let terms : CreditTerms = record {
            amount = amount;
            expires_at = now + or_else retention default_idempotency_retention;
            idempotency_key = key;
            max_markers = max_markers;
            now = now;
            units = units;
          } in
            let change = plan_credit current terms in
            elim write [
              | answered ↦ (apply_change current change, credit_answer (change_result change))
              | failed_before ↦ (current, ok unknown)
              | failed_after ↦ (apply_change current change, ok unknown)
            ]
    ]
