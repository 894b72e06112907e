-- ===== src/Session/Charge.antt =====
-- _store.py: charges to a channel, plain and keyed by an idempotency key.
use Prim.Native.String.{◌++◌}
use pympp.Prelude.{
  ℕ, ◌+◌, String, Bool, true, false, not, ◌||◌, Option, none, some, [], ◌∷◌, ltb, ◌==◌,
  if◌then◌else◌, or_else,
}
use pympp.Prelude.Dict.{Dict, lookup, insert}
use pympp.Session.State.{
  ChannelState, IdempotencyMarker, MarkerOutcome, charged, credited, declined,
}
use pympp.Session.Change.{StoreChange, set, delete, noop}

pub record DeductResult : Type 0 where
  pub ok : Bool
  pub channel : ChannelState
  pub replayed : Bool

-- `{key: marker for key, marker in … if marker.expires_at > now}`
unfoldable pub live_only : ℕ → Dict IdempotencyMarker → Dict IdempotencyMarker
live_only now [] = []
live_only now ((k, m) ∷ d) =
    let rest = live_only now d in if ltb now m.expires_at then (k, m) ∷ rest else rest

unfoldable pub live_markers : ChannelState → ℕ → Dict IdempotencyMarker
unfolding live_only
live_markers state now = live_only now (or_else state.idempotency_markers [])

abbrev refused : ChannelState → DeductResult
refused current = record { ok = false; channel = current; replayed = false }

-- `highest_voucher_amount - spent < amount` in Python's integers, where the difference may be
-- negative, is `highest_voucher_amount < spent + amount`.
unfoldable pub plan_deduction : Option ChannelState → ℕ → StoreChange (Option DeductResult)
plan_deduction none amount = noop none
plan_deduction (some current) amount =
    if current.finalized || not (current.close_requested_at == 0)
    then noop (some (refused current))
    else if ltb current.highest_voucher_amount (current.spent + amount)
    then noop (some (refused current))
    else let next_state = record current {
      spent = current.spent + amount;
      units = current.units + 1;
    } in
      set (some (record { ok = true; channel = next_state; replayed = false })) next_state

pub record VoucherAcceptance : Type 0 where
  pub channel : ChannelState
  pub charged : Bool

abbrev acceptance_of : ChannelState → StoreChange (Option DeductResult) → VoucherAcceptance
acceptance_of accepted (set r value) = record { channel = value; charged = true }
acceptance_of accepted (delete r) = record { channel = accepted; charged = false }
acceptance_of accepted (noop r) = record { channel = accepted; charged = false }

unfoldable pub plan_voucher_acceptance : ChannelState → Option ℕ → VoucherAcceptance
unfolding plan_deduction
plan_voucher_acceptance accepted none = record { channel = accepted; charged = false }
plan_voucher_acceptance accepted (some charge_amount) =
    acceptance_of accepted (plan_deduction (some accepted) charge_amount)

-- The result of a keyed charge: a `DeductResult`, or the text "conflict".
pub data KeyedResult : Type 0 where
  conflict : KeyedResult
  result : DeductResult → KeyedResult

abbrev pub charge_key : String → String
charge_key k = "charge:" ++ k

abbrev pub is_charged : MarkerOutcome → Bool
is_charged charged = true
is_charged credited = false
is_charged (declined r) = false

abbrev pub charge_marker : ℕ → ℕ → IdempotencyMarker
charge_marker amount expires_at = record {
  amount = amount;
  expires_at = expires_at;
  outcome = charged;
  units = none;
}

abbrev keyed_result : Option DeductResult → Option KeyedResult
keyed_result none = none
keyed_result (some r) = some (result r)

-- A charge that `plan_deduction` makes gets a marker; any other passes through.
abbrev pub record_charge :
    Dict IdempotencyMarker
    → String
    → IdempotencyMarker
    → StoreChange (Option DeductResult)
    → StoreChange (Option KeyedResult)
record_charge markers marker_key marker (set r value) =
    let channel = record value { idempotency_markers = some (insert marker_key marker markers) } in
    set (some (result (record { ok = true; channel = channel; replayed = false }))) channel
record_charge markers marker_key marker (delete r) = noop (keyed_result r)
record_charge markers marker_key marker (noop r) = noop (keyed_result r)

abbrev pub replay_charge : ChannelState → ℕ → IdempotencyMarker → StoreChange (Option KeyedResult)
replay_charge current amount recorded =
    if not (is_charged recorded.outcome) || not (recorded.amount == amount)
    then noop (some conflict)
    else noop (some (result (record { ok = true; channel = current; replayed = true })))

-- The arguments are in the order of the source: state, amount, key, expires_at, now.
unfoldable pub plan_keyed_deduction :
    Option ChannelState → ℕ → String → ℕ → ℕ → StoreChange (Option KeyedResult)
unfolding live_markers
plan_keyed_deduction none amount idempotency_key expires_at now = noop none
plan_keyed_deduction (some current) amount idempotency_key expires_at now =
    let markers = live_markers current now in
    let marker_key = charge_key idempotency_key in
    elim (lookup marker_key markers) [
      | some recorded ↦ replay_charge current amount recorded
      | none ↦
          record_charge markers marker_key (charge_marker amount expires_at)
            (plan_deduction (some current) amount)
    ]
