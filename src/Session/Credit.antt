-- ===== src/Session/Credit.antt =====
-- _store.py: credits to a channel.
use Prim.Native.String.{◌++◌}
use pympp.Prelude.{
  ℕ, ◌+◌, ◌-◌, String, Bool, true, false, not, ◌||◌, Option, none, some, [], ◌∷◌, leb, ltb, ◌==◌,
  if◌then◌else◌, or_else, starts_with,
}
use pympp.Prelude.Dict.{Dict, lookup, insert}
use pympp.Session.State.{
  ChannelState, PendingSettlement, IdempotencyMarker, MarkerOutcome, charged, credited, declined,
  CreditDeclineReason, below_settled, closing, exceeds_spent, finalized,
}
use pympp.Session.Merge.{keep_greater}
use pympp.Session.Change.{StoreChange, set, noop}
use pympp.Session.Charge.{live_markers}

-- The `CreditResult` of a credit that reached the store, or the texts "conflict" and "capacity".
pub data CreditOutcome : Type 0 where
  conflict capacity : CreditOutcome
  was_credited : ChannelState → Bool → CreditOutcome
  was_declined : ChannelState → Bool → CreditDeclineReason → CreditOutcome

-- The amount of a settlement that may still land.
unfoldable pub settling : Option PendingSettlement → ℕ → ℕ
settling none now = 0
settling (some pending) now = if ltb now pending.expires_at then pending.amount else 0

-- `spent - amount` does not fall below 0 where it is compared: `amount > spent` has returned.
unfoldable pub credit_decline_reason : ChannelState → ℕ → ℕ → Option CreditDeclineReason
unfolding keep_greater settling
credit_decline_reason current amount now =
    if current.finalized
    then some finalized
    else if not (current.close_requested_at == 0)
    then some closing
    else if ltb current.spent amount
    then some exceeds_spent
    else if ltb (current.spent - amount)
        (keep_greater current.settled_on_chain (settling current.pending_settlement now))
    then some below_settled
    else none

abbrev pub credit_key : String → String
credit_key k = "credit:" ++ k

-- `sum(1 for key in markers if key.startswith("credit:"))`
unfoldable pub credit_markers : Dict IdempotencyMarker → ℕ
credit_markers [] = 0
credit_markers ((k, m) ∷ d) = (if starts_with k "credit:" then 1 else 0) + credit_markers d

pub record CreditTerms : Type 0 where
  pub amount : ℕ
  pub expires_at : ℕ
  pub idempotency_key : String
  pub max_markers : ℕ
  pub now : ℕ
  pub units : ℕ

-- What a recorded outcome answers to a retry whose terms agree.
abbrev replay_outcome : ChannelState → MarkerOutcome → CreditOutcome
replay_outcome current charged = conflict
replay_outcome current credited = was_credited current true
replay_outcome current (declined reason) = was_declined current true reason

abbrev pub replay_credit : ChannelState → CreditTerms → IdempotencyMarker → CreditOutcome
replay_credit current t recorded =
    if not (recorded.amount == t.amount) || not (or_else recorded.units 0 == t.units)
    then conflict
    else replay_outcome current recorded.outcome

abbrev pub credit_marker : CreditTerms → MarkerOutcome → IdempotencyMarker
credit_marker t outcome = record {
  amount = t.amount;
  expires_at = t.expires_at;
  outcome = outcome;
  units = if ltb 0 t.units then some t.units else none;
}

abbrev with_markers : ChannelState → Dict IdempotencyMarker → ChannelState
with_markers channel markers = record channel { idempotency_markers = some markers }

-- `max(0, current.units - units)` is the truncated difference.
unfoldable pub record_credit :
    ChannelState
    → CreditTerms
    → Dict IdempotencyMarker
    → Option CreditDeclineReason
    → StoreChange (Option CreditOutcome)
record_credit current t markers none =
    let marker = credit_marker t credited in
    let channel =
      with_markers
        (record current { spent = current.spent - t.amount; units = current.units - t.units })
        (insert (credit_key t.idempotency_key) marker markers) in
    set (some (was_credited channel false)) channel
record_credit current t markers (some reason) =
    let marker = credit_marker t (declined reason) in
    let channel = with_markers current (insert (credit_key t.idempotency_key) marker markers) in
    set (some (was_declined channel false reason)) channel

unfoldable pub plan_credit : Option ChannelState → CreditTerms → StoreChange (Option CreditOutcome)
unfolding live_markers record_credit credit_decline_reason
plan_credit none t = noop none
plan_credit (some current) t =
    let markers = live_markers current t.now in
    elim (lookup (credit_key t.idempotency_key) markers) [
      | some recorded ↦ noop (some (replay_credit current t recorded))
      | none ↦
          if leb t.max_markers (credit_markers markers)
          then noop (some capacity)
          else record_credit current t markers (credit_decline_reason current t.amount t.now)
    ]
