-- ===== src/SponsorBudget.antt =====
-- methods/tempo/sponsor_budget.py: the fees that a sponsor has in flight. The reservations of one
-- sponsor are the stored document's, decoded; `none` stands for a document that `_decode` refuses, and
-- an empty dict also for an absent one. Every operation is one `_update`: what it returns, and the
-- reservations stored next. Each reads the clock for itself, so times are arguments.
pub mod Bounds
pub mod Holding
pub mod Entered
pub mod Examples
use pympp.Prelude.{
  ℕ, ◌+◌, String, Bool, true, false, not, ◌&&◌, ◌||◌, Option, none, some, List, [], ◌∷◌, leb, ltb,
  ◌==◌, str_eq, if◌then◌else◌, length,
}
use pympp.Prelude.Dict.{Dict, lookup, insert, remove}
use pympp.Prelude.Result.{Result, ok, raise, raise_if, ◌>>=◌, ◌>>◌}

-- `_PREPARED_LEASE_MS`
abbrev pub prepared_lease_ms : ℕ
prepared_lease_ms = 30000

pub data BudgetError : Type 0 where
  value_error verification_error internal_payment_error : BudgetError

pub record SponsorBudget : Type 0 where
  pub max_in_flight_reservations : ℕ
  pub max_in_flight_total_fee : ℕ

-- `SponsorBudget(…)`, with `__post_init__`
unfoldable pub sponsor_budget : ℕ → ℕ → Result BudgetError SponsorBudget
sponsor_budget reservations total_fee = do
  raise_if (ltb reservations 1) value_error
  raise_if (ltb total_fee 1) value_error
  ok (record { max_in_flight_reservations = reservations; max_in_flight_total_fee = total_fee })

pub data Phase : Type 0 where
  prepared broadcasting pending : Phase

pub record Entry : Type 0 where
  pub expires_at : ℕ
  pub fee : ℕ
  pub lease_until : ℕ
  pub owner : String
  pub phase : Phase
  pub transaction_hash : String

-- The reservation's id, and the owner that fences stale workers.
pub record Reservation : Type 0 where
  pub id : String
  pub owner : String

abbrev pub Stored : Type 0
Stored = Option (Dict Entry)

abbrev pub put_or_remove : String → Option Entry → Dict Entry → Dict Entry
put_or_remove id none d = remove id d
put_or_remove id (some updated) d = insert id updated d

-- `_mutate_owned`; `mutate` returns the entry's new value, or `none` to delete it.
unfoldable pub mutate_owned :
    Reservation → (Entry → Option Entry) → (Entry → Bool) → Dict Entry → Dict Entry × Bool
mutate_owned r mutate unless current = elim (lookup r.id current) [
  | none ↦ (current, false)
  | some entry ↦
      if not (str_eq entry.owner r.owner) || unless entry
      then (current, false)
      else (put_or_remove r.id (mutate entry) current, true)
]

abbrev pub never : Entry → Bool
never entry = false

abbrev pub drop : Entry → Option Entry
drop entry = none

unfoldable pub transition : Reservation → Phase → Dict Entry → Dict Entry × Bool
unfolding mutate_owned
transition r phase current =
    mutate_owned r (λ entry. some (record entry { phase = phase })) never current

unfoldable pub release : Reservation → Dict Entry → Dict Entry × Bool
unfolding mutate_owned
release r current = mutate_owned r drop never current

abbrev pub is_prepared : Phase → Bool
is_prepared prepared = true
is_prepared broadcasting = false
is_prepared pending = false

unfoldable pub is_stale : Entry → ℕ → Bool
is_stale entry now =
    leb entry.expires_at now || (is_prepared entry.phase && leb entry.lease_until now)

-- The two releases of `reconcile_one`: of an entry that is still stale, and of one whose transaction
-- has a receipt.
unfoldable pub release_stale : Reservation → ℕ → Dict Entry → Dict Entry × Bool
unfolding mutate_owned is_stale
release_stale r now current = mutate_owned r drop (λ entry. not (is_stale entry now)) current

unfoldable pub release_settled : Reservation → Dict Entry → Dict Entry × Bool
unfolding mutate_owned
release_settled r current = mutate_owned r drop (λ entry. is_prepared entry.phase) current

-- `sum(int(entry["fee"]) for entry in current.values())`
unfoldable pub total_fee : Dict Entry → ℕ
total_fee [] = 0
total_fee ((id, entry) ∷ d) = entry.fee + total_fee d

-- What `reserve` asks for, with the `owner` that it makes up; its id is the lower-cased hash.
pub record Request : Type 0 where
  pub reservation : Reservation
  pub transaction_hash : String
  pub fee : ℕ
  pub expires_at : ℕ

pub data Admission : Type 0 where
  invalid duplicate wait reserved : Admission

-- `min(expires_at, _now_ms() + _PREPARED_LEASE_MS)`
abbrev pub entry_of : Request → ℕ → Entry
entry_of q written_at = record {
  expires_at = q.expires_at;
  fee = q.fee;
  lease_until =
      if leb q.expires_at (written_at + prepared_lease_ms)
      then q.expires_at
      else written_at + prepared_lease_ms;
  owner = q.reservation.owner;
  phase = prepared;
  transaction_hash = q.transaction_hash;
}

-- The end of `change`, over the entries without the one that this request replaces; `current` are
-- those that stay when it writes nothing.
unfoldable pub admit :
    SponsorBudget → Request → ℕ → Dict Entry → Dict Entry → Dict Entry × Admission
unfolding total_fee
admit budget q written_at current others =
    if leb budget.max_in_flight_reservations (length others)
      || ltb budget.max_in_flight_total_fee (total_fee others + q.fee)
    then (current, wait)
    else (insert q.reservation.id (entry_of q written_at) others, reserved)

-- `change` of `reserve`, on a document that can be read
unfoldable pub reserve_change :
    SponsorBudget → Request → ℕ → ℕ → Dict Entry → Dict Entry × Admission
unfolding admit is_stale
reserve_change budget q now written_at current = elim (lookup q.reservation.id current) [
  | none ↦ admit budget q written_at current current
  | some existing ↦
      if not (is_stale existing now)
      then (current, duplicate)
      else admit budget q written_at current (remove q.reservation.id current)
]

unfoldable pub reserve_stored : SponsorBudget → Request → ℕ → ℕ → Stored → Stored × Admission
unfolding reserve_change
reserve_stored budget q now written_at none = (none, invalid)
reserve_stored budget q now written_at (some current) =
    let (next, admission) = reserve_change budget q now written_at current in (some next, admission)

-- One turn of `reserve`'s loop: the clock at its three readings, and what others make of the stored
-- reservations before its update.
pub record Poll : Type 0 where
  pub now : ℕ
  pub checked_at : ℕ
  pub written_at : ℕ
  pub others : Stored → Stored

-- How `reserve` ends; `waiting` once the polls given have passed.
pub data Reserving : Type 0 where
  holds : Reservation → Bool → Reserving
  raises : BudgetError → Reserving
  waiting : Reserving

unfoldable pub reserve_loop :
    SponsorBudget → Request → ℕ → Bool → List Poll → Stored → Stored × Reserving
unfolding reserve_stored
reserve_loop budget q wait_until waited [] stored = (stored, waiting)
reserve_loop budget q wait_until waited (p ∷ rest) stored =
    let (next, admission) = reserve_stored budget q p.checked_at p.written_at (p.others stored) in
    let again = reserve_loop budget q wait_until true rest next in
    if leb wait_until p.now then (stored, raises verification_error) else elim admission [
      | reserved ↦ (next, holds q.reservation waited)
      | invalid ↦ (next, raises internal_payment_error)
      | duplicate ↦ (next, raises internal_payment_error)
      | wait ↦ again
    ]

-- `reserve`
unfoldable pub reserve : SponsorBudget → Request → ℕ → List Poll → Stored → Stored × Reserving
unfolding reserve_loop
reserve budget q wait_until polls stored =
    if ltb budget.max_in_flight_total_fee q.fee
    then (stored, raises verification_error)
    else reserve_loop budget q wait_until false polls stored
