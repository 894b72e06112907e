-- ===== src/Store.antt =====
-- store.py: `MemoryStore`, over any type of stored values that are never `None`. Each method is one
-- step, as the event loop runs it: a method that mutates never awaits in between. Each reading of the
-- clock is an argument: `now` is that of a method's first pruning, `checked_at` that of the pruning in
-- `_check_capacity`, `validated_at` that of `_validate_expiry`. Deadlines are whole numbers, and a
-- method returns the new state with its result.
pub mod Unique
pub mod View
pub mod Effects
pub mod Methods
pub mod Calls
pub mod Claims
pub mod Examples
use pympp.Prelude.{
  ℕ, ◌≡◌, String, Bool, true, false, not, ◌&&◌, Option, none, some, List, [], ◌∷◌, leb, ltb,
  if◌then◌else◌, is_some, length,
}
use pympp.Prelude.Dict.{Dict, lookup, insert, remove}
use pympp.Prelude.Eq.{Eq, same}
use pympp.Prelude.Result.{Result, ok, raise}

pub data StoreError : Type 0 where
  value_error capacity_reached : StoreError

pub record MemoryStore {ℓ} (V : Type ℓ) : Type ℓ where
  pub max_entries : Option ℕ
  pub items : Dict V
  pub expiry_deadlines : Dict ℕ

module _ {ℓ} {V : Type ℓ} where
  -- `MemoryStore(max_entries=…)`
  unfoldable pub new : Option ℕ → Result StoreError (MemoryStore V)
  new none = ok (record { max_entries = none; items = []; expiry_deadlines = [] })
  new (some m) =
      if ltb m 1
      then raise value_error
      else ok (record { max_entries = some m; items = []; expiry_deadlines = [] })

  -- `self._data.pop(key, None)` and `del self._expiry_deadlines[key]`
  unfoldable pub drop_key : String → MemoryStore V → MemoryStore V
  drop_key key s = record s {
    items = remove key s.items;
    expiry_deadlines = remove key s.expiry_deadlines;
  }

  -- The loop of `_prune_expired` over the deadlines that it listed first.
  unfoldable pub prune_loop : ℕ → Dict ℕ → MemoryStore V → MemoryStore V
  unfolding drop_key
  prune_loop now [] s = s
  prune_loop now ((key, expires_at) ∷ rest) s =
      prune_loop now rest (if leb expires_at now then drop_key key s else s)

  unfoldable pub prune_expired : ℕ → MemoryStore V → MemoryStore V
  unfolding prune_loop
  prune_expired now s = prune_loop now s.expiry_deadlines s

  -- The test of `_check_capacity`, after its pruning.
  unfoldable pub is_full : MemoryStore V → Bool
  is_full s = elim s.max_entries [ none ↦ false | some m ↦ leb m (length s.items) ]

  unfoldable pub lacks_room : String → MemoryStore V → Bool
  unfolding is_full
  lacks_room key s = not (is_some (lookup key s.items)) && is_full s

  unfoldable pub get : ℕ → String → MemoryStore V → Option V × MemoryStore V
  get now key s = let s' = prune_expired now s in (lookup key s'.items, s')

  unfoldable pub put : ℕ → String → V → MemoryStore V → Result StoreError (Unit {0}) × MemoryStore V
  put now key value s =
      let s' = prune_expired now s in
      if lacks_room key s' then (raise capacity_reached, s') else (
        ok tt,
        record s' {
          items = insert key value s'.items;
          expiry_deadlines = remove key s'.expiry_deadlines;
        },
      )

  unfoldable pub delete : String → MemoryStore V → MemoryStore V
  unfolding drop_key
  delete key s = drop_key key s

  unfoldable pub put_if_absent :
      ℕ → ℕ → String → V → MemoryStore V → Result StoreError Bool × MemoryStore V
  put_if_absent now checked_at key value s =
      let s' = prune_expired now s in
      let checked = prune_expired checked_at s' in
      if is_some (lookup key s'.items)
      then (ok false, s')
      else if lacks_room key checked
      then (raise capacity_reached, checked)
      else (ok true, record checked { items = insert key value checked.items })

  -- The deadline is set on what `put_if_absent` wrote; a refusal or an error passes through.
  abbrev with_deadline :
      String → ℕ → Result StoreError Bool × MemoryStore V → Result StoreError Bool × MemoryStore V
  with_deadline key expires_at (raise e, s) = (raise e, s)
  with_deadline key expires_at (ok false, s) = (ok false, s)
  with_deadline key expires_at (ok true, s) =
      (ok true, record s { expiry_deadlines = insert key expires_at s.expiry_deadlines })

  unfoldable pub put_if_absent_until :
      ℕ → ℕ → ℕ → String → V → ℕ → MemoryStore V → Result StoreError Bool × MemoryStore V
  unfolding put_if_absent
  put_if_absent_until validated_at now checked_at key value expires_at s =
      if leb expires_at validated_at
      then (raise value_error, s)
      else with_deadline key expires_at (put_if_absent now checked_at key value s)

module _ {ℓ} {V : Type ℓ} ⦃e : Eq V⦄ where
  -- `expected = none` asks for an absent key, and `value = none` deletes. The capacity check prunes
  -- once more, which may drop the key with its deadline before the key is written.
  unfoldable pub compare_and_set :
      ℕ → ℕ → String → Option V → Option V → MemoryStore V → Result StoreError Bool × MemoryStore V
  unfolding delete
  compare_and_set now checked_at key expected none s =
      let s' = prune_expired now s in
      if not (same (lookup key s'.items) expected) then (ok false, s') else (ok true, delete key s')
  compare_and_set now checked_at key expected (some value) s =
      let s' = prune_expired now s in
      let checked = prune_expired checked_at s' in
      if not (same (lookup key s'.items) expected)
      then (ok false, s')
      else if lacks_room key checked
      then (raise capacity_reached, checked)
      else (ok true, record checked { items = insert key value checked.items })
