-- ===== src/Store/Calls.antt =====
-- Histories of calls of a `MemoryStore`, and that every call keeps its invariant and its capacity.
use pympp.Prelude.{
  ℕ, ◌≡◌, inl, inr, String, true, false, Option, none, some, List, [], ◌∷◌, arith, leb, eq_iff,
  is_some, Bool-cases,
}
use pympp.Prelude.Dict.{lookup, insert, remove, lookup-insert, lookup-remove, lookup-insert_self}
use pympp.Prelude.Eq.{Eq, same}
use pympp.Store.{
  MemoryStore, prune_expired, lacks_room, get, put, delete, put_if_absent, put_if_absent_until,
  compare_and_set,
}
use pympp.Store.Unique.{insert-Unique, remove-Unique, length-remove-le, length-insert}
use pympp.Store.View.{IsValid, prune-IsValid}

-- A call of a method, with the times at which it reads the clock.
pub data Call {ℓ} (V : Type ℓ) : Type ℓ where
  gets : ℕ → String → Call V
  puts : ℕ → String → V → Call V
  deletes : String → Call V
  claims : ℕ → ℕ → String → V → Call V
  claims_until : ℕ → ℕ → ℕ → String → V → ℕ → Call V
  swaps : ℕ → ℕ → String → Option V → Option V → Call V

module _ {ℓ} {V : Type ℓ} ⦃e : Eq V⦄ where
  unfoldable pub perform : MemoryStore V → Call V → MemoryStore V
  unfolding get put delete put_if_absent put_if_absent_until compare_and_set
  perform s (gets now k) = (get now k s).1
  perform s (puts now k v) = (put now k v s).1
  perform s (deletes k) = delete k s
  perform s (claims now checked_at k v) = (put_if_absent now checked_at k v s).1
  perform s (claims_until validated_at now checked_at k v expires_at) =
      (put_if_absent_until validated_at now checked_at k v expires_at s).1
  perform s (swaps now checked_at k expected value) =
      (compare_and_set now checked_at k expected value s).1

  unfoldable pub run : MemoryStore V → List (Call V) → MemoryStore V
  run s [] = s
  run s (c ∷ cs) = run (perform s c) cs

  insert-IsValid :
      (s : MemoryStore V) (k : String) (v : V)
      → IsValid s
      → lacks_room k s ≡ false
      → IsValid (record s { items = insert k v s.items })
  unfolding lacks_room
  insert-IsValid s k v i room = record {
    unique = i.unique;
    keyed = λ j. ground (arith, i.keyed j, lookup-insert k j v s.items, eq_iff k j);
    room = ground (arith, length-insert k v s.items);
  }

  undated-IsValid :
      (s : MemoryStore V) (k : String)
      → IsValid s
      → IsValid (record s { expiry_deadlines = remove k s.expiry_deadlines })
  undated-IsValid s k i = record {
    unique = remove-Unique k s.expiry_deadlines i.unique;
    keyed = λ j. ground (arith, i.keyed j, lookup-remove k j s.expiry_deadlines);
    room = i.room;
  }

  dated-IsValid :
      (s : MemoryStore V) (k : String) (d : ℕ)
      → IsValid s
      → is_some (lookup k s.items) ≡ true
      → IsValid (record s { expiry_deadlines = insert k d s.expiry_deadlines })
  dated-IsValid s k d i there = record {
    unique = insert-Unique k d s.expiry_deadlines i.unique;
    keyed = λ j. ground (arith, i.keyed j, lookup-insert k j d s.expiry_deadlines, eq_iff k j);
    room = i.room;
  }

  delete-IsValid : (s : MemoryStore V) (k : String) → IsValid s → IsValid (delete k s)
  unfolding delete
  delete-IsValid s k i = record {
    unique = remove-Unique k s.expiry_deadlines i.unique;
    keyed = λ j.
        ground (arith, i.keyed j, lookup-remove k j s.expiry_deadlines, lookup-remove k j s.items);
    room = ground (arith, length-remove-le k s.items);
  }

  put-IsValid :
      (now : ℕ) (k : String) (v : V) (s : MemoryStore V) → IsValid s → IsValid (put now k v s).1
  unfolding put
  put-IsValid now k v s i =
      let s' = prune_expired now s in
      let i' = prune-IsValid now s i in
      elim (Bool-cases (lacks_room k s')) [
        | inl full ↦ rw full i'
        | inr room ↦ rw room (
            undated-IsValid (record s' { items = insert k v s'.items }) k
              (insert-IsValid s' k v i' room))
      ]

  pub claim-IsValid :
      (now checked_at : ℕ) (k : String) (v : V) (s : MemoryStore V)
      → IsValid s
      → IsValid (put_if_absent now checked_at k v s).1
  unfolding put_if_absent
  claim-IsValid now checked_at k v s i =
      let s' = prune_expired now s in
      let i' = prune-IsValid now s i in
      let checked = prune_expired checked_at s' in
      let valid = prune-IsValid checked_at s' i' in
      elim (Bool-cases (is_some (lookup k s'.items))) [
        | inl there ↦ rw there i'
        | inr absent ↦ rw absent (elim (Bool-cases (lacks_room k checked)) [
          | inl full ↦ rw full valid
          | inr room ↦ rw room (insert-IsValid checked k v valid room)
        ])
      ]

  claim_until-IsValid :
      (validated_at now checked_at : ℕ) (k : String) (v : V) (d : ℕ) (s : MemoryStore V)
      → IsValid s
      → IsValid (put_if_absent_until validated_at now checked_at k v d s).1
  unfolding put_if_absent_until
  claim_until-IsValid validated_at now checked_at k v d s i =
      let s' = prune_expired now s in
      let i' = prune-IsValid now s i in
      let checked = prune_expired checked_at s' in
      let valid = prune-IsValid checked_at s' i' in
      elim (Bool-cases (leb d validated_at)) [
        | inl past ↦ rw past i
        | inr future ↦ rw future (elim (Bool-cases (is_some (lookup k s'.items))) [
          | inl there ↦ rw there i'
          | inr absent ↦ rw absent (elim (Bool-cases (lacks_room k checked)) [
            | inl full ↦ rw full valid
            | inr room ↦ rw room (
                dated-IsValid (record checked { items = insert k v checked.items }) k d
                  (insert-IsValid checked k v valid room)
                  (rw (lookup-insert_self k v checked.items)))
          ])
        ])
      ]

  swap-IsValid :
      (now checked_at : ℕ) (k : String) (expected value : Option V) (s : MemoryStore V)
      → IsValid s
      → IsValid (compare_and_set now checked_at k expected value s).1
  unfolding compare_and_set
  swap-IsValid now checked_at k expected none s i =
      let s' = prune_expired now s in
      let i' = prune-IsValid now s i in
      elim (Bool-cases (same (lookup k s'.items) expected)) [
        | inl agrees ↦ rw agrees (delete-IsValid s' k i')
        | inr differs ↦ rw differs i'
      ]
  swap-IsValid now checked_at k expected (some v) s i =
      let s' = prune_expired now s in
      let i' = prune-IsValid now s i in
      let checked = prune_expired checked_at s' in
      let valid = prune-IsValid checked_at s' i' in
      elim (Bool-cases (same (lookup k s'.items) expected)) [
        | inl agrees ↦ rw agrees (elim (Bool-cases (lacks_room k checked)) [
          | inl full ↦ rw full valid
          | inr room ↦ rw room (insert-IsValid checked k v valid room)
        ])
        | inr differs ↦ rw differs i'
      ]

  pub perform-IsValid : (s : MemoryStore V) (c : Call V) → IsValid s → IsValid (perform s c)
  unfolding perform
  perform-IsValid s (gets now k) i = prune-IsValid now s i
  perform-IsValid s (puts now k v) i = put-IsValid now k v s i
  perform-IsValid s (deletes k) i = delete-IsValid s k i
  perform-IsValid s (claims now checked_at k v) i = claim-IsValid now checked_at k v s i
  perform-IsValid s (claims_until validated_at now checked_at k v d) i =
      claim_until-IsValid validated_at now checked_at k v d s i
  perform-IsValid s (swaps now checked_at k expected value) i =
      swap-IsValid now checked_at k expected value s i

  -- Whatever calls are made, a store keeps its invariant: deadlines name only keys that are there, each
  -- once, and the number of its items stays within `max_entries`.
  pub run-IsValid : (s : MemoryStore V) (cs : List (Call V)) → IsValid s → IsValid (run s cs)
  unfolding run
  run-IsValid s [] i = i
  run-IsValid s (c ∷ cs) i = run-IsValid (perform s c) cs (perform-IsValid s c i)
