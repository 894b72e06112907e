-- ===== src/Store/View.antt =====
-- What a client of a `MemoryStore` sees at a time: values that may have a deadline. The view is the
-- abstract map that the methods implement.
use pympp.Prelude.{
  ℕ, ◌≤◌, ◌≡◌, refl, ◌⊎◌, inl, inr, String, Bool, true, false, Option, none, some, [], ◌∷◌, arith,
  leb, eq_iff, if◌then◌else◌, is_some, length, Bool-cases,
}
use pympp.Prelude.Dict.{Dict, lookup, lookup-remove}
use pympp.Store.{MemoryStore, drop_key, prune_loop, prune_expired}
use pympp.Store.Unique.{Unique, remove-Unique, length-remove-le}

-- A value and its deadline, if the deadline is not over.
abbrev pub clip {ℓ} : {V : Type ℓ} → ℕ → V → Option ℕ → Option (V × Option ℕ)
clip t v none = some (v, none)
clip t v (some d) = if leb d t then none else some (v, some d)

abbrev pub value_of {ℓ} : {V : Type ℓ} → Option (V × Option ℕ) → Option V
value_of none = none
value_of (some (v, d)) = some v

abbrev pub Room : Option ℕ → ℕ → Type 0
Room none n = Unit
Room (some m) n = n ≤ m

expired : ℕ → String → Dict ℕ → Bool
expired now k dl = elim (lookup k dl) [ none ↦ false | some t ↦ leb t now ]

module _ {ℓ} {V : Type ℓ} where
  unfoldable pub view : ℕ → MemoryStore V → String → Option (V × Option ℕ)
  view t s k = elim (lookup k s.items) [
    | none ↦ none
    | some v ↦ clip t v (lookup k s.expiry_deadlines)
  ]

  -- Deadlines name each key once and only keys that are there, and the capacity is kept.
  pub record IsValid (s : MemoryStore V) : Type ℓ where
    pub unique : Unique s.expiry_deadlines
    pub keyed :
        (k : String) → (lookup k s.expiry_deadlines ≡ none) ⊎ (is_some (lookup k s.items) ≡ true)
    pub room : Room s.max_entries (length s.items)

  prune_loop-items :
      (now : ℕ) (k : String) (dl : Dict ℕ) (s : MemoryStore V)
      → Unique dl
      → lookup k (prune_loop now dl s).items ≡ (if expired now k dl then none else lookup k s.items)
  unfolding prune_loop lookup expired
  prune_loop-items now k [] s u = refl
  prune_loop-items now k ((j, t) ∷ rest) s u = ground (
    arith,
    eq_iff j k,
    lookup-remove j k s.items,
    prune_loop-items now k rest s u.1,
    prune_loop-items now k rest (drop_key j s) u.1,
  )

  prune_loop-deadlines :
      (now : ℕ) (k : String) (dl : Dict ℕ) (s : MemoryStore V)
      → Unique dl
      → lookup k (prune_loop now dl s).expiry_deadlines
        ≡ (if expired now k dl then none else lookup k s.expiry_deadlines)
  unfolding prune_loop lookup expired
  prune_loop-deadlines now k [] s u = refl
  prune_loop-deadlines now k ((j, t) ∷ rest) s u = ground (
    arith,
    eq_iff j k,
    lookup-remove j k s.expiry_deadlines,
    prune_loop-deadlines now k rest s u.1,
    prune_loop-deadlines now k rest (drop_key j s) u.1,
  )

  record Shrunk (s s' : MemoryStore V) : Type ℓ where
    unique : Unique s'.expiry_deadlines
    entries : s'.max_entries ≡ s.max_entries
    size : length s'.items ≤ length s.items

  prune_loop-Shrunk :
      (now : ℕ) (dl : Dict ℕ) (s : MemoryStore V)
      → Unique s.expiry_deadlines
      → Shrunk s (prune_loop now dl s)
  unfolding prune_loop
  prune_loop-Shrunk now [] s u = record { unique = u; entries = refl; size = omega arith }
  prune_loop-Shrunk now ((j, t) ∷ rest) s u = elim (Bool-cases (leb t now)) [
    | inl e ↦
        let r =
          prune_loop-Shrunk now rest (drop_key j s)
            (unfold drop_key in remove-Unique j s.expiry_deadlines u) in
        rw e (record {
          unique = r.unique;
          entries = unfold drop_key in r.entries;
          size = unfold drop_key in omega (arith, r.size, length-remove-le j s.items);
        })
    | inr e ↦ rw e (prune_loop-Shrunk now rest s u)
  ]

  -- After a pruning the keys that are there are those that are visible.
  pub prune-visible :
      (now : ℕ) (s : MemoryStore V) (k : String)
      → IsValid s
      → lookup k (prune_expired now s).items ≡ value_of (view now s k)
  unfolding prune_expired view expired
  prune-visible now s k v = ground (arith, prune_loop-items now k s.expiry_deadlines s v.unique)

  -- A pruning is not visible, then or later.
  pub prune-view :
      (now t : ℕ) (s : MemoryStore V) (k : String)
      → IsValid s
      → now ≤ t
      → view t (prune_expired now s) k ≡ view t s k
  unfolding prune_expired view expired
  prune-view now t s k v h = ground (
    arith,
    prune_loop-items now k s.expiry_deadlines s v.unique,
    prune_loop-deadlines now k s.expiry_deadlines s v.unique,
  )

  -- A pruning leaves a key with no deadline as it is.
  pub prune_undated :
      (now : ℕ) (s : MemoryStore V) (k : String)
      → IsValid s
      → lookup k s.expiry_deadlines ≡ none
      → (lookup k (prune_expired now s).items ≡ lookup k s.items)
        × (lookup k (prune_expired now s).expiry_deadlines ≡ none)
  unfolding prune_expired expired
  prune_undated now s k v h = (
    ground (arith, prune_loop-items now k s.expiry_deadlines s v.unique),
    ground (arith, prune_loop-deadlines now k s.expiry_deadlines s v.unique),
  )

  pub prune-IsValid : (now : ℕ) (s : MemoryStore V) → IsValid s → IsValid (prune_expired now s)
  unfolding prune_expired expired
  prune-IsValid now s v =
      let r = prune_loop-Shrunk now s.expiry_deadlines s v.unique in
      record {
        unique = r.unique;
        keyed = λ k. ground (
          arith,
          v.keyed k,
          prune_loop-items now k s.expiry_deadlines s v.unique,
          prune_loop-deadlines now k s.expiry_deadlines s v.unique,
        );
        room = rw r.entries (Room-mono s.max_entries (length s.items) _ r.size v.room);
      }
    where
      Room-mono : (o : Option ℕ) (n m : ℕ) → m ≤ n → Room o n → Room o m
      Room-mono none n m h r = tt
      Room-mono (some c) n m h r = omega arith
