-- ===== src/Store/Effects.antt =====
-- What the prunings and writes of a `MemoryStore` show at a later time.
use pympp.Prelude.{
  ℕ, ◌≤◌, ◌≡◌, ap, ◌∙◌, sym, leb, String, true, Option, none, some, arith, eq_iff, str_eq,
  if◌then◌else◌,
}
use pympp.Prelude.Dict.{lookup, insert, lookup-insert, lookup-remove}
use pympp.Store.{lacks_room, MemoryStore, prune_expired, delete}
use pympp.Store.View.{view, clip, IsValid, prune-visible, prune-view, prune-IsValid}

module _ {ℓ} {V : Type ℓ} where
  -- The view with one key's cell replaced.
  abbrev pub Sees : ℕ → MemoryStore V → MemoryStore V → String → Option (V × Option ℕ) → Type ℓ
  Sees t s s' k cell = (j : String) → view t s' j ≡ (if str_eq k j then cell else view t s j)

  insert-Sees :
      (now t : ℕ) (s : MemoryStore V) (k : String) (v : V)
      → IsValid s
      → now ≤ t
      → lookup k (prune_expired now s).items ≡ none
      → let s' = prune_expired now s in
        Sees t s (record s' { items = insert k v s'.items }) k (some (v, none))
  unfolding view
  insert-Sees now t s k v i h n j =
      let s' = prune_expired now s in
      ground (
        arith,
        (prune-IsValid now s i).keyed k,
        prune-view now t s j i h,
        lookup-insert k j v s'.items,
        eq_iff k j,
      )

  -- Both prunings are not visible from the second on.
  pub pruned_twice :
      (now checked_at t : ℕ) (s : MemoryStore V) (j : String)
      → IsValid s
      → now ≤ checked_at
      → checked_at ≤ t
      → view t (prune_expired checked_at (prune_expired now s)) j ≡ view t s j
  pruned_twice now checked_at t s j i h g =
      prune-view checked_at t (prune_expired now s) j (prune-IsValid now s i) g
      ∙ prune-view now t s j i (omega arith)

  -- A key that is not there at the first pruning is not there at the second.
  pruned_absent :
      (now checked_at : ℕ) (s : MemoryStore V) (k : String)
      → IsValid s
      → now ≤ checked_at
      → lookup k (prune_expired now s).items ≡ none
      → lookup k (prune_expired checked_at (prune_expired now s)).items ≡ none
  unfolding view
  pruned_absent now checked_at s k i h n =
      let s' = prune_expired now s in
      ground (arith, prune-visible checked_at s' k (prune-IsValid now s i))

  pub claim-Sees :
      (now checked_at t : ℕ) (s : MemoryStore V) (k : String) (v : V)
      → IsValid s
      → now ≤ checked_at
      → checked_at ≤ t
      → lookup k (prune_expired now s).items ≡ none
      → let checked = prune_expired checked_at (prune_expired now s) in
        Sees t s (record checked { items = insert k v checked.items }) k (some (v, none))
  claim-Sees now checked_at t s k v i h g n j =
      let later : now ≤ t = omega arith in
      rw (sym (prune-view now t s j i later)) (
        insert-Sees checked_at t (prune_expired now s) k v (prune-IsValid now s i) g
          (pruned_absent now checked_at s k i h n) j)

  -- A new value in a cell, with the cell's deadline.
  abbrev kept : ℕ → V → Option (V × Option ℕ) → Option (V × Option ℕ)
  kept t v none = some (v, none)
  kept t v (some (w, none)) = some (v, none)
  kept t v (some (w, some d)) = clip t v (some d)

  -- What a swap leaves of a cell: a deadline that is over when the capacity is checked is lost.
  abbrev pub with_value : ℕ → ℕ → Option V → Option (V × Option ℕ) → Option (V × Option ℕ)
  with_value checked_at t none old = none
  with_value checked_at t (some v) none = some (v, none)
  with_value checked_at t (some v) (some (w, none)) = some (v, none)
  with_value checked_at t (some v) (some (w, some d)) =
      if leb d checked_at then some (v, none) else clip t v (some d)

  pub delete-sees :
      (now t : ℕ) (s : MemoryStore V) (k j : String)
      → IsValid s
      → now ≤ t
      → view t (delete k (prune_expired now s)) j ≡ (if str_eq k j then none else view t s j)
  unfolding view delete
  delete-sees now t s k j i h =
      let s' = prune_expired now s in
      ground (
        arith,
        prune-view now t s j i h,
        lookup-remove k j s'.items,
        lookup-remove k j s'.expiry_deadlines,
      )

  update-sees :
      (now t : ℕ) (s : MemoryStore V) (k j : String) (v : V)
      → IsValid s
      → now ≤ t
      → let s' = prune_expired now s in
        view t (record s' { items = insert k v s'.items }) j
        ≡ (if str_eq k j then kept t v (view now s k) else view t s j)
  unfolding view
  update-sees now t s k j v i h =
      let s' = prune_expired now s in
      ground (
        arith,
        (prune-IsValid now s i).keyed k,
        prune-view now now s k i (omega arith),
        prune-view now t s j i h,
        prune-visible now s k i,
        lookup-insert k j v s'.items,
        eq_iff k j,
      )

  kept-later :
      (now checked_at t : ℕ) (s : MemoryStore V) (k : String) (v : V)
      → now ≤ checked_at
      → kept t v (view checked_at s k) ≡ with_value checked_at t (some v) (view now s k)
  unfolding view
  kept-later now checked_at t s k v h = ground arith

  pub swap-sees :
      (now checked_at t : ℕ) (s : MemoryStore V) (k j : String) (v : V)
      → IsValid s
      → now ≤ checked_at
      → checked_at ≤ t
      → let checked = prune_expired checked_at (prune_expired now s) in
        view t (record checked { items = insert k v checked.items }) j
        ≡ (if str_eq k j then with_value checked_at t (some v) (view now s k) else view t s j)
  swap-sees now checked_at t s k j v i h g =
      let s' = prune_expired now s in
      let later : now ≤ t = omega arith in
      let old : kept t v (view checked_at s' k) ≡ with_value checked_at t (some v) (view now s k) =
        ap (kept t v) (prune-view now checked_at s k i h) ∙ kept-later now checked_at t s k v h in
      rw (sym old, sym (prune-view now t s j i later))
        (update-sees checked_at t s' k j v (prune-IsValid now s i) g)

  pub full-absent :
      (now checked_at : ℕ) (s : MemoryStore V) (k : String)
      → IsValid s
      → now ≤ checked_at
      → lacks_room k (prune_expired checked_at (prune_expired now s)) ≡ true
      → view checked_at s k ≡ none
  unfolding lacks_room
  full-absent now checked_at s k i h full =
      let s' = prune_expired now s in
      let visible = prune-visible checked_at s' k (prune-IsValid now s i) in
      let same_view = prune-view now checked_at s k i h in ground arith
