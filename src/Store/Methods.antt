-- ===== src/Store/Methods.antt =====
-- The methods of `MemoryStore` as operations on the abstract map that `view` shows.
use pympp.Prelude.{
  ℕ, ◌≤◌, ◌≡◌, ◌≢◌, refl, ◌∙◌, sym, Bool, ◌⊎◌, inl, inr, String, true, false, Option, none, some,
  arith, str_eq, if◌then◌else◌, Bool-cases,
}
use pympp.Prelude.Dict.{lookup}
use pympp.Prelude.Eq.{Eq, same, same_iff}
use pympp.Prelude.Result.{Result, ok, raise}
use pympp.Store.{
  StoreError, lacks_room, MemoryStore, capacity_reached, prune_expired, compare_and_set,
}
use pympp.Store.View.{view, value_of, IsValid, prune-visible, prune-view}
use pympp.Store.Effects.{pruned_twice, with_value, delete-sees, swap-sees, full-absent}

module _ {ℓ} {V : Type ℓ} ⦃e : Eq V⦄ where
  -- What `compare_and_set` does, by its answer. The view is that of any later time.
  pub Swaps :
      ℕ
      → ℕ
      → ℕ
      → MemoryStore V
      → String
      → Option V
      → Option V
      → Result StoreError Bool × MemoryStore V
      → Type ℓ
  Swaps now checked_at t s k expected value (answer, s') =
      ((answer ≡ ok true)
        × (value_of (view now s k) ≡ expected)
        × ((j : String)
            → view t s' j
              ≡ (if str_eq k j then with_value checked_at t value (view now s k) else view t s j)))
      ⊎ (((answer ≡ ok false)
            × (value_of (view now s k) ≢ expected)
            × ((j : String) → view t s' j ≡ view t s j))
          ⊎ ((answer ≡ raise capacity_reached)
              × (value_of (view now s k) ≡ expected)
              × (view checked_at s k ≡ none)
              × ((j : String) → view t s' j ≡ view t s j)))

  -- `compare_and_set` returns true exactly when it writes, and only if the value visible at its first
  -- pruning is the expected one; then the key's value is the new one, with the key's deadline unless
  -- that is over when the capacity is checked, in which case the new value has no deadline, and nothing
  -- else changes at any later time. Otherwise nothing changes: it returns false exactly if the visible
  -- value is another one, and raises only if the key is not visible when the capacity is checked.
  pub compare_and_set_lem :
      (now checked_at t : ℕ) (s : MemoryStore V) (k : String) (expected value : Option V)
      → IsValid s
      → now ≤ checked_at
      → checked_at ≤ t
      → Swaps now checked_at t s k expected value
          (compare_and_set now checked_at k expected value s)
  unfolding compare_and_set Swaps
  compare_and_set_lem now checked_at t s k expected none i h g =
      let s' = prune_expired now s in
      let later : now ≤ t = omega arith in
      let visible = prune-visible now s k i in
      let test = same_iff (lookup k s'.items) expected in
      elim (Bool-cases (same (lookup k s'.items) expected)) [
        | inl agrees ↦
            rw agrees
              (inl (refl, sym visible ∙ test.0 agrees, λ j. delete-sees now t s k j i later))
        | inr differs ↦ rw differs (
            inr (
              inl
                (refl, λ q. cc (test.1 (visible ∙ q), differs), λ j. prune-view now t s j i later)))
      ]
  compare_and_set_lem now checked_at t s k expected (some v) i h g =
      let s' = prune_expired now s in
      let later : now ≤ t = omega arith in
      let visible = prune-visible now s k i in
      let test = same_iff (lookup k s'.items) expected in
      elim (Bool-cases (same (lookup k s'.items) expected)) [
        | inl agrees ↦
            let found = sym visible ∙ test.0 agrees in
            rw agrees (elim (Bool-cases (lacks_room k (prune_expired checked_at s'))) [
              | inl full ↦ rw full (
                  inr (
                    inr (
                      refl,
                      found,
                      full-absent now checked_at s k i h full,
                      λ j. pruned_twice now checked_at t s j i h g,
                    )))
              | inr room ↦
                  rw room (inl (refl, found, λ j. swap-sees now checked_at t s k j v i h g))
            ])
        | inr differs ↦ rw differs (
            inr (
              inl
                (refl, λ q. cc (test.1 (visible ∙ q), differs), λ j. prune-view now t s j i later)))
      ]
