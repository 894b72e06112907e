-- ===== src/Store/Unique.antt =====
-- The deadlines of a store name each key once.
use pympp.Prelude.{
  suc, ◌≤◌, ◌≡◌, refl, String, none, some, [], ◌∷◌, arith, eq_iff, str_eq, Bool-cases, inl, inr,
  length,
}
use pympp.Prelude.Dict.{Dict, lookup, insert, remove, lookup-insert, lookup-remove}

module _ {ℓ} {V : Type ℓ} where
  -- As in every Python dict, a key stands once.
  abbrev pub Unique : Dict V → Type ℓ
  Unique [] = Unit
  Unique ((k, v) ∷ d) = (lookup k d ≡ none) × Unique d

  pub insert-Unique : (k : String) (v : V) (d : Dict V) → Unique d → Unique (insert k v d)
  unfolding insert lookup
  insert-Unique k v [] u = (refl, tt)
  insert-Unique k v ((j, w) ∷ d) u = elim (Bool-cases (str_eq j k)) [
    | inl e ↦ rw e (ground (arith, eq_iff j k), u.1)
    | inr e ↦ rw e (
      rw (lookup-insert k j v d) (ground (arith, eq_iff j k, eq_iff k j)),
      insert-Unique k v d u.1,
    )
  ]

  pub remove-Unique : (k : String) (d : Dict V) → Unique d → Unique (remove k d)
  unfolding remove
  remove-Unique k [] u = tt
  remove-Unique k ((j, v) ∷ d) u = elim (Bool-cases (str_eq j k)) [
    | inl e ↦ rw e (remove-Unique k d u.1)
    | inr e ↦ rw e (rw (lookup-remove k j d) (ground arith), remove-Unique k d u.1)
  ]

  pub length-remove-le : (k : String) (d : Dict V) → length (remove k d) ≤ length d
  unfolding remove
  length-remove-le k [] = omega arith
  length-remove-le k ((j, v) ∷ d) = ground (arith, length-remove-le k d)

  pub length-insert :
      (k : String) (v : V) (d : Dict V)
      → length (insert k v d) ≡ elim (lookup k d) [ none ↦ suc (length d) | some w ↦ length d ]
  unfolding insert lookup
  length-insert k v [] = refl
  length-insert k v ((j, w) ∷ d) = ground (arith, length-insert k v d)
