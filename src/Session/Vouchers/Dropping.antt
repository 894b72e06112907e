-- ===== src/Session/Vouchers/Dropping.antt =====
-- What sorting and thinning the vouchers of `retain_vouchers` keep: a part of the list they are given.
use mathlib.Core.List.{Perm, perm_middle, append_assoc}
use mathlib.Core.List.Perm
use pympp.Prelude.{ℕ, zero, suc, inl, inr, none, List, [], ◌∷◌, ◌++◌, leb, ltb, length, Bool-cases}
use pympp.Session.State.{RetainedVoucher}
use pympp.Session.Vouchers.{
  insert_sorted, sorted, narrowest_index, delete_at, thin, max_retained_vouchers,
}

insert_sorted-perm :
    (v : RetainedVoucher) (vs : List RetainedVoucher) → Perm (insert_sorted v vs) (v ∷ vs)
unfolding insert_sorted
insert_sorted-perm v [] = Perm.refl (v ∷ [])
insert_sorted-perm v (w ∷ ws) = elim (Bool-cases (leb v.cumulative_amount w.cumulative_amount)) [
  | inl e ↦ rw e (Perm.refl (v ∷ w ∷ ws))
  | inr e ↦ rw e (Perm.trans (Perm.cons w (insert_sorted-perm v ws)) (Perm.swap v w ws))
]

pub sorted-perm : (vs : List RetainedVoucher) → Perm (sorted vs) vs
unfolding sorted
sorted-perm [] = Perm.refl []
sorted-perm (v ∷ vs) = Perm.trans (insert_sorted-perm v (sorted vs)) (Perm.cons v (sorted-perm vs))

-- A list keeps some of the members of another, each as often at most, and drops the others.
abbrev pub PartOf : List RetainedVoucher → List RetainedVoucher → Type 0
PartOf kept vs = (dropped : List RetainedVoucher) × Perm (dropped ++ kept) vs

delete_at-PartOf : (i : ℕ) (vs : List RetainedVoucher) → PartOf (delete_at i vs) vs
unfolding delete_at
delete_at-PartOf i [] = ([], Perm.refl [])
delete_at-PartOf zero (v ∷ vs) = (v ∷ [], Perm.refl (v ∷ vs))
delete_at-PartOf (suc i) (v ∷ vs) =
    let (dropped, p) = delete_at-PartOf i vs in
    (dropped, Perm.trans (perm_middle dropped (delete_at i vs)) (Perm.cons v p))

PartOf-trans :
    (kept less vs : List RetainedVoucher) → PartOf less kept → PartOf kept vs → PartOf less vs
PartOf-trans kept less vs (d, p) (d', p') =
    (d' ++ d, rw (append_assoc d' d less) (Perm.trans (Perm.append_left d' p) p'))

pub thin-PartOf :
    (fuel settled highest : ℕ) (kept : List RetainedVoucher)
    → PartOf (thin fuel settled highest kept) kept
unfolding thin
thin-PartOf zero settled highest kept = ([], Perm.refl kept)
thin-PartOf (suc fuel) settled highest kept =
    let i = narrowest_index highest settled 0 none 0 kept in
    elim (Bool-cases (ltb max_retained_vouchers (length kept))) [
      | inl e ↦ rw e (
          PartOf-trans (delete_at i kept) _ kept
            (thin-PartOf fuel settled highest (delete_at i kept)) (delete_at-PartOf i kept))
      | inr e ↦ rw e ([], Perm.refl kept)
    ]

pub PartOf-sorted : (vs kept : List RetainedVoucher) → PartOf kept (sorted vs) → PartOf kept vs
PartOf-sorted vs kept (dropped, p) = (dropped, Perm.trans p (sorted-perm vs))
