-- ===== src/Session/Vouchers/Thinning.antt =====
-- The thinning loop of `retain_vouchers`: how many vouchers it leaves, and which it drops.
use Prim.Native.Nat.{◌-◌, min}
use pympp.Prelude.{
  ℕ, zero, suc, ◌+◌, ◌≤◌, ◌<◌, ◌≡◌, refl, ◌∙◌, ap, ◌⊎◌, inl, inr, none, some, List, [], ◌∷◌, arith,
  ltb, length, Bool-cases,
}
use pympp.Session.State.{RetainedVoucher}
use pympp.Session.Vouchers.{above, narrowest_index, delete_at, thin, max_retained_vouchers}

-- The room between the neighbours of the voucher at an index.
abbrev pub gap_at : ℕ → ℕ → List RetainedVoucher → ℕ → ℕ
gap_at highest below [] j = 0
gap_at highest below (v ∷ rest) zero = above highest rest - below
gap_at highest below (v ∷ rest) (suc j) = gap_at highest v.cumulative_amount rest j

abbrev pub IsLowerBound : ℕ → ℕ → ℕ → List RetainedVoucher → Type 0
IsLowerBound m highest below vs = (j : ℕ) → j < length vs → m ≤ gap_at highest below vs j

IsLowerBound-cons :
    (m highest below : ℕ) (v : RetainedVoucher) (rest : List RetainedVoucher)
    → m ≤ above highest rest - below
    → IsLowerBound m highest v.cumulative_amount rest
    → IsLowerBound m highest below (v ∷ rest)
IsLowerBound-cons m highest below v rest h hs zero lt = h
IsLowerBound-cons m highest below v rest h hs (suc j) lt = hs j (omega arith)

-- The scan from a narrowest gap `n` ends there, if no later gap is narrower, or at the first of the
-- narrowest later gaps.
abbrev Scanned : ℕ → ℕ → ℕ → ℕ → ℕ → List RetainedVoucher → ℕ → Type 0
Scanned highest below index n drop vs r =
    ((r ≡ drop) × IsLowerBound n highest below vs)
    ⊎ ((i : ℕ) × (r ≡ index + i)
        × (i < length vs)
        × (gap_at highest below vs i < n)
        × IsLowerBound (gap_at highest below vs i) highest below vs)

Scanned-narrower :
    (highest below index n drop r : ℕ) (v : RetainedVoucher) (rest : List RetainedVoucher)
    → let gap = above highest rest - below in
      gap < n
      → Scanned highest v.cumulative_amount (suc index) gap index rest r
      → Scanned highest below index n drop (v ∷ rest) r
Scanned-narrower highest below index n drop r v rest lt (inl (e, all)) =
    inr
      (0, omega arith, omega arith, lt, IsLowerBound-cons _ highest below v rest (omega arith) all)
Scanned-narrower highest below index n drop r v rest lt (inr (i, e, il, gl, all)) = inr (
  suc i,
  omega arith,
  omega arith,
  omega arith,
  IsLowerBound-cons _ highest below v rest (omega arith) all,
)

Scanned-wider :
    (highest below index n drop r : ℕ) (v : RetainedVoucher) (rest : List RetainedVoucher)
    → let gap = above highest rest - below in
      n ≤ gap
      → Scanned highest v.cumulative_amount (suc index) n drop rest r
      → Scanned highest below index n drop (v ∷ rest) r
Scanned-wider highest below index n drop r v rest le (inl (e, all)) =
    inl (e, IsLowerBound-cons _ highest below v rest le all)
Scanned-wider highest below index n drop r v rest le (inr (i, e, il, gl, all)) = inr (
  suc i,
  omega arith,
  omega arith,
  omega arith,
  IsLowerBound-cons _ highest below v rest (omega arith) all,
)

narrowest_index-Scanned :
    (highest below index n drop : ℕ) (vs : List RetainedVoucher)
    → Scanned highest below index n drop vs (narrowest_index highest below index (some n) drop vs)
unfolding narrowest_index
narrowest_index-Scanned highest below index n drop [] = inl (refl, λ j lt. absurd (omega arith))
narrowest_index-Scanned highest below index n drop (v ∷ rest) =
    let gap = above highest rest - below in
    elim (Bool-cases (ltb gap n)) [
      | inl e ↦ rw e (
          Scanned-narrower highest below index n drop _ v rest (ground arith)
            (narrowest_index-Scanned highest v.cumulative_amount (suc index) gap index rest))
      | inr e ↦ rw e (
          Scanned-wider highest below index n drop _ v rest (ground arith)
            (narrowest_index-Scanned highest v.cumulative_amount (suc index) n drop rest))
    ]

first-Scanned :
    (highest below gap r : ℕ) (v : RetainedVoucher) (rest : List RetainedVoucher)
    → gap ≡ above highest rest - below
    → Scanned highest v.cumulative_amount 1 gap 0 rest r
    → (r < suc (length rest))
      × IsLowerBound (gap_at highest below (v ∷ rest) r) highest below (v ∷ rest)
first-Scanned highest below gap zero v rest e (inl (e', all)) =
    (omega arith, rw e at (IsLowerBound-cons _ highest below v rest (omega arith) all))
first-Scanned highest below gap (suc r) v rest e (inl (e', all)) = absurd (omega arith)
first-Scanned highest below gap zero v rest e (inr (i, e', il, gl, all)) = absurd (omega arith)
first-Scanned highest below gap (suc r) v rest e (inr (i, e', il, gl, all)) =
    let same : i ≡ r = omega arith in
    let narrower = rw same at gl in
    (omega arith, IsLowerBound-cons _ highest below v rest (omega arith) (rw same at all))

-- The index that the loop drops is in range, and no other voucher has closer neighbours.
pub narrowest_index_least :
    (settled highest : ℕ) (v : RetainedVoucher) (rest : List RetainedVoucher)
    → let i = narrowest_index highest settled 0 none 0 (v ∷ rest) in
      (i < suc (length rest))
      × IsLowerBound (gap_at highest settled (v ∷ rest) i) highest settled (v ∷ rest)
unfolding narrowest_index
narrowest_index_least settled highest v rest =
    let gap = above highest rest - settled in
    first-Scanned highest settled gap _ v rest refl
      (narrowest_index-Scanned highest v.cumulative_amount 1 gap 0 rest)

length-delete_at :
    (i : ℕ) (vs : List RetainedVoucher) → i < length vs → suc (length (delete_at i vs)) ≡ length vs
unfolding delete_at
length-delete_at i [] h = absurd (omega arith)
length-delete_at zero (v ∷ vs) h = refl
length-delete_at (suc i) (v ∷ vs) h = ap suc (length-delete_at i vs (omega arith))

length-thin_round :
    (settled highest : ℕ) (kept : List RetainedVoucher)
    → 0 < length kept
    → suc (length (delete_at (narrowest_index highest settled 0 none 0 kept) kept)) ≡ length kept
length-thin_round settled highest [] h = absurd (omega arith)
length-thin_round settled highest (v ∷ rest) h =
    length-delete_at _ (v ∷ rest) (narrowest_index_least settled highest v rest).0

-- With fuel for the vouchers in excess the loop leaves exactly the limit.
pub length-thin :
    (fuel settled highest : ℕ) (kept : List RetainedVoucher)
    → length kept ≤ fuel + max_retained_vouchers
    → length (thin fuel settled highest kept) ≡ min (length kept) max_retained_vouchers
unfolding thin
length-thin zero settled highest kept h = omega arith
length-thin (suc fuel) settled highest kept h =
    let i = narrowest_index highest settled 0 none 0 kept in
    elim (Bool-cases (ltb max_retained_vouchers (length kept))) [
      | inl e ↦
          let more : max_retained_vouchers < length kept = ground arith in
          let one_less = length-thin_round settled highest kept (omega arith) in
          rw e (length-thin fuel settled highest (delete_at i kept) (omega arith) ∙ omega arith)
      | inr e ↦ rw e (ground arith)
    ]
