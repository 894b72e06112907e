-- ===== src/Session/Vouchers/Retained.antt =====
-- What `retain_vouchers` keeps.
use mathlib.Core.List.{Perm}
use Prim.Native.Nat.{min}
use pympp.Prelude.{
  ℕ, zero, suc, ◌≤◌, ◌<◌, ◌≡◌, refl, ap, ◌∙◌, inl, inr, none, some, List, [], ◌∷◌, arith, leb, ltb,
  length, select, All, Bool-cases,
}
use pympp.Session.State.{RetainedVoucher, ChannelState}
use pympp.Session.Vouchers.Thinning.{length-thin}
use pympp.Session.Vouchers.Dropping.{PartOf, sorted-perm, thin-PartOf, PartOf-sorted}
use pympp.Session.Vouchers.{
  accepted_vouchers, insert_sorted, sorted, narrowest_index, delete_at, thin, within,
  max_retained_vouchers, retain_vouchers,
}

-- Amounts rise along the list, from `lo` on.
abbrev pub Ascending : ℕ → List RetainedVoucher → Type 0
Ascending lo [] = Unit
Ascending lo (v ∷ vs) = (lo ≤ v.cumulative_amount) × Ascending v.cumulative_amount vs

pub Ascending-mono : {m n : ℕ} (vs : List RetainedVoucher) → m ≤ n → Ascending n vs → Ascending m vs
Ascending-mono [] h a = tt
Ascending-mono (v ∷ vs) h a = (omega arith, a.1)

insert_sorted-Ascending :
    (lo : ℕ) (v : RetainedVoucher) (vs : List RetainedVoucher)
    → lo ≤ v.cumulative_amount
    → Ascending lo vs
    → Ascending lo (insert_sorted v vs)
unfolding insert_sorted
insert_sorted-Ascending lo v [] h a = (h, tt)
insert_sorted-Ascending lo v (w ∷ ws) h a =
    ground (arith, insert_sorted-Ascending w.cumulative_amount v ws)

sorted-Ascending : (vs : List RetainedVoucher) → Ascending 0 (sorted vs)
unfolding sorted
sorted-Ascending [] = tt
sorted-Ascending (v ∷ vs) =
    insert_sorted-Ascending 0 v (sorted vs) (omega arith) (sorted-Ascending vs)

delete_at-Ascending :
    (i lo : ℕ) (vs : List RetainedVoucher) → Ascending lo vs → Ascending lo (delete_at i vs)
unfolding delete_at
delete_at-Ascending i lo [] a = tt
delete_at-Ascending zero lo (v ∷ vs) a = Ascending-mono vs a.0 a.1
delete_at-Ascending (suc i) lo (v ∷ vs) a = (a.0, delete_at-Ascending i v.cumulative_amount vs a.1)

length-insert_sorted :
    (v : RetainedVoucher) (vs : List RetainedVoucher)
    → length (insert_sorted v vs) ≡ suc (length vs)
unfolding insert_sorted
length-insert_sorted v [] = refl
length-insert_sorted v (w ∷ ws) = ground (arith, length-insert_sorted v ws)

length-sorted : (vs : List RetainedVoucher) → length (sorted vs) ≡ length vs
unfolding sorted
length-sorted [] = refl
length-sorted (v ∷ vs) = omega (arith, length-insert_sorted v (sorted vs), length-sorted vs)

module _ {ℓ} (P : RetainedVoucher → Type ℓ) where
  insert_sorted-All :
      (v : RetainedVoucher) (vs : List RetainedVoucher)
      → P v
      → All P vs
      → All P (insert_sorted v vs)
  unfolding insert_sorted
  insert_sorted-All v [] p a = (p, tt)
  insert_sorted-All v (w ∷ ws) p a =
      elim (Bool-cases (leb v.cumulative_amount w.cumulative_amount)) [
        | inl e ↦ rw e (p, a)
        | inr e ↦ rw e (a.0, insert_sorted-All v ws p a.1)
      ]

  sorted-All : (vs : List RetainedVoucher) → All P vs → All P (sorted vs)
  unfolding sorted
  sorted-All [] a = tt
  sorted-All (v ∷ vs) a = insert_sorted-All v (sorted vs) a.0 (sorted-All vs a.1)

  delete_at-All : (i : ℕ) (vs : List RetainedVoucher) → All P vs → All P (delete_at i vs)
  unfolding delete_at
  delete_at-All i [] a = tt
  delete_at-All zero (v ∷ vs) a = a.1
  delete_at-All (suc i) (v ∷ vs) a = (a.0, delete_at-All i vs a.1)

  thin-All :
      (fuel settled highest : ℕ) (kept : List RetainedVoucher)
      → All P kept
      → All P (thin fuel settled highest kept)
  unfolding thin
  thin-All zero settled highest kept a = a
  thin-All (suc fuel) settled highest kept a =
      let i = narrowest_index highest settled 0 none 0 kept in
      elim (Bool-cases (ltb max_retained_vouchers (length kept))) [
        | inl e ↦ rw e (thin-All fuel settled highest (delete_at i kept) (delete_at-All i kept a))
        | inr e ↦ rw e a
      ]

  select-within-All :
      (settled highest : ℕ) (vs : List RetainedVoucher)
      → All P vs
      → All
          (λ v. (settled < v.cumulative_amount) × (v.cumulative_amount < highest) × P v)
          (select (within settled highest) vs)
  select-within-All settled highest [] a = tt
  select-within-All settled highest (v ∷ vs) a =
      let ih = select-within-All settled highest vs a.1 in
      elim (Bool-cases (within settled highest v)) [
        | inl e ↦ rw e ((ground arith, ground arith, a.0), ih)
        | inr e ↦ rw e ih
      ]

thin-Ascending :
    (fuel settled highest lo : ℕ) (kept : List RetainedVoucher)
    → Ascending lo kept
    → Ascending lo (thin fuel settled highest kept)
unfolding thin
thin-Ascending zero settled highest lo kept a = a
thin-Ascending (suc fuel) settled highest lo kept a =
    let i = narrowest_index highest settled 0 none 0 kept in
    elim (Bool-cases (ltb max_retained_vouchers (length kept))) [
      | inl e ↦ rw e (
          thin-Ascending fuel settled highest lo (delete_at i kept)
            (delete_at-Ascending i lo kept a))
      | inr e ↦ rw e a
    ]

thin-small :
    (fuel settled highest : ℕ) (kept : List RetainedVoucher)
    → length kept ≤ max_retained_vouchers
    → thin fuel settled highest kept ≡ kept
unfolding thin
thin-small zero settled highest kept h = refl
thin-small (suc fuel) settled highest kept h =
    elim (Bool-cases (ltb max_retained_vouchers (length kept))) [
      | inl e ↦ absurd (ground arith)
      | inr e ↦ rw e
    ]

-- The vouchers that may be kept: the accepted ones strictly between the settled and the new amount.
abbrev pub candidates : ChannelState → ℕ → ℕ → List RetainedVoucher
candidates current settled highest = select (within settled highest) (accepted_vouchers current)

-- Of the accepted vouchers strictly between the settled amount and the new highest amount,
-- `retain_vouchers` keeps all up to 16 and else exactly 16, each at most as often as it was accepted,
-- in ascending order: with the vouchers dropped, the kept ones are a permutation of those eligible.
-- Each kept voucher lies strictly between the two amounts and has any property that all accepted
-- vouchers have.
pub retain_vouchers_keeps {ℓ} :
    (P : RetainedVoucher → Type ℓ) (current : ChannelState) (highest settled : ℕ)
    → All P (accepted_vouchers current)
    → let kept = retain_vouchers current highest (some settled) in
      (length kept ≡ min (length (candidates current settled highest)) max_retained_vouchers)
      × PartOf kept (candidates current settled highest)
      × Ascending 0 kept
      × All (λ v. (settled < v.cumulative_amount) × (v.cumulative_amount < highest) × P v) kept
unfolding retain_vouchers
retain_vouchers_keeps P current highest settled a =
    let found = candidates current settled highest in
    let kept = sorted found in
    (
      length-thin (length kept) settled highest kept (omega arith)
          ∙ ap (λ n. min n max_retained_vouchers) (length-sorted found),
      PartOf-sorted found _ (thin-PartOf (length kept) settled highest kept),
      thin-Ascending (length kept) settled highest 0 kept (sorted-Ascending found),
      thin-All _ (length kept) settled highest kept
          (sorted-All _ found (select-within-All P settled highest (accepted_vouchers current) a)),
    )

-- Where at most 16 accepted vouchers are eligible, the kept ones are a permutation of them.
pub retain_vouchers-perm :
    (current : ChannelState) (highest settled : ℕ)
    → length (candidates current settled highest) ≤ max_retained_vouchers
    → Perm (retain_vouchers current highest (some settled)) (candidates current settled highest)
unfolding retain_vouchers
retain_vouchers-perm current highest settled h =
    let found = candidates current settled highest in
    rw
      (thin-small (length (sorted found)) settled highest (sorted found)
        (omega (arith, length-sorted found)))
      (sorted-perm found)
