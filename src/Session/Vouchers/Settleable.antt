-- ===== src/Session/Vouchers/Settleable.antt =====
-- Which voucher `resolve_settleable_voucher` returns.
use pympp.Prelude.{
  ℕ, ◌≤◌, ◌<◌, ◌≡◌, refl, ◌||◌, Option, none, some, List, [], ◌∷◌, arith, leb, ltb, All, Bool-cases,
  inl, inr,
}
use pympp.Session.State.{SignedVoucher, RetainedVoucher, ChannelState}
use pympp.Session.Vouchers.{accepted_vouchers, settleable_from, resolve_settleable_voucher}

-- Above what settled, and within what was spent.
abbrev pub Eligible : ℕ → ℕ → RetainedVoucher → Type 0
Eligible spent settled v = (settled < v.cumulative_amount) × (v.cumulative_amount ≤ spent)

module _ {ℓ} (P : RetainedVoucher → Type ℓ) (spent settled : ℕ) where
  abbrev Found : Option RetainedVoucher → Type ℓ
  Found none = Unit
  Found (some b) = Eligible spent settled b × P b

  abbrev Covers : Option RetainedVoucher → ℕ → Type 0
  Covers none n = Unit
  Covers (some b) n = b.cumulative_amount ≤ n

  -- The result of the loop over `vs` from the voucher `best`.
  abbrev Best : Option RetainedVoucher → List RetainedVoucher → Option RetainedVoucher → Type ℓ
  Best best vs none = (best ≡ none) × All (λ w. ¬ Eligible spent settled w) vs × Unit {ℓ}
  Best best vs (some b) =
      Eligible spent settled b
      × P b
      × Covers best b.cumulative_amount
      × All (λ w. Eligible spent settled w → w.cumulative_amount ≤ b.cumulative_amount) vs

  Best-skip :
      (best : Option RetainedVoucher) (v : RetainedVoucher) (vs : List RetainedVoucher)
      (r : Option RetainedVoucher)
      → ¬ Eligible spent settled v
      → Best best vs r
      → Best best (v ∷ vs) r
  Best-skip best v vs none h b = (b.0, (h, b.1), b.2)
  Best-skip best v vs (some r) h b = (b.0, b.1, b.2, ((λ e. absurd (h e)), b.3))

  Best-keep :
      (o : RetainedVoucher) (v : RetainedVoucher) (vs : List RetainedVoucher)
      (r : Option RetainedVoucher)
      → v.cumulative_amount ≤ o.cumulative_amount
      → Best (some o) vs r
      → Best (some o) (v ∷ vs) r
  Best-keep o v vs none h b = cc (b.0)
  Best-keep o v vs (some r) h b = (b.0, b.1, b.2, ((λ e. omega arith), b.3))

  Best-take :
      (best : Option RetainedVoucher) (v : RetainedVoucher) (vs : List RetainedVoucher)
      (r : Option RetainedVoucher)
      → Covers best v.cumulative_amount
      → Best (some v) vs r
      → Best best (v ∷ vs) r
  Best-take best v vs none h b = cc (b.0)
  Best-take none v vs (some r) h b = (b.0, b.1, tt, ((λ e. b.2), b.3))
  Best-take (some o) v vs (some r) h b = (b.0, b.1, omega arith, ((λ e. b.2), b.3))

  settleable_from-Best :
      (best : Option RetainedVoucher) (vs : List RetainedVoucher)
      → Found best
      → All P vs
      → Best best vs (settleable_from spent settled best vs)
  unfolding settleable_from
  settleable_from-Best none [] f a = (refl, tt, tt)
  settleable_from-Best (some b) [] f a = (f.0, f.1, omega arith, tt)
  settleable_from-Best none (v ∷ vs) f a =
      elim (Bool-cases (ltb spent v.cumulative_amount || leb v.cumulative_amount settled)) [
        | inl e ↦
            rw e (Best-skip none v vs _ (λ h. ground arith) (settleable_from-Best none vs f a.1))
        | inr e ↦ rw e (
            Best-take none v vs _ tt
              (settleable_from-Best (some v) vs ((ground arith, ground arith), a.0) a.1))
      ]
  settleable_from-Best (some b) (v ∷ vs) f a =
      elim (Bool-cases (ltb spent v.cumulative_amount || leb v.cumulative_amount settled)) [
        | inl e ↦
            rw e (
              Best-skip (some b) v vs _ (λ h. ground arith)
                (settleable_from-Best (some b) vs f a.1))
        | inr e ↦ elim (Bool-cases (ltb b.cumulative_amount v.cumulative_amount)) [
          | inl l ↦
              rw (e, l)
                (Best-take (some b) v vs _ (ground arith)
                  (settleable_from-Best (some v) vs ((ground arith, ground arith), a.0) a.1))
          | inr l ↦
              rw (e, l) (Best-keep b v vs _ (ground arith) (settleable_from-Best (some b) vs f a.1))
        ]
      ]

-- What `resolve_settleable_voucher` promises of its result.
abbrev pub Settleable {ℓ} :
    (RetainedVoucher → Type ℓ) → ChannelState → Option SignedVoucher → Type ℓ
Settleable P c none =
    All (λ w. ¬ Eligible c.spent c.settled_on_chain w) (accepted_vouchers c) × Unit {ℓ}
Settleable P c (some v) =
    let plain : RetainedVoucher = record {
      cumulative_amount = v.cumulative_amount;
      signature = v.signature;
    } in
    (v.channel_id ≡ c.channel_id)
    × Eligible c.spent c.settled_on_chain plain
    × P plain
    × All (λ w. Eligible c.spent c.settled_on_chain w → w.cumulative_amount ≤ v.cumulative_amount)
        (accepted_vouchers c)

-- The voucher to settle is above the settled amount, at most `spent` and the largest such accepted
-- voucher, and has any property that all accepted vouchers have. There is none only if no
-- accepted voucher is above the settled amount and at most `spent`.
pub resolve_settleable_voucher_lem {ℓ} :
    (P : RetainedVoucher → Type ℓ) (c : ChannelState)
    → All P (accepted_vouchers c)
    → Settleable P c (resolve_settleable_voucher c)
unfolding resolve_settleable_voucher
resolve_settleable_voucher_lem P c a =
    by_result (settleable_from c.spent c.settled_on_chain none (accepted_vouchers c))
      (settleable_from-Best P c.spent c.settled_on_chain none (accepted_vouchers c) tt a)
  where
    by_result :
        (r : Option RetainedVoucher)
        → Best P c.spent c.settled_on_chain none (accepted_vouchers c) r
        → Settleable P c (elim r [
          | none ↦ none
          | some v ↦ some (record {
            channel_id = c.channel_id;
            cumulative_amount = v.cumulative_amount;
            signature = v.signature;
          })
        ])
    by_result none b = (b.1, tt)
    by_result (some v) b = (refl, b.0, b.1, b.3)
