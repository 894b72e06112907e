-- ===== src/Session/Examples/Vouchers.antt =====
-- Retained vouchers of a sample channel.
use Prim.Native.Nat.{min}
use pympp.Prelude.{ℕ, ◌<◌, ◌≡◌, refl, some, [], ◌∷◌, arith, All, length}
use pympp.Session.State.{ChannelState, RetainedVoucher}
use pympp.Session.Vouchers.{
  accepted_vouchers, retain_vouchers, resolve_settleable_voucher, thin, max_retained_vouchers,
}
use pympp.Session.Vouchers.Retained.{Ascending, candidates, retain_vouchers_keeps}
use pympp.Session.Vouchers.Dropping.{PartOf}
use pympp.Session.Vouchers.Thinning.{length-thin}
use pympp.Session.Vouchers.Settleable.{Settleable, resolve_settleable_voucher_lem}
use pympp.Session.Examples.{channel}

abbrev of_amount : ℕ → RetainedVoucher
of_amount amount = record { cumulative_amount = amount; signature = "sig" }

abbrev sample : ChannelState
sample = record channel {
  spent = 50;
  settled_on_chain = 30;
  retained_vouchers = some (of_amount 20 ∷ of_amount 45 ∷ of_amount 60 ∷ []);
}

abbrev Signed : RetainedVoucher → Type 0
Signed v = v.signature ≡ "sig"

retain_vouchers_keeps_example :
    (length (retain_vouchers sample 150 (some 30))
      ≡ min (length (candidates sample 30 150)) max_retained_vouchers)
    × PartOf (retain_vouchers sample 150 (some 30)) (candidates sample 30 150)
    × Ascending 0 (retain_vouchers sample 150 (some 30))
    × All
        (λ v. (30 < v.cumulative_amount) × (v.cumulative_amount < 150) × Signed v)
        (retain_vouchers sample 150 (some 30))
unfolding accepted_vouchers
retain_vouchers_keeps_example =
    retain_vouchers_keeps Signed sample 150 30 (refl, (refl, (refl, (refl, tt))))

length-thin_example :
    length (thin 3 0 100 (of_amount 20 ∷ of_amount 45 ∷ of_amount 60 ∷ [])) ≡ min 3 16
length-thin_example =
    length-thin 3 0 100 (of_amount 20 ∷ of_amount 45 ∷ of_amount 60 ∷ []) (omega arith)

resolve_settleable_voucher_lem_example :
    Settleable Signed sample (resolve_settleable_voucher sample)
unfolding accepted_vouchers
resolve_settleable_voucher_lem_example =
    resolve_settleable_voucher_lem Signed sample (refl, (refl, (refl, (refl, tt))))
