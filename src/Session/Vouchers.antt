-- ===== src/Session/Vouchers.antt =====
-- _store.py: the vouchers that a channel keeps below its highest one, and the one to settle.
pub mod Thinning
pub mod Dropping
pub mod Retained
pub mod Settleable
use Prim.Native.Nat.{◌-◌}
use pympp.Prelude.{
  ℕ, zero, suc, ◌+◌, ◌≤◌, ◌<◌, ◌≡◌, Bool, true, false, ◌&&◌, ◌||◌, Option, none, some, List, [],
  ◌∷◌, ◌++◌, arith, leb, ltb, ◌==◌, if◌then◌else◌, or_else, length, select,
}
use pympp.Session.State.{SignedVoucher, RetainedVoucher, ChannelState}

abbrev pub max_retained_vouchers : ℕ
max_retained_vouchers = 16

-- `list(state.retained_vouchers or ())` and the highest voucher behind them
unfoldable pub accepted_vouchers : ChannelState → List RetainedVoucher
accepted_vouchers state = or_else state.retained_vouchers [] ++ elim state.highest_voucher [
  | none ↦ []
  | some v ↦ record { cumulative_amount = v.cumulative_amount; signature = v.signature } ∷ []
]

-- `sorted(…, key=lambda v: v.cumulative_amount)`, which is stable
unfoldable pub insert_sorted : RetainedVoucher → List RetainedVoucher → List RetainedVoucher
insert_sorted v [] = v ∷ []
insert_sorted v (w ∷ ws) =
    if leb v.cumulative_amount w.cumulative_amount then v ∷ w ∷ ws else w ∷ insert_sorted v ws

unfoldable pub sorted : List RetainedVoucher → List RetainedVoucher
unfolding insert_sorted
sorted [] = []
sorted (v ∷ vs) = insert_sorted v (sorted vs)

-- The amount above an index: that of the next voucher, or the new highest amount at the end.
abbrev above : ℕ → List RetainedVoucher → ℕ
above highest [] = highest
above highest (w ∷ ws) = w.cumulative_amount

-- The `for index in range(len(kept))` loop. `below`, `index`, `narrowest` and `drop` are its
-- variables. The list is ascending within (settled, highest), so `above - below` is not negative.
unfoldable pub narrowest_index : ℕ → ℕ → ℕ → Option ℕ → ℕ → List RetainedVoucher → ℕ
narrowest_index highest below index narrowest drop [] = drop
narrowest_index highest below index narrowest drop (v ∷ rest) =
    let gap = above highest rest - below in
    let narrower : Bool = elim narrowest [ none ↦ true | some n ↦ ltb gap n ] in
    narrowest_index highest v.cumulative_amount (suc index)
      (if narrower then some gap else narrowest) (if narrower then index else drop) rest

-- `del kept[drop]`
unfoldable pub delete_at : ℕ → List RetainedVoucher → List RetainedVoucher
delete_at i [] = []
delete_at zero (v ∷ vs) = vs
delete_at (suc i) (v ∷ vs) = v ∷ delete_at i vs

-- The `while len(kept) > MAX_RETAINED_VOUCHERS` loop, on fuel: each round deletes one voucher.
unfoldable pub thin : ℕ → ℕ → ℕ → List RetainedVoucher → List RetainedVoucher
unfolding narrowest_index delete_at
thin zero settled highest kept = kept
thin (suc fuel) settled highest kept =
    let rest =
      thin fuel settled highest (delete_at (narrowest_index highest settled 0 none 0 kept) kept) in
    if ltb max_retained_vouchers (length kept) then rest else kept

abbrev pub within : ℕ → ℕ → RetainedVoucher → Bool
within settled highest v = ltb settled v.cumulative_amount && ltb v.cumulative_amount highest

unfoldable pub retain_vouchers : ChannelState → ℕ → Option ℕ → List RetainedVoucher
unfolding accepted_vouchers sorted thin
retain_vouchers current highest_voucher_amount settled_on_chain =
    let settled = or_else settled_on_chain current.settled_on_chain in
    let kept =
      sorted (select (within settled highest_voucher_amount) (accepted_vouchers current)) in
    thin (length kept) settled highest_voucher_amount kept

-- The loop of `resolve_settleable_voucher` from the voucher found so far.
unfoldable pub settleable_from :
    ℕ → ℕ → Option RetainedVoucher → List RetainedVoucher → Option RetainedVoucher
settleable_from spent settled best [] = best
settleable_from spent settled best (v ∷ vs) =
    let skip = ltb spent v.cumulative_amount || leb v.cumulative_amount settled in
    let larger : Bool = elim best [
      | none ↦ true
      | some b ↦ ltb b.cumulative_amount v.cumulative_amount
    ] in
    settleable_from spent settled (if skip then best else if larger then some v else best) vs

unfoldable pub resolve_settleable_voucher : ChannelState → Option SignedVoucher
unfolding accepted_vouchers settleable_from
resolve_settleable_voucher state =
    elim (settleable_from state.spent state.settled_on_chain none (accepted_vouchers state)) [
      | none ↦ none
      | some v ↦ some (record {
        channel_id = state.channel_id;
        cumulative_amount = v.cumulative_amount;
        signature = v.signature;
      })
    ]
