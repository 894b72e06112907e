-- ===== src/SponsorshipLimit/Tally.antt =====
-- No day's reservations exceed the limit by more than what was given back on that day.
use pympp.Prelude.{
  ℕ, ◌+◌, ◌≤◌, ◌<◌, ◌≡◌, ◌⊎◌, refl, arith, Bool, true, false, ◌&&◌, Option, none, some, List, [],
  ◌∷◌, ◌==◌, if◌then◌else◌,
}
use pympp.SponsorshipLimit.{
  SponsoredAction, open_channel, top_up_channel, Usage, used, take, give_back, stored_after,
  LimitCall, reserve_slot, release_slot, update_usage,
}

-- Of one action on one day: the reservations granted, and those given back
pub record Counts : Type 0 where
  pub granted : ℕ
  pub given_back : ℕ

abbrev pub same_action : SponsoredAction → SponsoredAction → Bool
same_action open_channel open_channel = true
same_action open_channel top_up_channel = false
same_action top_up_channel open_channel = false
same_action top_up_channel top_up_channel = true

-- A call that stores a usage of the day counts.
abbrev pub counted : SponsoredAction → ℕ → LimitCall → Option Usage → Counts → Counts
counted action day call none c = c
counted action day (reserve_slot a d) (some u) c =
    if same_action a action && u.day == day then record c { granted = c.granted + 1 } else c
counted action day (release_slot a d) (some u) c =
    if same_action a action && u.day == day then record c { given_back = c.given_back + 1 } else c

-- A run of calls from a stored usage, with the counts
unfoldable pub tally : SponsoredAction → ℕ → ℕ → List LimitCall → Option Usage → Counts → Counts
unfolding update_usage
tally action day per_day [] stored c = c
tally action day per_day (call ∷ calls) stored c =
    let change = update_usage per_day call stored in
    tally action day per_day calls (stored_after stored change) (counted action day call change c)

-- What the stored usage says of the counts
abbrev Inv : SponsoredAction → ℕ → ℕ → Option Usage → Counts → Type 0
Inv action day per_day none c = (c.granted ≡ 0) × (c.given_back ≡ 0)
Inv action day per_day (some u) c =
    ((u.day < day) × (c.granted ≡ 0) × (c.given_back ≡ 0))
    ⊎ ((u.day ≡ day) × (used action u + c.given_back ≡ c.granted) × (used action u ≤ per_day))
    ⊎ ((day < u.day) × (c.granted ≤ per_day + c.given_back))

call-Inv :
    (action : SponsoredAction) (day per_day : ℕ) (call : LimitCall) (stored : Option Usage)
    (c : Counts)
    → Inv action day per_day stored c
    → Inv action day per_day
        (stored_after stored (update_usage per_day call stored))
        (counted action day call (update_usage per_day call stored) c)
unfolding update_usage take give_back
call-Inv open_channel day per_day (reserve_slot open_channel d) none c h = ground arith
call-Inv open_channel day per_day (reserve_slot open_channel d) (some u) c h = ground arith
call-Inv open_channel day per_day (reserve_slot top_up_channel d) none c h = ground arith
call-Inv open_channel day per_day (reserve_slot top_up_channel d) (some u) c h = ground arith
call-Inv open_channel day per_day (release_slot open_channel d) none c h = ground arith
call-Inv open_channel day per_day (release_slot open_channel d) (some u) c h = ground arith
call-Inv open_channel day per_day (release_slot top_up_channel d) none c h = ground arith
call-Inv open_channel day per_day (release_slot top_up_channel d) (some u) c h = ground arith
call-Inv top_up_channel day per_day (reserve_slot open_channel d) none c h = ground arith
call-Inv top_up_channel day per_day (reserve_slot open_channel d) (some u) c h = ground arith
call-Inv top_up_channel day per_day (reserve_slot top_up_channel d) none c h = ground arith
call-Inv top_up_channel day per_day (reserve_slot top_up_channel d) (some u) c h = ground arith
call-Inv top_up_channel day per_day (release_slot open_channel d) none c h = ground arith
call-Inv top_up_channel day per_day (release_slot open_channel d) (some u) c h = ground arith
call-Inv top_up_channel day per_day (release_slot top_up_channel d) none c h = ground arith
call-Inv top_up_channel day per_day (release_slot top_up_channel d) (some u) c h = ground arith

Inv-granted :
    (action : SponsoredAction) (day per_day : ℕ) (stored : Option Usage) (c : Counts)
    → Inv action day per_day stored c
    → c.granted ≤ per_day + c.given_back
Inv-granted action day per_day none c h = omega (arith, h.0)
Inv-granted action day per_day (some u) c h = ground arith

tally-Inv :
    (action : SponsoredAction) (day per_day : ℕ) (calls : List LimitCall) (stored : Option Usage)
    (c : Counts)
    → Inv action day per_day stored c
    → (tally action day per_day calls stored c).granted
      ≤ per_day + (tally action day per_day calls stored c).given_back
unfolding tally
tally-Inv action day per_day [] stored c h = Inv-granted action day per_day stored c h
tally-Inv action day per_day (call ∷ calls) stored c h =
    tally-Inv action day per_day calls _ _ (call-Inv action day per_day call stored c h)

-- In any sequence of `reserve` and `release` calls for a payer, with days in any order, the reservations of an action
-- that were counted on a day are at most `per_day` more than those that were given back on it.
pub tally_bounded :
    (action : SponsoredAction) (day per_day : ℕ) (calls : List LimitCall)
    → (tally action day per_day calls none (record { granted = 0; given_back = 0 })).granted
      ≤ per_day
        + (tally action day per_day calls none (record { granted = 0; given_back = 0 })).given_back
tally_bounded action day per_day calls = tally-Inv action day per_day calls none _ (refl, refl)
