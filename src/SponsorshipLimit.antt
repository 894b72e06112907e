-- ===== src/SponsorshipLimit.antt =====
-- src/mpp/methods/tempo/session/server/_sponsorship_limit.py: how many opens and top-ups a sponsor pays for a payer
-- in a day. A day is its number, as ISO dates are ordered; the stored text of a usage is not modelled: what cannot
-- be read is `none`, like a missing record. The updates are those of the compare-and-set loop, which applies one
-- to the value that it replaces.
pub mod Tally
mod Examples
use pympp.Prelude.{
  ℕ, suc, ◌+◌, ◌-◌, Bool, true, false, not, ◌&&◌, Option, none, some, List, [], ◌∷◌, leb, ◌==◌,
  if◌then◌else◌,
}

pub data SponsoredAction : Type 0 where
  open_channel top_up_channel : SponsoredAction

pub record Usage : Type 0 where
  pub day : ℕ
  pub opens : ℕ
  pub top_ups : ℕ

-- `usage[action]`
abbrev pub used : SponsoredAction → Usage → ℕ
used open_channel u = u.opens
used top_up_channel u = u.top_ups

-- `{**usage, action: n}`
abbrev pub with_used : SponsoredAction → ℕ → Usage → Usage
with_used open_channel n u = record u { opens = n }
with_used top_up_channel n u = record u { top_ups = n }

-- `_read_usage`: the stored usage of the day, or of a later one
abbrev pub read_usage : Option Usage → ℕ → Usage
read_usage none day = record { day = day; opens = 0; top_ups = 0 }
read_usage (some u) day = if leb day u.day then u else record { day = day; opens = 0; top_ups = 0 }

-- The `take` of `reserve`: the usage to store, unless the limit is used up
unfoldable pub take : SponsoredAction → ℕ → Usage → Option Usage
take action per_day u =
    if leb per_day (used action u) then none else some (with_used action (used action u + 1) u)

-- The `give_back` of `release`
unfoldable pub give_back : SponsoredAction → ℕ → Usage → Option Usage
give_back action day u =
    if not (u.day == day)
    then none
    else if leb (used action u) 0
    then none
    else some (with_used action (used action u - 1) u)

-- `_update_usage`: what is stored after a change
abbrev pub stored_after : Option Usage → Option Usage → Option Usage
stored_after stored none = stored
stored_after stored (some u) = some u

-- The calls for one payer on one chain
pub data LimitCall : Type 0 where
  reserve_slot : SponsoredAction → ℕ → LimitCall
  release_slot : SponsoredAction → ℕ → LimitCall

-- The usage that a call stores, if it stores one
unfoldable pub update_usage : ℕ → LimitCall → Option Usage → Option Usage
unfolding take give_back
update_usage per_day (reserve_slot action day) stored = take action per_day (read_usage stored day)
update_usage per_day (release_slot action day) stored = give_back action day (read_usage stored day)

-- `limit_fee_payer`: the fee payer of a credential, whether there is a slot to give back, and the usage that is stored, if one
-- is. `opening`
-- is the action and the transaction of a credential that opens or tops up a channel, and `verified_payer` the payer that
-- the transaction's signatures prove, with its usage.
unfoldable pub limit_fee_payer {ℓ κ} :
    {F : Type ℓ} {T : Type κ}
    → (T → Option (Option Usage))
    → Option F
    → Option ℕ
    → Option (SponsoredAction × T)
    → ℕ
    → (Option F × Bool) × Option Usage
unfolding update_usage
limit_fee_payer verified_payer none limit opening day = ((none, false), none)
limit_fee_payer verified_payer (some f) none opening day = ((some f, false), none)
limit_fee_payer verified_payer (some f) (some per_day) none day = ((some f, false), none)
limit_fee_payer verified_payer (some f) (some per_day) (some (action, transaction)) day =
    elim (verified_payer transaction) [
      | none ↦ ((none, false), none)
      | some stored ↦ elim (update_usage per_day (reserve_slot action day) stored) [
        | none ↦ ((none, false), none)
        | some u ↦ ((some f, true), some u)
      ]
    ]
