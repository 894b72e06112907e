-- ===== src/Session/Schedule.antt =====
-- _schedule.py: when a scheduled settlement is due, and the lease that lets one worker run it.
-- `parse_iso_ms` stands for `datetime.fromisoformat` with its `ValueError`; times are arguments.
pub mod Due
use pympp.Prelude.{
  ℕ, ◌+◌, String, Bool, true, false, not, ◌&&◌, Option, none, some, ltb, str_eq, if◌then◌else◌,
  or_else, is_some,
}
use pympp.Prelude.Int.{ℤ, pos, sub_ℕ, at_least}
use pympp.Session.State.{ChannelState, Backend, precompile, contract, external}
use pympp.Session.Vouchers.{resolve_settleable_voucher}

abbrev pub scheduled_settlement_lease_ms : ℕ
scheduled_settlement_lease_ms = 300000

pub record ResolvedSettlementSchedule : Type 0 where
  pub amount : Option ℕ
  pub interval_ms : Option ℕ
  pub units : Option ℕ

pub record SettlementProgress : Type 0 where
  pub amount : ℤ
  pub units : ℤ
  pub elapsed_ms : Option ℤ

abbrev is_precompile : Option Backend → Bool
is_precompile (some precompile) = true
is_precompile (some contract) = false
is_precompile (some external) = false
is_precompile none = false

unfoldable pub is_precompile_state : ChannelState → Bool
is_precompile_state state = is_precompile state.backend

-- `a or b` on texts: an empty text counts as missing.
abbrev pub text_or : Option String → String → String
text_or none d = d
text_or (some s) d = if str_eq s "" then d else s

-- A threshold that is set and reached.
abbrev pub reached : Option ℕ → ℤ → Bool
reached none progress = false
reached (some threshold) progress = at_least threshold progress

module _ (parse_iso_ms : String → Option ℕ) where
  unfoldable pub resolve_settlement_progress : ChannelState → ℕ → Option SettlementProgress
  unfolding is_precompile_state sub_ℕ
  resolve_settlement_progress channel now =
      if not (is_precompile_state channel)
      then none
      else if not (is_some (resolve_settleable_voucher channel))
      then none
      else some (record {
        amount =
            sub_ℕ channel.spent (or_else channel.last_settlement_spent channel.settled_on_chain);
        units = sub_ℕ channel.units (or_else channel.last_settlement_units 0);
        elapsed_ms = elim (parse_iso_ms (text_or channel.last_settlement_at channel.created_at)) [
          | none ↦ none
          | some boundary ↦ some (sub_ℕ now boundary)
        ];
      })

  abbrev pub due_by : ChannelState → ResolvedSettlementSchedule → SettlementProgress → Bool
  due_by channel schedule progress =
      if not channel.finalized && ltb 0 channel.close_requested_at
      then true
      else if reached schedule.units progress.units
      then true
      else if reached schedule.amount progress.amount
      then true
      else reached schedule.interval_ms (or_else progress.elapsed_ms (pos 0))

  unfoldable pub is_settlement_due : ChannelState → Option ResolvedSettlementSchedule → ℕ → Bool
  unfolding resolve_settlement_progress at_least
  is_settlement_due channel none now = false
  is_settlement_due channel (some schedule) now = elim (resolve_settlement_progress channel now) [
    | none ↦ false
    | some progress ↦ due_by channel schedule progress
  ]

  -- The `update` of `claim_scheduled_settlement`, with the `claimed` that it sets. `now` is
  -- read before it, and `due_at` by `is_settlement_due` in it.
  unfoldable pub claim_update :
      ResolvedSettlementSchedule
      → ℕ
      → ℕ
      → ℕ
      → String
      → Option ChannelState
      → Option ChannelState × Bool
  claim_update schedule lease_ms now due_at owner none = (none, false)
  claim_update schedule lease_ms now due_at owner (some current) =
      let held : Bool = elim current.scheduled_settlement_lease [
        | none ↦ false
        | some lease ↦ ltb now lease.expires_at
      ] in
      if not (is_settlement_due current (some schedule) due_at)
      then (some current, false)
      else if held
      then (some current, false)
      else (
        some (record current {
          scheduled_settlement_lease = some (record { expires_at = now + lease_ms; owner = owner });
        }),
        true,
      )

unfoldable pub owns_lease : ChannelState → String → Bool
owns_lease current lease_owner = elim current.scheduled_settlement_lease [
  | none ↦ false
  | some lease ↦ str_eq lease.owner lease_owner
]

-- The `update` of `mark_settlement_complete`.
unfoldable pub complete_update : String → String → Option ChannelState → Option ChannelState
unfolding owns_lease
complete_update lease_owner at none = none
complete_update lease_owner at (some current) = some (
    if owns_lease current lease_owner
    then record current { scheduled_settlement_lease = none; last_settlement_at = some at }
    else current)

-- The `update` of `renew_scheduled_settlement`.
unfoldable pub renew_update : String → ℕ → ℕ → Option ChannelState → Option ChannelState
unfolding owns_lease
renew_update lease_owner lease_ms now none = none
renew_update lease_owner lease_ms now (some current) = some (
    if owns_lease current lease_owner
    then record current {
      scheduled_settlement_lease =
          some (record { expires_at = now + lease_ms; owner = lease_owner });
    }
    else current)

-- The `update` of `release_scheduled_settlement`.
unfoldable pub release_update : String → Option ChannelState → Option ChannelState
unfolding owns_lease
release_update lease_owner none = none
release_update lease_owner (some current) = some (
    if owns_lease current lease_owner
    then record current { scheduled_settlement_lease = none }
    else current)
