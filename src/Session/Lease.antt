-- ===== src/Session/Lease.antt =====
-- The scheduled-settlement lease among workers.
use pympp.Prelude.{
  ℕ, ◌+◌, ◌<◌, ◌≡◌, ◌≢◌, refl, String, Bool, true, false, Option, none, some, List, [], ◌∷◌, arith,
  eq_iff, if◌then◌else◌,
}
use pympp.Session.State.{ChannelState, ScheduledSettlementLease}
use pympp.Session.Schedule.{
  ResolvedSettlementSchedule, claim_update, renew_update, release_update, complete_update,
}

-- What the workers do to the lease of a stored channel. A claim has its schedule.
pub data LeaseOp : Type 0 where
  claim : ResolvedSettlementSchedule → ℕ → ℕ → ℕ → String → LeaseOp
  renew : String → ℕ → ℕ → LeaseOp
  release : String → LeaseOp
  complete : String → String → LeaseOp

module _ (parse_iso_ms : String → Option ℕ) where
  unfoldable pub perform : Option ChannelState → LeaseOp → Option ChannelState
  unfolding claim_update renew_update release_update complete_update
  perform c (claim schedule lease_ms now due_at owner) =
      (claim_update parse_iso_ms schedule lease_ms now due_at owner c).0
  perform c (renew owner lease_ms now) = renew_update owner lease_ms now c
  perform c (release owner) = release_update owner c
  perform c (complete owner at) = complete_update owner at c

  unfoldable pub claimed : Option ChannelState → LeaseOp → Bool
  unfolding claim_update
  claimed c (claim schedule lease_ms now due_at owner) =
      (claim_update parse_iso_ms schedule lease_ms now due_at owner c).1
  claimed c (renew owner lease_ms now) = false
  claimed c (release owner) = false
  claimed c (complete owner at) = false

  unfoldable pub run : Option ChannelState → List LeaseOp → Option ChannelState
  run c [] = c
  run c (op ∷ ops) = run (perform c op) ops

  -- Whether one of a sequence of operations claims the lease.
  unfoldable pub any_claimed : Option ChannelState → List LeaseOp → Bool
  any_claimed c [] = false
  any_claimed c (op ∷ ops) = if claimed c op then true else any_claimed (perform c op) ops

-- Operations of other workers, whose claims come before a time.
abbrev pub Foreign : String → ℕ → LeaseOp → Type 0
Foreign owner n (claim schedule lease_ms now due_at other) = now < n
Foreign owner n (renew other lease_ms now) = other ≢ owner
Foreign owner n (release other) = other ≢ owner
Foreign owner n (complete other at) = other ≢ owner

abbrev pub AllForeign : String → ℕ → List LeaseOp → Type 0
AllForeign owner n [] = Unit
AllForeign owner n (op ∷ ops) = Foreign owner n op × AllForeign owner n ops

abbrev pub lease_of : Option ChannelState → Option ScheduledSettlementLease
lease_of none = none
lease_of (some c) = c.scheduled_settlement_lease

module _ (parse_iso_ms : String → Option ℕ) (owner : String) (n : ℕ) where
  abbrev Held : Option ChannelState → Type 0
  Held c = lease_of c ≡ some (record { expires_at = n; owner = owner })

  perform-Held :
      (c : ChannelState) (op : LeaseOp)
      → Foreign owner n op
      → Held (some c)
      → Held (perform parse_iso_ms (some c) op) × (claimed parse_iso_ms (some c) op ≡ false)
  unfolding perform claimed
  perform-Held c (claim schedule lease_ms now due_at other) f h = (ground arith, ground arith)
  perform-Held c (renew other lease_ms now) f h = (ground (arith, eq_iff owner other), refl)
  perform-Held c (release other) f h = (ground (arith, eq_iff owner other), refl)
  perform-Held c (complete other at) f h = (ground (arith, eq_iff owner other), refl)

  run-Held :
      (c : Option ChannelState) (ops : List LeaseOp)
      → AllForeign owner n ops
      → Held c
      → Held (run parse_iso_ms c ops) × (any_claimed parse_iso_ms c ops ≡ false)
  unfolding run any_claimed
  run-Held c [] f h = (h, refl)
  run-Held none (op ∷ ops) f h = absurd (ground arith)
  run-Held (some c) (op ∷ ops) f h =
      let first = perform-Held c op f.0 h in
      let rest = run-Held (perform parse_iso_ms (some c) op) ops f.1 first.0 in
      (rest.0, ground arith)

claim_lease :
    (parse_iso_ms : String → Option ℕ) (schedule : ResolvedSettlementSchedule)
    (lease_ms now due_at : ℕ) (owner : String) (c : Option ChannelState)
    → (claim_update parse_iso_ms schedule lease_ms now due_at owner c).1 ≡ true
    → lease_of (claim_update parse_iso_ms schedule lease_ms now due_at owner c).0
      ≡ some (record { expires_at = now + lease_ms; owner = owner })
unfolding claim_update
claim_lease parse_iso_ms schedule lease_ms now due_at owner none h = ground arith
claim_lease parse_iso_ms schedule lease_ms now due_at owner (some c) h = ground arith

-- Once a worker has claimed the lease, no claim before the lease expires succeeds, and the lease stays
-- as claimed, whatever claims, and renewals, releases and completions of other owners, come in
-- between.
pub claim_excludes :
    (parse_iso_ms : String → Option ℕ) (schedule : ResolvedSettlementSchedule)
    (lease_ms now due_at : ℕ) (owner : String) (c : Option ChannelState) (ops : List LeaseOp)
    → (claim_update parse_iso_ms schedule lease_ms now due_at owner c).1 ≡ true
    → AllForeign owner (now + lease_ms) ops
    → let held = (claim_update parse_iso_ms schedule lease_ms now due_at owner c).0 in
      (any_claimed parse_iso_ms held ops ≡ false)
      × (lease_of (run parse_iso_ms held ops)
          ≡ some (record { expires_at = now + lease_ms; owner = owner }))
claim_excludes parse_iso_ms schedule lease_ms now due_at owner c ops h f =
    let r =
      run-Held parse_iso_ms owner (now + lease_ms) _ ops f
        (claim_lease parse_iso_ms schedule lease_ms now due_at owner c h) in
    (r.1, r.0)
