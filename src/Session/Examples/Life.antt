-- ===== src/Session/Examples/Life.antt =====
-- Settlements, histories, leases and closes of a sample channel.
use Prim.Native.Nat.{max}
use pympp.Prelude.{
  ℕ, ◌≤◌, ◌≡◌, ◌⊎◌, ◌↔◌, refl, String, true, false, Option, none, some, [], ◌∷◌, arith, inl, eq_iff,
}
use pympp.Prelude.Result.{ok}
use pympp.Session.State.{ChannelState, PendingSettlement}
use pympp.Session.Close.{
  PendingCloseUpdate, resolve_close_capture_amount, mark_pending_close,
  reconcile_expired_pending_close,
}
use pympp.Session.Credit.{settling}
use pympp.Session.Merge.{open_channel_state}
use pympp.Session.Step.{Reach, accepts, charges}
use pympp.Session.Step
use pympp.Session.Monotone.{Monotone, Reach-Monotone}
use pympp.Session.Invariant.{IsWellFormed, opened-IsWellFormed}
use pympp.Session.Custody.{System, Inv, History, settles, lands, asks}
use pympp.Session.Custody
use pympp.Session.Custody.Safety.{never_overcaptured}
use pympp.Session.Capture.{
  Closable, CloseFailed, cleared, resolve_close_capture_amount_lem, mark_pending_close_lem,
  reconcile_lem,
}
use pympp.Session.Schedule.{is_settlement_due, ResolvedSettlementSchedule, claim_update}
use pympp.Session.Vouchers.{resolve_settleable_voucher}
use pympp.Session.Schedule.Due.{IsDue, is_settlement_due_lem}
use pympp.Session.Lease.{claim, release, any_claimed, run, lease_of, claim_excludes}
use pympp.Session.Examples.{channel, funded, voucher_of, open_request}

-- A system with a retained voucher of 40 of 50 spent.
abbrev retained_channel : ChannelState
retained_channel = record channel {
  spent = 50;
  retained_vouchers = some (record { cumulative_amount = 40; signature = "sig" } ∷ []);
}

abbrev start : System
start = record { channel = retained_channel; now = 100; chain_settled = 0; sent = [] }

abbrev settlement : PendingSettlement
settlement = record { amount = 40; expires_at = 500 }

abbrev settling_channel : ChannelState
settling_channel = record retained_channel { pending_settlement = some settlement }

abbrev chosen : System
chosen = record start { channel = settling_channel; sent = settlement ∷ [] }

-- The settlement lands.
abbrev landed : System
landed = record chosen { chain_settled = 40 }

start-Inv : Inv start
unfolding settling
start-Inv = record {
  recorded = inl (ground arith);
  covered = ground arith;
  floor = ground arith;
  reserved = tt;
}

never_overcaptured_example : landed.chain_settled ≤ landed.channel.spent
unfolding pympp.Session.Settlement.choose_settlement
    pympp.Session.Vouchers.resolve_settleable_voucher
never_overcaptured_example = never_overcaptured {s = start} {s' = landed} start-Inv (
    Custody.next
      (Custody.next Custody.here (settles 500 (voucher_of 40) settling_channel refl refl))
      (lands settlement (inl refl) (omega arith) refl))

-- A channel is opened and then accepts a voucher.
abbrev advanced : ChannelState
advanced = record channel {
  spent = 0;
  units = 0;
  highest_voucher_amount = 150;
  highest_voucher = some (voucher_of 150);
  retained_vouchers = some (record { cumulative_amount = 100; signature = "sig" } ∷ []);
}

opened-IsWellFormed_example : IsWellFormed advanced
unfolding pympp.Session.Merge.accept_voucher_state_update open_channel_state
    pympp.Session.Vouchers.retain_vouchers
opened-IsWellFormed_example =
    opened-IsWellFormed open_request {c = advanced}
      (Step.next Step.here (accepts funded (voucher_of 150) none refl))

Reach-Monotone_example : Monotone (open_channel_state none open_request) advanced
unfolding pympp.Session.Merge.accept_voucher_state_update open_channel_state
    pympp.Session.Vouchers.retain_vouchers
Reach-Monotone_example =
    Reach-Monotone {c = open_channel_state none open_request} {c' = advanced}
      (Step.next Step.here (accepts funded (voucher_of 150) none refl))

abbrev schedule : ResolvedSettlementSchedule
schedule = record { interval_ms = none; amount = some 10; units = none }

abbrev no_time : String → Option ℕ
no_time s = none

abbrev marked : PendingCloseUpdate
marked = record { capture_amount = 20; state = some (record channel { close_requested_at = 9 }) }

is_settlement_due_lem_example :
    (is_settlement_due no_time retained_channel (some schedule) 900 ≡ true)
    ↔ IsDue no_time retained_channel schedule 900
is_settlement_due_lem_example = is_settlement_due_lem no_time retained_channel schedule 900

-- A worker claims, and another releases in vain.
claim_excludes_example :
    (any_claimed no_time
        (claim_update no_time schedule 1000 5 6 "me" (some retained_channel)).0
        (claim schedule 1000 6 7 "other" ∷ release "other" ∷ [])
      ≡ false)
    × (lease_of (
          run no_time
            (claim_update no_time schedule 1000 5 6 "me" (some retained_channel)).0
            (claim schedule 1000 6 7 "other" ∷ release "other" ∷ []))
        ≡ some (record { expires_at = 1005; owner = "me" }))
unfolding claim_update is_settlement_due resolve_settleable_voucher
claim_excludes_example =
    claim_excludes no_time schedule 1000 5 6 "me" (some retained_channel)
      (claim schedule 1000 6 7 "other" ∷ release "other" ∷ []) refl
      (omega arith, (λ e. absurd (ground (arith, (eq_iff "other" "me").1 e)), tt))

resolve_close_capture_amount_lem_example :
    (resolve_close_capture_amount 100 1000 0 20 ≡ ok 20)
    ↔ (Closable 100 1000 0 20 × (20 ≡ max 20 0))
resolve_close_capture_amount_lem_example = resolve_close_capture_amount_lem 100 1000 0 20 20

mark_pending_close_lem_example : (mark_pending_close 9 100 (some channel) 1000 0 ≡ ok marked) ↔ (
    (channel.finalized ≡ false)
    × (channel.close_requested_at ≡ 0)
    × Closable 100 1000 0 channel.spent
    × (marked ≡ marked))
mark_pending_close_lem_example = mark_pending_close_lem 9 100 channel 1000 0 marked

abbrev closing : ChannelState
closing = record channel { close_requested_at = 9 }

reconcile_lem_example :
    ((reconcile_expired_pending_close (some closing) 100 funded ≡ some (cleared closing))
      ↔ CloseFailed closing 100 funded)
    × ((reconcile_expired_pending_close (some closing) 100 funded ≡ some (cleared closing))
        ⊎ (reconcile_expired_pending_close (some closing) 100 funded ≡ some closing))
reconcile_lem_example = reconcile_lem closing 100 funded (λ e. absurd (ground arith))
