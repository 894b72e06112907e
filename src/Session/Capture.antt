-- ===== src/Session/Capture.antt =====
-- Closing a channel: what a close captures, and that the spend it captures stays fixed.
use Prim.Native.Nat.{max}
use pympp.Prelude.{
  ℕ, ◌+◌, ◌≤◌, ◌<◌, ◌≡◌, ◌≢◌, ◌∙◌, ◌⊎◌, ◌↔◌, inl, inr, refl, or_else, true, false, none, some, List,
  [], ◌∷◌, arith, Option-cases,
}
use pympp.Prelude.Result.{ok}
use pympp.Session.State.{ChannelState, OnChainChannelState}
use pympp.Session.Close.{
  uint96_max, PendingCloseUpdate, resolve_close_capture_amount, reconcile_expired_pending_close,
  mark_pending_close,
}
use pympp.Session.Credit.{plan_credit, credit_decline_reason}
use pympp.Session.Ledger.{LedgerOp, charge, charge_keyed, credit, perform, run}

-- The conditions on a close of a voucher's amount, given what was spent and what the chain holds.
abbrev pub Closable : ℕ → ℕ → ℕ → ℕ → Type 0
Closable cumulative deposit settled spent =
    (spent ≤ cumulative)
    × (settled ≤ cumulative)
    × (max spent settled ≤ deposit)
    × (max spent settled ≤ uint96_max)

-- A close captures the greater of what was spent and what settled. It is accepted exactly when the
-- voucher covers both, the deposit covers the capture, and the capture fits a uint96.
pub resolve_close_capture_amount_lem :
    (cumulative deposit settled spent n : ℕ)
    → (resolve_close_capture_amount cumulative deposit settled spent ≡ ok n)
      ↔ (Closable cumulative deposit settled spent × (n ≡ max spent settled))
unfolding resolve_close_capture_amount
resolve_close_capture_amount_lem cumulative deposit settled spent n = (
  λ e. ((ground arith, ground arith, ground arith, ground arith), ground arith),
  λ h. ground arith,
)

-- A pending-close marker is set only on an open channel, with a capture as
-- `resolve_close_capture_amount` gives it, and changes nothing else of the channel.
pub mark_pending_close_lem :
    (at cumulative : ℕ) (c : ChannelState) (deposit settled : ℕ) (u : PendingCloseUpdate)
    → (mark_pending_close at cumulative (some c) deposit settled ≡ ok u) ↔ (
        (c.finalized ≡ false)
        × (c.close_requested_at ≡ 0)
        × Closable cumulative deposit settled c.spent
        × (u ≡ record {
          capture_amount = max c.spent settled;
          state = some (record c { close_requested_at = at });
        }))
unfolding mark_pending_close resolve_close_capture_amount
mark_pending_close_lem at cumulative c deposit settled u = (
  λ e. (
    ground arith,
    ground arith,
    (ground arith, ground arith, ground arith, ground arith),
    ground arith,
  ),
  λ h. ground arith,
)

abbrev pub cleared : ChannelState → ChannelState
cleared c = record c { close_requested_at = 0; pending_close_valid_before = none }

-- The marker and the signed close have expired, the skew of clocks included, and the chain shows the
-- channel open.
abbrev pub CloseFailed : ChannelState → ℕ → OnChainChannelState → Type 0
CloseFailed c now s =
    (c.finalized ≡ false)
    × (s.close_requested_at ≡ 0)
    × (0 < s.deposit)
    × (c.close_requested_at + 25 + 30 < now)
    × (or_else c.pending_close_valid_before 0 + 30 < now)

-- Of a channel with a pending-close marker, a reconciliation clears the marker exactly if the channel
-- is not finalized, the chain shows it open, and both the marker and the signed close have expired,
-- clock skew included; and else it leaves the channel as it is.
pub reconcile_lem :
    (c : ChannelState) (now : ℕ) (s : OnChainChannelState)
    → c.close_requested_at ≢ 0
    → ((reconcile_expired_pending_close (some c) now s ≡ some (cleared c)) ↔ CloseFailed c now s)
      × ((reconcile_expired_pending_close (some c) now s ≡ some (cleared c))
          ⊎ (reconcile_expired_pending_close (some c) now s ≡ some c))
unfolding reconcile_expired_pending_close
reconcile_lem c now s h = (
  (λ e. (ground arith, ground arith, ground arith, ground arith, ground arith), λ f. ground arith),
  ground arith,
)

-- No charge is made, no credit given and no voucher accepted.
abbrev pub IsFrozen : ChannelState → Type 0
IsFrozen c = (c.finalized ≡ true) ⊎ (c.close_requested_at ≢ 0)

record SameSpend (c c' : ChannelState) : Type 0 where
  spent : c'.spent ≡ c.spent
  units : c'.units ≡ c.units
  finalized : c'.finalized ≡ c.finalized
  closing : c'.close_requested_at ≡ c.close_requested_at

perform-SameSpend : (c : ChannelState) (op : LedgerOp) → IsFrozen c → SameSpend c (perform c op)
unfolding perform plan_credit
perform-SameSpend c (charge amount) f = ground arith
perform-SameSpend c (charge_keyed amount key expires_at now) f = ground arith
perform-SameSpend c (credit t) f = elim (Option-cases (credit_decline_reason c t.amount t.now)) [
  | inl n ↦ absurd (not_declined n)
  | inr (why, n) ↦ ground (arith, n)
]
  where
    not_declined : ¬ (credit_decline_reason c t.amount t.now ≡ none)
    not_declined n = ground arith

-- While a channel is closing or finalized, no charges, keyed charges and credits, in whatever sequence,
-- change what is spent or the units.
pub frozen_spend :
    (c : ChannelState) (ops : List LedgerOp)
    → IsFrozen c
    → ((run c ops).spent ≡ c.spent) × ((run c ops).units ≡ c.units)
unfolding run
frozen_spend c [] f = (refl, refl)
frozen_spend c (op ∷ ops) f =
    let s = perform-SameSpend c op f in
    let rest = frozen_spend (perform c op) ops (ground arith) in
    (rest.0 ∙ s.spent, rest.1 ∙ s.units)
