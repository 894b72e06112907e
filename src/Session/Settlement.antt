-- ===== src/Session/Settlement.antt =====
-- _settlement.py: the store updates of `settle`. Between them stands the settlement transaction,
-- whose sending is not modelled; its expiry and what it settled are arguments.
use Prim.Native.Nat.{max}
use pympp.Prelude.{
  ℕ, String, Bool, false, not, ◌||◌, Option, none, some, List, ltb, ◌==◌, if◌then◌else◌, or_else,
  select,
}
use pympp.Prelude.Result.{Result, ok, raise}
use pympp.Session.State.{ChannelState, SignedVoucher, RetainedVoucher, PendingSettlement}
use pympp.Session.Merge.{keep_greater}
use pympp.Session.Vouchers.{resolve_settleable_voucher}

-- `choose` raises `SettlementLeaseError` while another settlement may still land.
pub data SettlementError : Type 0 where
  settlement_lease : SettlementError

-- Whether a settlement may still land at a time.
unfoldable pub in_flight : Option PendingSettlement → ℕ → Bool
in_flight none now = false
in_flight (some live) now = ltb now live.expires_at

-- `choose`: the next state, and the voucher that it claims.
unfoldable pub choose_settlement :
    ℕ
    → ℕ
    → Option ChannelState
    → Result SettlementError (Option ChannelState × Option SignedVoucher)
unfolding in_flight
choose_settlement now pending_expires_at none = ok (none, none)
choose_settlement now pending_expires_at (some current) =
    elim (resolve_settleable_voucher current) [
      | none ↦ ok (some current, none)
      | some voucher ↦
          if in_flight current.pending_settlement now
          then raise settlement_lease
          else ok (
            some (record current {
              pending_settlement =
                  some (record {
                    amount = voucher.cumulative_amount;
                    expires_at = pending_expires_at;
                  });
            }),
            some voucher,
          )
    ]

-- `release`: gives up the reservation of this settlement, and no other.
unfoldable pub release_settlement : ℕ → ℕ → Option ChannelState → Option ChannelState
release_settlement pending_amount pending_expires_at none = none
release_settlement pending_amount pending_expires_at (some current) =
    some (elim current.pending_settlement [
      | none ↦ current
      | some pending ↦
          if not (pending.amount == pending_amount)
            || not (pending.expires_at == pending_expires_at)
          then current
          else record current { pending_settlement = none }
    ])

-- What `record` keeps of the reservation and of the retained vouchers.
unfoldable pub pending_above : ℕ → Option PendingSettlement → Option PendingSettlement
pending_above settled none = none
pending_above settled (some pending) = if ltb settled pending.amount then some pending else none

unfoldable pub retained_above : ℕ → Option (List RetainedVoucher) → Option (List RetainedVoucher)
retained_above settled none = none
retained_above settled (some vs) = some (select (λ v. ltb settled v.cumulative_amount) vs)

-- `record`: the settlement of `amount` landed, and the chain has settled `new_settled`.
unfoldable pub record_settlement : ℕ → ℕ → ℕ → String → Option ChannelState → Option ChannelState
unfolding keep_greater pending_above retained_above
record_settlement amount new_settled claimed_units settled_at none = none
record_settlement amount new_settled claimed_units settled_at (some current) =
    let settled_on_chain = keep_greater current.settled_on_chain new_settled in
    some (record current {
      pending_settlement = pending_above settled_on_chain current.pending_settlement;
      retained_vouchers = retained_above settled_on_chain current.retained_vouchers;
      settled_on_chain = settled_on_chain;
      last_settlement_at = some settled_at;
      last_settlement_spent = some (keep_greater (or_else current.last_settlement_spent 0) amount);
      last_settlement_units = some (max (or_else current.last_settlement_units 0) claimed_units);
    })
