-- ===== src/Session/Custody.antt =====
-- The server together with the escrow: settlement transactions are chosen and sent, land or fail, and
-- are recorded, while the channel is charged and credited. The escrow's capture of a landed
-- settlement is an assumption on the chain: it raises the settled amount to the voucher's amount,
-- and a settlement lands only before the expiry that its reservation carries.
pub mod Safety
use Prim.Native.Nat.{max}
use pympp.Prelude.{
  ℕ, ◌+◌, ◌-◌, ◌≤◌, ◌<◌, ◌≡◌, refl, sym, ◌∙◌, ap, ◌⊎◌, inl, inr, Bool, true, false, not, ◌&&◌, ◌||◌,
  Option, none, some, List, [], ◌∷◌, arith, ltb, leb, ◌==◌, if◌then◌else◌, String, All, select,
  Option-cases, Bool-cases,
}
use pympp.Prelude.Result.{Result, ok, raise}
use pympp.Session.State.{
  ChannelState, OnChainChannelState, SignedVoucher, RetainedVoucher, PendingSettlement, credited,
  declined,
}
use pympp.Session.Merge.{accept_voucher_state_update, keep_greater}
use pympp.Session.Vouchers.{accepted_vouchers, resolve_settleable_voucher}
use pympp.Session.Vouchers.Settleable.{Settleable, resolve_settleable_voucher_lem}
use pympp.Session.Credit.{CreditTerms, settling, plan_credit, credit_decline_reason}
use pympp.Session.Ledger.{
  LedgerOp, charge, charge_keyed, credit, perform, credit_allowed, SameFunds, perform-SameFunds,
}
use pympp.Session.Settlement.{
  in_flight, choose_settlement, release_settlement, record_settlement, pending_above,
}

pub record System : Type 0 where
  pub channel : ChannelState
  pub now : ℕ
  -- the escrow's settled amount
  pub chain_settled : ℕ
  -- the settlements that were sent
  pub sent : List PendingSettlement

abbrev pub Among : PendingSettlement → List PendingSettlement → Type 0
Among tx [] = ⊥
Among tx (x ∷ xs) = (tx ≡ x) ⊎ Among tx xs

-- A credit reads the clock before its update of the channel.
abbrev pub AskedAt : ℕ → LedgerOp → Type 0
AskedAt now (charge amount) = Unit
AskedAt now (charge_keyed amount key expires_at at) = Unit
AskedAt now (credit t) = t.now ≤ now

pub data Move (s s' : System) : Type 0 where
  settles :
      (expires_at : ℕ) (v : SignedVoucher) (c : ChannelState)
      → choose_settlement s.now expires_at (some s.channel) ≡ ok (some c, some v)
      → s' ≡ record s {
        channel = c;
        sent = record { amount = v.cumulative_amount; expires_at = expires_at } ∷ s.sent;
      }
      → Move s s'
  lands :
      (tx : PendingSettlement)
      → Among tx s.sent
      → s.now < tx.expires_at
      → s' ≡ record s { chain_settled = max s.chain_settled tx.amount }
      → Move s s'
  -- a failed settlement of an amount that the escrow has not captured gives its reservation up
  fails :
      (amount expires_at : ℕ) (c : ChannelState)
      → s.chain_settled < amount
      → release_settlement amount expires_at (some s.channel) ≡ some c
      → s' ≡ record s {
        channel = c;
        sent = select (λ tx. not (tx.amount == amount && tx.expires_at == expires_at)) s.sent;
      }
      → Move s s'
  records :
      (amount new_settled units : ℕ) (at : String) (c : ChannelState)
      → new_settled ≤ s.chain_settled
      → record_settlement amount new_settled units at (some s.channel) ≡ some c
      → s' ≡ record s { channel = c }
      → Move s s'
  asks :
      (op : LedgerOp)
      → AskedAt s.now op
      → s' ≡ record s { channel = perform s.channel op }
      → Move s s'
  accepts :
      (state : OnChainChannelState) (v : SignedVoucher) (at : Option ℕ) (c : ChannelState)
      → state.settled ≤ s.chain_settled
      → accept_voucher_state_update state (some s.channel) v at ≡ ok c
      → s' ≡ record s { channel = c }
      → Move s s'
  -- a landed settlement is recorded before its reservation expires
  passes :
      (t : ℕ)
      → s.now ≤ t
      → (s.chain_settled ≤ s.channel.settled_on_chain)
        ⊎ (settling s.channel.pending_settlement t ≡ s.chain_settled)
      → s' ≡ record s { now = t }
      → Move s s'

abbrev pub Recorded : ChannelState → ℕ → ℕ → Type 0
Recorded c now chain_settled =
    (chain_settled ≤ c.settled_on_chain) ⊎ (settling c.pending_settlement now ≡ chain_settled)

-- What an unexpired settlement may capture is settled already, or reserved.
abbrev pub Reserved : ChannelState → ℕ → PendingSettlement → Type 0
Reserved c now tx =
    (tx.expires_at ≤ now) ⊎ ((tx.amount ≤ c.settled_on_chain) ⊎ (c.pending_settlement ≡ some tx))

pub record Inv (s : System) : Type 0 where
  pub recorded : Recorded s.channel s.now s.chain_settled
  pub covered : s.channel.settled_on_chain ≤ s.channel.spent
  pub floor : settling s.channel.pending_settlement s.now ≤ s.channel.spent
  pub reserved : All (λ tx. Reserved s.channel s.now tx) s.sent

pub captured-le-spent : {s : System} → Inv s → s.chain_settled ≤ s.channel.spent
captured-le-spent i = ground arith

-- A history of the system.
pub data History (s : System) : System → Type 0 where
  here : History s s
  next : {t u : System} → History s t → Move t u → History s u
