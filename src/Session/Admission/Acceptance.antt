-- ===== src/Session/Admission/Acceptance.antt =====
-- What a receipt of `verify_and_accept_voucher` vouches for, and what its errors leave.
use pympp.Prelude.{
  ℕ, ◌+◌, ◌≤◌, ◌<◌, ◌≡◌, ◌⊎◌, inl, inr, String, Bool, true, false, ◌&&◌, Option, some, arith,
  Bool-cases,
}
use pympp.Prelude.Result.{ok, raise, Result-cases}
use pympp.Session.State.{
  SignedVoucher, ChannelState, OnChainChannelState, SessionError, insufficient_balance,
}
use pympp.Session.Merge.{
  keep_greater, merge_active_on_chain_state, with_on_chain, accept_voucher_state_update,
}
use pympp.Session.Charge.{VoucherAcceptance, plan_deduction, plan_voucher_acceptance}
use pympp.Session.Admission.{
  AcceptRequest, SessionReceipt, VoucherValidation, validate_channel_state, validate_voucher,
  stale_voucher, accept, accept_stored, verify_and_accept_voucher,
}

-- What was read of the chain backs the voucher, and its signature is the channel's.
pub record Backed (verify_voucher : SignedVoucher → String → Bool) (channel : ChannelState)
    (chain : OnChainChannelState) (v : SignedVoucher) : Type 0 where
  pub signed : verify_voucher v channel.authorized_signer ≡ true
  pub funded : v.cumulative_amount ≤ chain.deposit
  pub unsettled : chain.settled < v.cumulative_amount
  pub open_on_chain : chain.close_requested_at ≡ 0
  pub advances : channel.highest_voucher_amount ≤ v.cumulative_amount

-- The stored channel took the voucher and one charge of `amount`, which its vouchers cover.
pub record Charged (c c' : ChannelState) (v : SignedVoucher) (amount : ℕ) : Type 0 where
  pub spent_more : c'.spent ≡ c.spent + amount
  pub one_unit : c'.units ≡ c.units + 1
  pub covered : c'.spent ≤ c'.highest_voucher_amount
  pub holds : v.cumulative_amount ≤ c'.highest_voucher_amount
  pub was_open : (c.finalized ≡ false) × (c.close_requested_at ≡ 0)

accept-Charged :
    (r : AcceptRequest) (c : ChannelState) (amount : ℕ) (outcome : VoucherAcceptance)
    → r.charge_amount ≡ some amount
    → accept r (some c) ≡ ok outcome
    → outcome.charged ≡ true
    → Charged c outcome.channel r.voucher amount
unfolding accept accept_voucher_state_update plan_voucher_acceptance plan_deduction stale_voucher
    with_on_chain merge_active_on_chain_state keep_greater
accept-Charged r c amount outcome p e charged = record {
  spent_more = ground arith;
  one_unit = ground arith;
  covered = ground arith;
  holds = ground arith;
  was_open = ground arith;
}

module _ (verify_voucher : SignedVoucher → String → Bool) where
  validate_voucher-Backed :
      (c : ChannelState) (chain : OnChainChannelState) (delta : ℕ) (v : SignedVoucher)
      (done : VoucherValidation)
      → validate_voucher verify_voucher c chain delta v ≡ ok done
      → Backed verify_voucher c chain v
  unfolding validate_voucher validate_channel_state
  validate_voucher-Backed c chain delta v done e = record {
    signed = ground arith;
    funded = ground arith;
    unsettled = ground arith;
    open_on_chain = ground arith;
    advances = ground arith;
  }

  -- `verify_and_accept_voucher` gives a receipt only for a voucher that the channel's signer signed, not
  -- below the channel's highest, above what the chain settled and within its deposit, and while no
  -- close was requested on the chain.
  pub receipt-Backed :
      (r : AcceptRequest) (current stored : Option ChannelState) (receipt : SessionReceipt)
      → verify_and_accept_voucher verify_voucher r current ≡ (stored, ok receipt)
      → Backed verify_voucher r.channel r.channel_state r.voucher
  unfolding verify_and_accept_voucher
  receipt-Backed r current stored receipt e =
      elim (Result-cases
        (validate_voucher verify_voucher r.channel r.channel_state r.min_voucher_delta r.voucher)) [
          | inl (done, q) ↦
              validate_voucher-Backed r.channel r.channel_state r.min_voucher_delta r.voucher done q
          | inr (x, q) ↦ absurd (ground (arith, q))
        ]

  -- A receipt for a voucher that pays for its request means that the stored channel, which was open, holds
  -- the voucher or a higher one, has spent the charge and counted one unit, once, and that its vouchers
  -- cover what it has spent; the receipt gives that channel's amounts.
  pub receipt-Charged :
      (r : AcceptRequest) (c : ChannelState) (stored : Option ChannelState) (amount : ℕ)
      (receipt : SessionReceipt)
      → r.charge_amount ≡ some amount
      → verify_and_accept_voucher verify_voucher r (some c) ≡ (stored, ok receipt)
      → (c' : ChannelState) × (stored ≡ some c')
        × (Charged c c' r.voucher amount)
        × (receipt.spent ≡ c'.spent)
        × (receipt.accepted_cumulative ≡ c'.highest_voucher_amount)
  unfolding verify_and_accept_voucher accept_stored
  receipt-Charged r c stored amount receipt p e =
      elim (Result-cases
        (validate_voucher verify_voucher r.channel r.channel_state r.min_voucher_delta r.voucher)) [
          | inr (x, q) ↦ absurd (ground (arith, q))
          | inl (done, q) ↦ elim (Result-cases (accept r (some c))) [
            | inr (x, a) ↦ absurd (ground (arith, q, a))
            | inl (outcome, a) ↦ (
              outcome.channel,
              ground (arith, q, a),
              accept-Charged r c amount outcome p a (ground (arith, q, a)),
              ground (arith, q, a),
              ground (arith, q, a),
            )
          ]
        ]

-- The stored channel took the voucher, and no charge.
pub record Uncharged (c c' : ChannelState) (v : SignedVoucher) : Type 0 where
  pub same_spent : c'.spent ≡ c.spent
  pub same_units : c'.units ≡ c.units
  pub holds : v.cumulative_amount ≤ c'.highest_voucher_amount

accept-Uncharged :
    (r : AcceptRequest) (c : ChannelState) (amount : ℕ) (outcome : VoucherAcceptance)
    → r.charge_amount ≡ some amount
    → accept r (some c) ≡ ok outcome
    → outcome.charged ≡ false
    → Uncharged c outcome.channel r.voucher
unfolding accept accept_voucher_state_update plan_voucher_acceptance plan_deduction stale_voucher
    with_on_chain merge_active_on_chain_state keep_greater
accept-Uncharged r c amount outcome p e charged = record {
  same_spent = ground arith;
  same_units = ground arith;
  holds = ground arith;
}

module _ (verify_voucher : SignedVoucher → String → Bool) where
  -- When a voucher that pays for its request is refused, the stored channel is as before, except after
  -- `insufficient_balance`: then it may hold the voucher or a higher one, with nothing charged.
  pub refusal_lem :
      (r : AcceptRequest) (c : ChannelState) (stored : Option ChannelState) (amount : ℕ)
      (e : SessionError)
      → r.charge_amount ≡ some amount
      → verify_and_accept_voucher verify_voucher r (some c) ≡ (stored, raise e)
      → (stored ≡ some c)
        ⊎ ((e ≡ insufficient_balance)
            × ((c' : ChannelState) × (stored ≡ some c') × (Uncharged c c' r.voucher)))
  unfolding verify_and_accept_voucher accept_stored
  refusal_lem r c stored amount e p h =
      elim (Result-cases
        (validate_voucher verify_voucher r.channel r.channel_state r.min_voucher_delta r.voucher)) [
          | inr (x, q) ↦ inl (ground (arith, q))
          | inl (done, q) ↦ elim (Result-cases (accept r (some c))) [
            | inr (x, a) ↦ inl (ground (arith, q, a))
            | inl (outcome, a) ↦ elim (Bool-cases outcome.charged) [
              | inl paid ↦ inl (ground (arith, q, a, paid))
              | inr unpaid ↦ elim (Bool-cases (done.already_accepted && r.require_advance)) [
                | inl early ↦ inl (ground (arith, q, a, early))
                | inr late ↦ inr (
                  ground (arith, q, a, unpaid, late),
                  (
                    outcome.channel,
                    ground (arith, q, a, unpaid, late),
                    accept-Uncharged r c amount outcome p a unpaid,
                  ),
                )
              ]
            ]
          ]
        ]
