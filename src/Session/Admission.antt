-- ===== src/Session/Admission.antt =====
-- _verification.py: what a voucher must satisfy to be accepted, and its acceptance with the charge
-- that it pays for. The signature check of _voucher.py is the parameter `verify_voucher`, for the
-- escrow and the chain of the request.
pub mod Acceptance
use pympp.Prelude.{
  ℕ, ◌+◌, ◌-◌, String, Bool, true, false, not, ◌&&◌, Option, none, some, leb, ltb, ◌==◌,
  if◌then◌else◌, is_some,
}
use pympp.Prelude.Result.{Result, ok, raise, raise_if, ◌>>=◌, ◌>>◌}
use pympp.Session.State.{
  SignedVoucher, ChannelState, OnChainChannelState, SessionError, channel_not_found, channel_closed,
  amount_exceeds_deposit, verification_failed, insufficient_balance, invalid_signature,
  delta_too_small,
}
use pympp.Session.Merge.{accept_voucher_state_update}
use pympp.Session.Charge.{VoucherAcceptance, plan_voucher_acceptance}

unfoldable pub validate_channel_state :
    OnChainChannelState → Option ℕ → Result SessionError (Unit {0})
validate_channel_state state none = do
  raise_if (state.deposit == 0) channel_not_found
  raise_if (not (state.close_requested_at == 0)) channel_closed
validate_channel_state state (some amount) = do
  raise_if (state.deposit == 0) channel_not_found
  raise_if (not (state.close_requested_at == 0)) channel_closed
  raise_if (ltb state.deposit (state.settled + amount)) insufficient_balance

pub record VoucherValidation : Type 0 where
  pub already_accepted : Bool

-- The end of both checks: a voucher equal to the highest, or one that advances it by enough.
abbrev pub advance : ChannelState → ℕ → SignedVoucher → Result SessionError VoucherValidation
advance channel min_voucher_delta voucher =
    if voucher.cumulative_amount == channel.highest_voucher_amount
    then ok (record { already_accepted = true })
    else if ltb (voucher.cumulative_amount - channel.highest_voucher_amount) min_voucher_delta
    then raise delta_too_small
    else ok (record { already_accepted = false })

unfoldable pub assert_voucher_amounts :
    ChannelState → OnChainChannelState → ℕ → SignedVoucher → Result SessionError VoucherValidation
unfolding validate_channel_state
assert_voucher_amounts channel channel_state min_voucher_delta voucher = do
  validate_channel_state channel_state none
  raise_if (ltb channel_state.deposit voucher.cumulative_amount) amount_exceeds_deposit
  raise_if (ltb voucher.cumulative_amount channel.highest_voucher_amount) verification_failed
  raise_if (leb voucher.cumulative_amount channel_state.settled) verification_failed
  advance channel min_voucher_delta voucher

-- `create_session_receipt`; the amounts are numbers here, decimal text on the wire.
pub record SessionReceipt : Type 0 where
  pub challenge_id : String
  pub channel_id : String
  pub accepted_cumulative : ℕ
  pub spent : ℕ
  pub units : ℕ

abbrev pub receipt_of : String → String → ChannelState → SessionReceipt
receipt_of challenge_id channel_id channel = record {
  challenge_id = challenge_id;
  channel_id = channel_id;
  accepted_cumulative = channel.highest_voucher_amount;
  spent = channel.spent;
  units = channel.units;
}

-- The arguments of `verify_and_accept_voucher` beside the store. `channel` was loaded before.
pub record AcceptRequest : Type 0 where
  pub challenge_id : String
  pub channel : ChannelState
  pub voucher : SignedVoucher
  pub channel_state : OnChainChannelState
  pub min_voucher_delta : ℕ
  pub require_advance : Bool
  pub verified_at : Option ℕ
  pub charge_amount : Option ℕ

-- `require_advance`, with a voucher that does not exceed the highest of the stored channel
unfoldable pub stale_voucher : AcceptRequest → Option ChannelState → Bool
stale_voucher r none = false
stale_voucher r (some current) =
    r.require_advance && leb r.voucher.cumulative_amount current.highest_voucher_amount

-- `accept`, the callback of the store update
unfoldable pub accept : AcceptRequest → Option ChannelState → Result SessionError VoucherAcceptance
unfolding accept_voucher_state_update plan_voucher_acceptance stale_voucher
accept r current = do
  raise_if (stale_voucher r current) delta_too_small
  accepted ← accept_voucher_state_update r.channel_state current r.voucher r.verified_at
  ok (plan_voucher_acceptance accepted r.charge_amount)

-- The end of `verify_and_accept_voucher`, once the store holds what `accept` returned.
abbrev conclude : AcceptRequest → VoucherAcceptance → Result SessionError SessionReceipt
conclude r outcome =
    if is_some r.charge_amount && not outcome.charged
    then raise insufficient_balance
    else ok (receipt_of r.challenge_id r.voucher.channel_id outcome.channel)

-- The store update of `accept`: an exception leaves the stored channel as it is.
unfoldable pub accept_stored :
    AcceptRequest → Option ChannelState → Option ChannelState × Result SessionError SessionReceipt
unfolding accept
accept_stored r current = elim (accept r current) [
  | raise e ↦ (current, raise e)
  | ok outcome ↦ (some outcome.channel, conclude r outcome)
]

module _ (verify_voucher : SignedVoucher → String → Bool) where
  unfoldable pub validate_voucher :
      ChannelState → OnChainChannelState → ℕ → SignedVoucher → Result SessionError VoucherValidation
  unfolding validate_channel_state
  validate_voucher channel channel_state min_voucher_delta voucher = do
    validate_channel_state channel_state none
    raise_if (ltb channel_state.deposit voucher.cumulative_amount) amount_exceeds_deposit
    raise_if (ltb voucher.cumulative_amount channel.highest_voucher_amount) verification_failed
    raise_if (not (verify_voucher voucher channel.authorized_signer)) invalid_signature
    raise_if (leb voucher.cumulative_amount channel_state.settled) verification_failed
    advance channel min_voucher_delta voucher

  -- `verify_and_accept_voucher`: the channel that the store holds next, and the receipt.
  unfoldable pub verify_and_accept_voucher :
      AcceptRequest → Option ChannelState → Option ChannelState × Result SessionError SessionReceipt
  unfolding validate_voucher accept_stored
  verify_and_accept_voucher r current =
      elim (validate_voucher r.channel r.channel_state r.min_voucher_delta r.voucher) [
        | raise e ↦ (current, raise e)
        | ok validation ↦
            if validation.already_accepted && r.require_advance
            then (current, raise delta_too_small)
            else if validation.already_accepted && not (is_some r.charge_amount)
            then (current, ok (receipt_of r.challenge_id r.voucher.channel_id r.channel))
            else accept_stored r current
      ]
