-- ===== src/Session/State.antt =====
-- The persisted state of a payment channel: the dataclasses of
-- src/mpp/methods/tempo/session/server/_store.py, and of _protocol.py beside its parent.
-- Amounts, times and counters are natural numbers: what the program stores comes from unsigned
-- amounts of the chain, from validated requests and from the clock.
use pympp.Prelude.{ℕ, String, Bool, Option, List}
use pympp.Prelude.Dict.{Dict}

pub record SignedVoucher : Type 0 where
  pub channel_id : String
  pub cumulative_amount : ℕ
  pub signature : String

pub record ChannelDescriptor : Type 0 where
  pub payer : String
  pub payee : String
  pub operator : String
  pub token : String
  pub salt : String
  pub authorized_signer : String
  pub expiring_nonce_hash : String

pub record ScheduledSettlementLease : Type 0 where
  pub expires_at : ℕ
  pub owner : String

pub record RetainedVoucher : Type 0 where
  pub cumulative_amount : ℕ
  pub signature : String

pub record PendingSettlement : Type 0 where
  pub amount : ℕ
  pub expires_at : ℕ

pub data Backend : Type 0 where
  precompile contract external : Backend

pub data CreditDeclineReason : Type 0 where
  below_settled closing exceeds_spent finalized : CreditDeclineReason

-- "charged", "credited", or the reason for which a credit was declined.
pub data MarkerOutcome : Type 0 where
  charged credited : MarkerOutcome
  declined : CreditDeclineReason → MarkerOutcome

pub record IdempotencyMarker : Type 0 where
  pub amount : ℕ
  pub expires_at : ℕ
  pub outcome : MarkerOutcome
  pub units : Option ℕ

pub record ChannelState : Type 0 where
  pub channel_id : String
  pub authorized_signer : String
  pub chain_id : ℕ
  pub escrow_contract : String
  pub payer : String
  pub payee : String
  pub token : String
  pub deposit : ℕ
  pub settled_on_chain : ℕ
  pub highest_voucher_amount : ℕ
  pub highest_voucher : Option SignedVoucher
  pub spent : ℕ
  pub units : ℕ
  pub close_requested_at : ℕ
  pub finalized : Bool
  pub created_at : String
  pub pending_close_valid_before : Option ℕ
  pub backend : Option Backend
  pub descriptor : Option ChannelDescriptor
  pub expiring_nonce_hash : Option String
  pub operator : Option String
  pub salt : Option String
  pub on_chain_verified_at : Option ℕ
  pub scheduled_settlement_lease : Option ScheduledSettlementLease
  pub last_settlement_at : Option String
  pub last_settlement_spent : Option ℕ
  pub last_settlement_units : Option ℕ
  pub retained_vouchers : Option (List RetainedVoucher)
  pub pending_settlement : Option PendingSettlement
  pub idempotency_markers : Option (Dict IdempotencyMarker)
  pub close_supervised_from_block : Option ℕ

-- What a read of the channel on the chain returns.
pub record OnChainChannelState : Type 0 where
  pub deposit : ℕ
  pub settled : ℕ
  pub close_requested_at : ℕ

-- The exceptions that the operations of this component raise.
pub data SessionError : Type 0 where
  channel_not_found channel_closed amount_exceeds_deposit verification_failed : SessionError
  idempotency_key_conflict value_error runtime_error : SessionError
  insufficient_balance invalid_signature delta_too_small : SessionError
