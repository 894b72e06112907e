-- ===== src/Session/Examples.antt =====
-- Sample channels, for the runs of the child modules.
pub mod Money
pub mod Life
pub mod Vouchers
pub mod Races
pub mod Stored
use pympp.Prelude.{ℕ, String, false, none, some, []}
use pympp.Session.State.{
  SignedVoucher, ChannelDescriptor, ChannelState, OnChainChannelState, precompile,
}
use pympp.Session.Merge.{OpenRequest}

abbrev pub voucher_of : ℕ → SignedVoucher
voucher_of amount = record { channel_id = "ch"; cumulative_amount = amount; signature = "sig" }

abbrev pub descriptor : ChannelDescriptor
descriptor = record {
  payer = "payer";
  payee = "payee";
  operator = "operator";
  token = "token";
  salt = "salt";
  authorized_signer = "signer";
  expiring_nonce_hash = "nonce";
}

abbrev pub funded : OnChainChannelState
funded = record { deposit = 1000; settled = 0; close_requested_at = 0 }

abbrev pub open_request : OpenRequest
open_request = record {
  authorized_signer = "signer";
  chain_id = 1;
  channel_id = "ch";
  descriptor = descriptor;
  escrow = "escrow";
  expiring_nonce_hash = "nonce";
  cumulative_amount = 100;
  signature = "sig";
  state = funded;
  now_iso = "2026-01-01T00:00:00.000Z";
}

-- A channel with a voucher of 100 of which 20 are spent, nothing settled yet.
abbrev pub channel : ChannelState
channel = record {
  channel_id = "ch";
  authorized_signer = "signer";
  chain_id = 1;
  escrow_contract = "escrow";
  payer = "payer";
  payee = "payee";
  token = "token";
  deposit = 1000;
  settled_on_chain = 0;
  highest_voucher_amount = 100;
  highest_voucher = some (voucher_of 100);
  spent = 20;
  units = 2;
  close_requested_at = 0;
  finalized = false;
  created_at = "2026-01-01T00:00:00.000Z";
  pending_close_valid_before = none;
  backend = some precompile;
  descriptor = some descriptor;
  expiring_nonce_hash = some "nonce";
  operator = some "operator";
  salt = some "salt";
  on_chain_verified_at = none;
  scheduled_settlement_lease = none;
  last_settlement_at = none;
  last_settlement_spent = none;
  last_settlement_units = none;
  retained_vouchers = none;
  pending_settlement = none;
  idempotency_markers = none;
  close_supervised_from_block = none;
}
