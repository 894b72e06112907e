-- ===== src/Session/Examples/Money.antt =====
-- Charges, credits and vouchers on a sample channel.
use pympp.Prelude.{
  ℕ, ◌+◌, ◌≤◌, ◌≡◌, ◌⊎◌, refl, String, Bool, true, false, Option, none, some, List, [], ◌∷◌, arith,
  inl, inr, str_eq, ◌&&◌,
}
use pympp.Session.State
use pympp.Session.State.{ChannelState, IdempotencyMarker, SignedVoucher, insufficient_balance}
use pympp.Session.Change.{noop}
use pympp.Session.Charge.{conflict, result, plan_keyed_deduction}
use pympp.Session.Credit.{CreditTerms, was_credited, credit_markers, plan_credit}
use pympp.Session.Step.{charges}
use pympp.Session.Ledger.{
  LedgerOp, charge, charge_keyed, credit, run, total_charged, total_credited, SameFunds, IsSolvent,
  run_balanced, run-IsSolvent,
}
use pympp.Session.Idempotency.{here, next, charge_at_most_once, credit_at_most_once}
use pympp.Session.Capacity.{credit_markers_bounded, markers_of}
use pympp.Session.Capture.{frozen_spend}
use pympp.Session.Admission.{AcceptRequest, SessionReceipt, receipt_of, verify_and_accept_voucher}
use pympp.Session.Admission.Acceptance.{
  Charged, Uncharged, Backed, receipt-Backed, receipt-Charged, refusal_lem,
}
use pympp.Session.Api.{credit_channel, answered}
use pympp.Session.Api.Charges.{Charges}
use pympp.Session.Api.Answers.{Credits, credit_channel_lem}
use pympp.Session.Examples.{channel, funded, voucher_of}

abbrev charged_channel : ChannelState
charged_channel = record channel {
  spent = 50;
  units = 3;
  idempotency_markers = some (
      ("charge:k", record { amount = 30; expires_at = 1000; outcome = State.charged; units = none })
      ∷ []);
}

-- After that, a plain charge of 10.
abbrev charged_again : ChannelState
charged_again = record charged_channel { spent = 60; units = 4 }

charge_at_most_once_example :
    plan_keyed_deduction (some charged_again) 30 "k" 2000 600
    ≡ noop (some (result (record { ok = true; channel = charged_again; replayed = true })))
unfolding plan_keyed_deduction pympp.Prelude.Dict.lookup pympp.Session.Charge.plan_deduction
    pympp.Prelude.Dict.insert
charge_at_most_once_example =
    charge_at_most_once channel charged_channel charged_again 30 "k" 1000 500
      (some (result (record { ok = true; channel = charged_channel; replayed = false }))) refl
      (next here
        (charges 10 (some (record { ok = true; channel = charged_again; replayed = false })) refl)
        tt)
      30 2000 600 (omega arith)

abbrev terms : CreditTerms
terms = record {
  amount = 5;
  expires_at = 1000;
  idempotency_key = "r";
  max_markers = 8;
  now = 500;
  units = 1;
}

abbrev credited_channel : ChannelState
credited_channel = record channel {
  spent = 15;
  units = 1;
  idempotency_markers = some (
      (
        "credit:r",
        record { amount = 5; expires_at = 1000; outcome = State.credited; units = some 1 },
      )
      ∷ []);
}

credit_at_most_once_example :
    plan_credit (some credited_channel) terms ≡ noop (some (was_credited credited_channel true))
unfolding plan_credit pympp.Prelude.Dict.lookup credit_markers pympp.Prelude.Dict.insert
credit_at_most_once_example =
    credit_at_most_once channel credited_channel credited_channel terms terms
      (was_credited credited_channel false) refl here refl (omega arith)

abbrev ops : List LedgerOp
ops =
    charge 30
    ∷ charge_keyed 10 "k" 1000 500
    ∷ charge_keyed 10 "k" 1000 500
    ∷ credit terms
    ∷ charge 90
    ∷ []

run_balanced_example :
    ((run channel ops).spent + total_credited channel ops ≡ 20 + total_charged channel ops)
    × SameFunds channel (run channel ops)
run_balanced_example = run_balanced channel ops

run-IsSolvent_example : IsSolvent (run channel ops)
run-IsSolvent_example =
    run-IsSolvent channel ops (record { covered = omega arith; authorized = omega arith })

credit_markers_bounded_example : credit_markers (markers_of (run channel ops)) ≤ 8
unfolding credit_markers
credit_markers_bounded_example =
    credit_markers_bounded channel ops 8 (omega arith, tt) (omega arith)

frozen_spend_example :
    ((run (record channel { close_requested_at = 7 }) ops).spent ≡ 20)
    × ((run (record channel { close_requested_at = 7 }) ops).units ≡ 2)
frozen_spend_example =
    frozen_spend (record channel { close_requested_at = 7 }) ops (inr (ground arith))

credit_channel_lem_example :
    Credits channel 5 (credit_channel answered (some channel) 5 "r" 8 none 1 500)
credit_channel_lem_example = credit_channel_lem answered channel 5 "r" 8 none 1 500

-- A voucher of 150 that pays for a request of 40, and one that pays for too little.
abbrev request : ℕ → AcceptRequest
request amount = record {
  challenge_id = "challenge";
  channel = channel;
  voucher = voucher_of 150;
  channel_state = funded;
  min_voucher_delta = 10;
  require_advance = true;
  verified_at = some 400;
  charge_amount = some amount;
}

abbrev verify : SignedVoucher → String → Bool
verify v signer = str_eq v.signature "sig" && str_eq signer "signer"

abbrev accepted_channel : ℕ → ℕ → ChannelState
accepted_channel spent units = record channel {
  highest_voucher_amount = 150;
  highest_voucher = some (voucher_of 150);
  on_chain_verified_at = some 400;
  retained_vouchers = some (record { cumulative_amount = 100; signature = "sig" } ∷ []);
  spent = spent;
  units = units;
}

abbrev paid_receipt : SessionReceipt
paid_receipt = receipt_of "challenge" "ch" (accepted_channel 60 3)

receipt-Backed_example : Backed verify channel funded (voucher_of 150)
unfolding verify_and_accept_voucher pympp.Session.Vouchers.retain_vouchers
receipt-Backed_example =
    receipt-Backed verify (request 40) (some channel) (some (accepted_channel 60 3)) paid_receipt
      refl

receipt-Charged_example :
    (c' : ChannelState) × (some (accepted_channel 60 3) ≡ some c')
    × (Charged channel c' (voucher_of 150) 40)
    × (paid_receipt.spent ≡ c'.spent)
    × (paid_receipt.accepted_cumulative ≡ c'.highest_voucher_amount)
unfolding verify_and_accept_voucher pympp.Session.Vouchers.retain_vouchers
receipt-Charged_example =
    receipt-Charged verify (request 40) channel (some (accepted_channel 60 3)) 40 paid_receipt refl
      refl

refusal_lem_example :
    (some (accepted_channel 20 2) ≡ some channel)
    ⊎ ((insufficient_balance ≡ insufficient_balance)
        × ((c' : ChannelState) × (some (accepted_channel 20 2) ≡ some c')
            × (Uncharged channel c' (voucher_of 150))))
unfolding verify_and_accept_voucher pympp.Session.Vouchers.retain_vouchers
refusal_lem_example =
    refusal_lem verify (request 140) channel (some (accepted_channel 20 2)) 140 insufficient_balance
      refl refl
