-- ===== src/Session/Codec/Write.antt =====
-- _store.py: `channel_state_to_json`.
use pympp.Prelude.{ℕ, String, Option, none, some, List, [], ◌∷◌}
use pympp.Prelude.Dict.{Dict}
use pympp.Json.{
  Json, null, boolean, number, text, array, object, Items, nil, item, Fields, end, field, present,
}
use pympp.Session.State.{
  SignedVoucher, ScheduledSettlementLease, RetainedVoucher, PendingSettlement, IdempotencyMarker,
  ChannelState,
}
use pympp.Session.Codec.{written, outcome_name, backend_name, descriptor_to_wire, Decimal}

module _ (decimal : Decimal) where
  open decimal use {str_int}

  -- A number that is written as text
  abbrev pub big : ℕ → Json
  big n = text (str_int n)

  -- `_voucher_to_json`
  unfoldable pub voucher_to_json : SignedVoucher → Json
  voucher_to_json v = object (
      field "channelId" (text v.channel_id) (
        field "cumulativeAmount" (big v.cumulative_amount)
          (field "signature" (text v.signature) end)))

  abbrev pub lease_to_json : ScheduledSettlementLease → Json
  lease_to_json lease =
      object (field "expiresAt" (number lease.expires_at) (field "owner" (text lease.owner) end))

  abbrev pub retained_to_json : RetainedVoucher → Json
  retained_to_json v = object (
      field "cumulativeAmount" (big v.cumulative_amount) (field "signature" (text v.signature) end))

  unfoldable pub retained_list : List RetainedVoucher → Items
  retained_list [] = nil
  retained_list (v ∷ vs) = item (retained_to_json v) (retained_list vs)

  abbrev pub pending_to_json : PendingSettlement → Json
  pending_to_json p =
      object (field "amount" (big p.amount) (field "expiresAt" (number p.expires_at) end))

  unfoldable pub marker_to_json : IdempotencyMarker → Json
  unfolding present
  marker_to_json m = object (
      present (
        ("amount", some (big m.amount))
        ∷ ("expiresAt", some (number m.expires_at))
        ∷ ("outcome", some (text (outcome_name m.outcome)))
        ∷ ("units", written number m.units)
        ∷ []))

  -- A key stands once in a dict, so that each marker is a new last item.
  unfoldable pub markers_to_json : Dict IdempotencyMarker → Fields
  unfolding marker_to_json
  markers_to_json [] = end
  markers_to_json ((k, m) ∷ ms) = field k (marker_to_json m) (markers_to_json ms)

  -- The items of `channel_state_to_json`, in their order; a key without a value is left out.
  unfoldable pub channel_entries : ChannelState → List (String × Option Json)
  unfolding voucher_to_json descriptor_to_wire retained_list markers_to_json
  channel_entries state =
      ("authorizedSigner", some (text state.authorized_signer))
      ∷ ("chainId", some (number state.chain_id))
      ∷ ("channelId", some (text state.channel_id))
      ∷ ("closeRequestedAt", some (big state.close_requested_at))
      ∷ ("pendingCloseValidBefore", written big state.pending_close_valid_before)
      ∷ ("createdAt", some (text state.created_at))
      ∷ ("deposit", some (big state.deposit))
      ∷ ("escrowContract", some (text state.escrow_contract))
      ∷ ("finalized", some (boolean state.finalized))
      ∷ (
        "highestVoucher",
        some (elim state.highest_voucher [ none ↦ null | some v ↦ voucher_to_json v ]),
      )
      ∷ ("highestVoucherAmount", some (big state.highest_voucher_amount))
      ∷ ("payee", some (text state.payee))
      ∷ ("payer", some (text state.payer))
      ∷ ("settledOnChain", some (big state.settled_on_chain))
      ∷ ("spent", some (big state.spent))
      ∷ ("token", some (text state.token))
      ∷ ("units", some (number state.units))
      ∷ ("backend", written (λ b. text (backend_name b)) state.backend)
      ∷ ("descriptor", written descriptor_to_wire state.descriptor)
      ∷ ("expiringNonceHash", written text state.expiring_nonce_hash)
      ∷ ("operator", written text state.operator)
      ∷ ("salt", written text state.salt)
      ∷ ("onChainVerifiedAt", written number state.on_chain_verified_at)
      ∷ ("scheduledSettlementLease", written lease_to_json state.scheduled_settlement_lease)
      ∷ ("lastSettlementAt", written text state.last_settlement_at)
      ∷ ("lastSettlementSpent", written big state.last_settlement_spent)
      ∷ ("lastSettlementUnits", written number state.last_settlement_units)
      ∷ ("retainedVouchers", written (λ vs. array (retained_list vs)) state.retained_vouchers)
      ∷ ("pendingSettlement", written pending_to_json state.pending_settlement)
      ∷ (
        "idempotencyMarkers",
        written (λ ms. object (markers_to_json ms)) state.idempotency_markers,
      )
      ∷ ("closeSupervisedFromBlock", written big state.close_supervised_from_block)
      ∷ []

  unfoldable pub channel_state_to_json : ChannelState → Fields
  unfolding channel_entries present
  channel_state_to_json state = present (channel_entries state)
