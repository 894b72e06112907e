-- ===== src/Session/Codec/Read.antt =====
-- _store.py: `channel_state_from_json`. `show` is Python's `str` of values that are not text.
use pympp.Prelude.{ℕ, String, Option, none, some, List, [], ◌∷◌, str_eq, if◌then◌else◌}
use pympp.Prelude.Dict.{Dict}
use pympp.Prelude.Result.{Result, ok, raise, ◌>>=◌}
use pympp.Json.{
  Json, number, float, text, array, object, Items, nil, item, Fields, end, field, get, non_null,
  truthy,
}
use pympp.Session.State.{
  SignedVoucher, ScheduledSettlementLease, RetainedVoucher, PendingSettlement, IdempotencyMarker,
  ChannelState,
}
use pympp.Session.Codec.{
  CodecError, value_error, type_error, optional, require, obj, outcome_from_json, backend_from_json,
  descriptor_from_wire, Decimal,
}

module _ (decimal : Decimal) (show : Json → String) where
  open decimal use {int_str}

  -- `_int`
  abbrev pub int_of : Json → Result CodecError ℕ
  int_of (number n) = ok n
  int_of (text s) = elim (int_str s) [ none ↦ raise value_error | some n ↦ ok n ]
  int_of (float (some n)) = ok n
  int_of v = raise value_error

  -- `str(value)`
  abbrev pub str_of : Json → String
  str_of (text s) = s
  str_of v = show v

  abbrev pub required_str : Option Json → Result CodecError String
  required_str o = do v ← require o; ok (str_of v)

  abbrev pub required_int : Option Json → Result CodecError ℕ
  required_int o = do v ← require o; int_of v

  -- `_opt_int` and `_opt_str`, of what `data.get(key)` gives
  abbrev pub opt_int : Option Json → Result CodecError (Option ℕ)
  opt_int o = optional int_of (non_null o)

  abbrev pub opt_str : Option Json → Result CodecError (Option String)
  opt_str o = optional (λ v. ok (str_of v)) (non_null o)

  -- `_voucher_from_json`
  unfoldable pub voucher_from_json : Json → Result CodecError SignedVoucher
  unfolding get
  voucher_from_json value = do
    data_ ← obj value
    channel_id ← required_str (get "channelId" data_)
    cumulative_amount ← required_int (get "cumulativeAmount" data_)
    signature ← required_str (get "signature" data_)
    ok (record {
      channel_id = channel_id;
      cumulative_amount = cumulative_amount;
      signature = signature;
    })

  unfoldable pub lease_from_json : Fields → Result CodecError ScheduledSettlementLease
  unfolding get
  lease_from_json data_ = do
    expires_at ← required_int (get "expiresAt" data_)
    owner ← required_str (get "owner" data_)
    ok (record { expires_at = expires_at; owner = owner })

  unfoldable pub pending_from_json : Fields → Result CodecError PendingSettlement
  unfolding get
  pending_from_json data_ = do
    amount ← required_int (get "amount" data_)
    expires_at ← required_int (get "expiresAt" data_)
    ok (record { amount = amount; expires_at = expires_at })

  unfoldable pub retained_item : Json → Result CodecError RetainedVoucher
  unfolding get
  retained_item value = do
    data_ ← obj value
    cumulative_amount ← required_int (get "cumulativeAmount" data_)
    signature ← required_str (get "signature" data_)
    ok (record { cumulative_amount = cumulative_amount; signature = signature })

  unfoldable pub retained_items : Items → Result CodecError (List RetainedVoucher)
  unfolding retained_item
  retained_items nil = ok []
  retained_items (item v vs) = do
    first ← retained_item v
    rest ← retained_items vs
    ok (first ∷ rest)

  -- The `for v in retained`: a text or a dict that is not empty gives texts, which are no objects.
  unfoldable pub retained_from_json : Json → Result CodecError (List RetainedVoucher)
  unfolding retained_items
  retained_from_json (array vs) = retained_items vs
  retained_from_json (text s) = if str_eq s "" then ok [] else raise value_error
  retained_from_json (object end) = ok []
  retained_from_json (object (field k v fs)) = raise value_error
  retained_from_json v = raise type_error

  -- `_marker_from_json`
  unfoldable pub marker_from_json : Json → Result CodecError IdempotencyMarker
  unfolding get outcome_from_json
  marker_from_json value = do
    data_ ← obj value
    named ← require (get "outcome" data_)
    outcome ← outcome_from_json named
    amount ← required_int (get "amount" data_)
    expires_at ← required_int (get "expiresAt" data_)
    units ← opt_int (get "units" data_)
    ok (record { amount = amount; expires_at = expires_at; outcome = outcome; units = units })

  unfoldable pub marker_items : Fields → Result CodecError (Dict IdempotencyMarker)
  unfolding marker_from_json
  marker_items end = ok []
  marker_items (field k v fs) = do
    marker ← marker_from_json v
    rest ← marker_items fs
    ok ((k, marker) ∷ rest)

  unfoldable pub markers_from_json : Json → Result CodecError (Dict IdempotencyMarker)
  unfolding marker_items
  markers_from_json value = do fs ← obj value; marker_items fs

  -- `channel_state_from_json`, of the lookup in its `data`
  unfoldable pub read_channel : (String → Option Json) → Result CodecError ChannelState
  unfolding voucher_from_json lease_from_json pending_from_json retained_from_json markers_from_json
      descriptor_from_wire backend_from_json
  read_channel at = do
    backend ← optional backend_from_json (non_null (at "backend"))
    lease_data ← optional obj (non_null (at "scheduledSettlementLease"))
    pending_data ← optional obj (non_null (at "pendingSettlement"))
    channel_id ← required_str (at "channelId")
    authorized_signer ← required_str (at "authorizedSigner")
    chain_id ← required_int (at "chainId")
    escrow_contract ← required_str (at "escrowContract")
    payer ← required_str (at "payer")
    payee ← required_str (at "payee")
    token ← required_str (at "token")
    deposit ← required_int (at "deposit")
    settled_on_chain ← required_int (at "settledOnChain")
    highest_voucher_amount ← required_int (at "highestVoucherAmount")
    highest_voucher ← optional voucher_from_json (non_null (at "highestVoucher"))
    spent ← required_int (at "spent")
    units ← required_int (at "units")
    close_requested_at ← required_int (at "closeRequestedAt")
    pending_close_valid_before ← opt_int (at "pendingCloseValidBefore")
    finalized_value ← require (at "finalized")
    created_at ← required_str (at "createdAt")
    descriptor ← optional descriptor_from_wire (non_null (at "descriptor"))
    expiring_nonce_hash ← opt_str (at "expiringNonceHash")
    operator ← opt_str (at "operator")
    salt ← opt_str (at "salt")
    on_chain_verified_at ← opt_int (at "onChainVerifiedAt")
    scheduled_settlement_lease ← optional lease_from_json lease_data
    last_settlement_at ← opt_str (at "lastSettlementAt")
    last_settlement_spent ← opt_int (at "lastSettlementSpent")
    last_settlement_units ← opt_int (at "lastSettlementUnits")
    retained_vouchers ← optional retained_from_json (non_null (at "retainedVouchers"))
    pending_settlement ← optional pending_from_json pending_data
    idempotency_markers ← optional markers_from_json (non_null (at "idempotencyMarkers"))
    close_supervised_from_block ← opt_int (at "closeSupervisedFromBlock")
    ok (record {
      channel_id = channel_id;
      authorized_signer = authorized_signer;
      chain_id = chain_id;
      escrow_contract = escrow_contract;
      payer = payer;
      payee = payee;
      token = token;
      deposit = deposit;
      settled_on_chain = settled_on_chain;
      highest_voucher_amount = highest_voucher_amount;
      highest_voucher = highest_voucher;
      spent = spent;
      units = units;
      close_requested_at = close_requested_at;
      finalized = truthy finalized_value;
      created_at = created_at;
      pending_close_valid_before = pending_close_valid_before;
      backend = backend;
      descriptor = descriptor;
      expiring_nonce_hash = expiring_nonce_hash;
      operator = operator;
      salt = salt;
      on_chain_verified_at = on_chain_verified_at;
      scheduled_settlement_lease = scheduled_settlement_lease;
      last_settlement_at = last_settlement_at;
      last_settlement_spent = last_settlement_spent;
      last_settlement_units = last_settlement_units;
      retained_vouchers = retained_vouchers;
      pending_settlement = pending_settlement;
      idempotency_markers = idempotency_markers;
      close_supervised_from_block = close_supervised_from_block;
    })

  unfoldable pub channel_state_from_json : Fields → Result CodecError ChannelState
  unfolding read_channel get
  channel_state_from_json value = read_channel (λ k. get k value)
