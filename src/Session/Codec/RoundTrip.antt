-- ===== src/Session/Codec/RoundTrip.antt =====
-- Reading back the record that a stored channel is written as.
use mathlib.Core.Path.{fun_ext}
use pympp.Prelude.{ℕ, ◌≡◌, ◌∙◌, refl, ap, String, true, Option, none, some, List, [], ◌∷◌}
use pympp.Prelude.Dict.{Dict}
use pympp.Prelude.Result.{ok, ◌>>=◌}
use pympp.Json.{
  Json, null, number, text, array, object, Fields, end, get, non_null, truthy, present, entry,
  distinct, get-present,
}
use pympp.Session.State.{
  SignedVoucher, ChannelDescriptor, ScheduledSettlementLease, RetainedVoucher, PendingSettlement,
  Backend, precompile, contract, external, below_settled, closing, exceeds_spent, finalized,
  MarkerOutcome, charged, credited, declined, IdempotencyMarker, ChannelState,
}
use pympp.Session.Codec.{
  written, optional, obj, outcome_name, outcome_named, outcome_from_json, backend_name,
  backend_from_json, descriptor_to_wire, descriptor_from_wire, Decimal,
}
use pympp.Session.Codec.Write.{
  big, voucher_to_json, lease_to_json, retained_list, pending_to_json, marker_to_json,
  markers_to_json, channel_entries, channel_state_to_json,
}
use pympp.Session.Codec.Read.{
  int_of, opt_int, opt_str, voucher_from_json, lease_from_json, pending_from_json, retained_item,
  retained_items, retained_from_json, marker_from_json, marker_items, markers_from_json,
  read_channel, channel_state_from_json,
}

outcome_named-outcome_name : (o : MarkerOutcome) → outcome_named (outcome_name o) ≡ ok o
unfolding outcome_named
outcome_named-outcome_name charged = refl
outcome_named-outcome_name credited = refl
outcome_named-outcome_name (declined below_settled) = refl
outcome_named-outcome_name (declined closing) = refl
outcome_named-outcome_name (declined exceeds_spent) = refl
outcome_named-outcome_name (declined finalized) = refl

backend_lem :
    (o : Option Backend)
    → optional backend_from_json (non_null (written (λ b. text (backend_name b)) o)) ≡ ok o
unfolding backend_from_json
backend_lem none = refl
backend_lem (some precompile) = refl
backend_lem (some contract) = refl
backend_lem (some external) = refl

descriptor_lem :
    (o : Option ChannelDescriptor)
    → optional descriptor_from_wire (non_null (written descriptor_to_wire o)) ≡ ok o
unfolding descriptor_from_wire descriptor_to_wire get
descriptor_lem none = refl
descriptor_lem (some d) = refl

abbrev fields_of : Json → Fields
fields_of (object fs) = fs
fields_of v = end

abbrev map_option {ℓ κ} : {A : Type ℓ} {B : Type κ} → (A → B) → Option A → Option B
map_option f none = none
map_option f (some a) = some (f a)

module _ (decimal : Decimal) (show : Json → String) where
  open decimal use {str_int, int_str, int_str-str_int}

  int_of-big : (n : ℕ) → int_of decimal show (big decimal n) ≡ ok n
  int_of-big n = rw (int_str-str_int n) refl

  opt_big : (o : Option ℕ) → opt_int decimal show (written (big decimal) o) ≡ ok o
  opt_big none = refl
  opt_big (some n) = ap (λ r. r >>= λ a. ok (some a)) (int_of-big n)

  opt_number : (o : Option ℕ) → opt_int decimal show (written number o) ≡ ok o
  opt_number none = refl
  opt_number (some n) = refl

  opt_text : (o : Option String) → opt_str decimal show (written text o) ≡ ok o
  opt_text none = refl
  opt_text (some s) = refl

  voucher_lem :
      (o : Option SignedVoucher)
      → optional
          (voucher_from_json decimal show)
          (non_null (some (elim o [ none ↦ null | some v ↦ voucher_to_json decimal v ])))
        ≡ ok o
  unfolding voucher_from_json voucher_to_json get
  voucher_lem none = refl
  voucher_lem (some v) = rw (int_str-str_int v.cumulative_amount) refl

  lease_obj :
      (o : Option ScheduledSettlementLease)
      → optional obj (non_null (written (lease_to_json decimal) o))
        ≡ ok (map_option (λ l. fields_of (lease_to_json decimal l)) o)
  lease_obj none = refl
  lease_obj (some l) = refl

  lease_lem :
      (o : Option ScheduledSettlementLease)
      → optional
          (lease_from_json decimal show)
          (map_option (λ l. fields_of (lease_to_json decimal l)) o)
        ≡ ok o
  unfolding lease_from_json get
  lease_lem none = refl
  lease_lem (some l) = refl

  pending_obj :
      (o : Option PendingSettlement)
      → optional obj (non_null (written (pending_to_json decimal) o))
        ≡ ok (map_option (λ p. fields_of (pending_to_json decimal p)) o)
  pending_obj none = refl
  pending_obj (some p) = refl

  pending_lem :
      (o : Option PendingSettlement)
      → optional
          (pending_from_json decimal show)
          (map_option (λ p. fields_of (pending_to_json decimal p)) o)
        ≡ ok o
  unfolding pending_from_json get
  pending_lem none = refl
  pending_lem (some p) = rw (int_str-str_int p.amount) refl

  retained_items_lem :
      (vs : List RetainedVoucher) → retained_items decimal show (retained_list decimal vs) ≡ ok vs
  unfolding retained_items retained_list retained_item get
  retained_items_lem [] = refl
  retained_items_lem (v ∷ vs) =
      rw (int_str-str_int v.cumulative_amount) (rw (retained_items_lem vs) refl)

  retained_lem :
      (o : Option (List RetainedVoucher))
      → optional
          (retained_from_json decimal show)
          (non_null (written (λ vs. array (retained_list decimal vs)) o))
        ≡ ok o
  unfolding retained_from_json
  retained_lem none = refl
  retained_lem (some vs) = rw (retained_items_lem vs) refl

  marker_fields :
      (amount expires_at : ℕ) (outcome : MarkerOutcome) (units : Option ℕ)
      → let m : IdempotencyMarker = record {
        amount = amount;
        expires_at = expires_at;
        outcome = outcome;
        units = units;
      } in
        marker_from_json decimal show (marker_to_json decimal m) ≡ ok m
  unfolding marker_from_json marker_to_json get present outcome_from_json
  marker_fields amount expires_at outcome none =
      rw (outcome_named-outcome_name outcome) (rw (int_str-str_int amount) refl)
  marker_fields amount expires_at outcome (some u) =
      rw (outcome_named-outcome_name outcome) (rw (int_str-str_int amount) refl)

  marker_lem :
      (m : IdempotencyMarker) → marker_from_json decimal show (marker_to_json decimal m) ≡ ok m
  marker_lem m = marker_fields m.amount m.expires_at m.outcome m.units

  marker_items_lem :
      (ms : Dict IdempotencyMarker) → marker_items decimal show (markers_to_json decimal ms) ≡ ok ms
  unfolding marker_items markers_to_json
  marker_items_lem [] = refl
  marker_items_lem ((k, m) ∷ ms) = rw (marker_lem m) (rw (marker_items_lem ms) refl)

  markers_lem :
      (o : Option (Dict IdempotencyMarker))
      → optional
          (markers_from_json decimal show)
          (non_null (written (λ ms. object (markers_to_json decimal ms)) o))
        ≡ ok o
  unfolding markers_from_json
  markers_lem none = refl
  markers_lem (some ms) = rw (marker_items_lem ms) refl

  entries_distinct : (c : ChannelState) → distinct (channel_entries decimal c) ≡ true
  unfolding channel_entries
  entries_distinct c = refl

  -- Reading the entries of a channel one by one.
  read_entries :
      (c : ChannelState)
      → read_channel decimal show (λ k. entry k (channel_entries decimal c)) ≡ ok c
  unfolding read_channel channel_entries truthy
  read_entries c =
      rw
        (
          backend_lem c.backend,
          lease_obj c.scheduled_settlement_lease,
          pending_obj c.pending_settlement,
          int_str-str_int c.deposit,
          int_str-str_int c.settled_on_chain,
          int_str-str_int c.highest_voucher_amount,
          voucher_lem c.highest_voucher,
          int_str-str_int c.spent,
          int_str-str_int c.close_requested_at,
          opt_big c.pending_close_valid_before,
          descriptor_lem c.descriptor,
          opt_text c.expiring_nonce_hash,
          opt_text c.operator,
          opt_text c.salt,
          opt_number c.on_chain_verified_at,
          lease_lem c.scheduled_settlement_lease,
          opt_text c.last_settlement_at,
          opt_big c.last_settlement_spent,
          opt_number c.last_settlement_units,
          retained_lem c.retained_vouchers,
          pending_lem c.pending_settlement,
          markers_lem c.idempotency_markers,
          opt_big c.close_supervised_from_block,
        )
        refl

  -- A stored channel that is written as JSON is read back as it was.
  pub channel_state_from_json-channel_state_to_json :
      (c : ChannelState)
      → channel_state_from_json decimal show (channel_state_to_json decimal c) ≡ ok c
  unfolding channel_state_from_json channel_state_to_json
  channel_state_from_json-channel_state_to_json c =
      ap (read_channel decimal show)
        (fun_ext (λ k. get-present k (channel_entries decimal c) (entries_distinct c)))
      ∙ read_entries c
