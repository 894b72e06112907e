-- ===== src/Session/Codec.antt =====
-- _store.py: the JSON record of a stored channel. Its text is the library's: `json.dumps` and `json.loads`
-- are not modelled. Numbers are written and read as text by the parameters `str_int` and `int_str`, for
-- Python's `str` and `int`.
pub mod Write
pub mod Read
pub mod RoundTrip
use pympp.Prelude.{
  ℕ, ◌≡◌, String, Bool, true, false, not, ◌&&◌, ◌||◌, Option, none, some, List, [], ◌∷◌, str_eq,
  if◌then◌else◌,
}
use pympp.Prelude.Dict.{Dict}
use pympp.Prelude.Result.{Result, ok, raise, raise_if, ◌>>=◌, ◌>>◌}
use pympp.Json.{
  Json, null, boolean, number, float, text, array, object, Items, nil, item, Fields, end, field,
  get, non_null, truthy, present,
}
use pympp.Session.State.{
  SignedVoucher, ChannelDescriptor, ScheduledSettlementLease, RetainedVoucher, PendingSettlement,
  Backend, precompile, contract, external, CreditDeclineReason, below_settled, closing,
  exceeds_spent, finalized, MarkerOutcome, charged, credited, declined, IdempotencyMarker,
  ChannelState,
}

pub data CodecError : Type 0 where
  key_error value_error type_error : CodecError

abbrev pub written {ℓ} : {A : Type ℓ} → (A → Json) → Option A → Option Json
written f none = none
written f (some a) = some (f a)

-- `None if value is None else read(value)`, where a null is `None`
abbrev pub optional {ℓ κ} :
    {B : Type κ} {A : Type ℓ} → (B → Result CodecError A) → Option B → Result CodecError (Option A)
optional read none = ok none
optional read (some v) = do a ← read v; ok (some a)

-- `data[key]`
abbrev pub require : Option Json → Result CodecError Json
require none = raise key_error
require (some v) = ok v

-- The `_str` of _protocol.py
abbrev pub strict_str : Json → Result CodecError String
strict_str (text s) = ok s
strict_str v = raise value_error

-- `_obj`
abbrev pub obj : Json → Result CodecError Fields
obj (object fs) = ok fs
obj v = raise value_error

-- The names of `CreditDeclineReason` and of the other outcomes
abbrev pub outcome_name : MarkerOutcome → String
outcome_name charged = "charged"
outcome_name credited = "credited"
outcome_name (declined below_settled) = "belowSettled"
outcome_name (declined closing) = "closing"
outcome_name (declined exceeds_spent) = "exceedsSpent"
outcome_name (declined finalized) = "finalized"

unfoldable pub outcome_named : String → Result CodecError MarkerOutcome
outcome_named s =
    if str_eq s "charged"
    then ok charged
    else if str_eq s "credited"
    then ok credited
    else if str_eq s "belowSettled"
    then ok (declined below_settled)
    else if str_eq s "closing"
    then ok (declined closing)
    else if str_eq s "exceedsSpent"
    then ok (declined exceeds_spent)
    else if str_eq s "finalized"
    then ok (declined finalized)
    else raise value_error

unfoldable pub outcome_from_json : Json → Result CodecError MarkerOutcome
unfolding outcome_named
outcome_from_json (text s) = outcome_named s
outcome_from_json v = raise value_error

abbrev pub backend_name : Backend → String
backend_name precompile = "precompile"
backend_name contract = "contract"
backend_name external = "external"

unfoldable pub backend_from_json : Json → Result CodecError Backend
backend_from_json (text s) =
    if str_eq s "precompile"
    then ok precompile
    else if str_eq s "contract"
    then ok contract
    else if str_eq s "external"
    then ok external
    else raise value_error
backend_from_json v = raise value_error

-- `ChannelDescriptor.to_wire`
unfoldable pub descriptor_to_wire : ChannelDescriptor → Json
descriptor_to_wire d = object (
    field "payer" (text d.payer) (
      field "payee" (text d.payee) (
        field "operator" (text d.operator) (
          field "token" (text d.token) (
            field "salt" (text d.salt) (
              field "authorizedSigner" (text d.authorized_signer)
                (field "expiringNonceHash" (text d.expiring_nonce_hash) end)))))))

-- A field of a descriptor; a missing one raises `ValueError`.
abbrev wire_field : String → Fields → Result CodecError String
wire_field k fs = elim (get k fs) [ none ↦ raise value_error | some v ↦ strict_str v ]

-- `ChannelDescriptor.from_wire`
unfoldable pub descriptor_from_wire : Json → Result CodecError ChannelDescriptor
unfolding get
descriptor_from_wire (object fs) = do
  payer ← wire_field "payer" fs
  payee ← wire_field "payee" fs
  operator ← wire_field "operator" fs
  token ← wire_field "token" fs
  salt ← wire_field "salt" fs
  authorized_signer ← wire_field "authorizedSigner" fs
  expiring_nonce_hash ← wire_field "expiringNonceHash" fs
  ok (record {
    payer = payer;
    payee = payee;
    operator = operator;
    token = token;
    salt = salt;
    authorized_signer = authorized_signer;
    expiring_nonce_hash = expiring_nonce_hash;
  })
descriptor_from_wire v = raise value_error

-- Python's `str` and `int`
pub record Decimal : Type 0 where
  pub str_int : ℕ → String
  pub int_str : String → Option ℕ
  pub int_str-str_int : (n : ℕ) → int_str (str_int n) ≡ some n
