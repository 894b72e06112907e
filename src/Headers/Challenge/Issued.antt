-- ===== src/Headers/Challenge/Issued.antt =====
-- The challenges that a server issues, and what is written of them.
use pympp.Prelude.{
  ℕ, ◌≤◌, ◌≡◌, refl, ap, true, false, Option, none, some, [], ◌∷◌, arith, length, All,
}
use pympp.Prelude.Result.{ok}
use pympp.Headers.{Text, codes}
use pympp.Headers.Quoted.{escape_quoted, escaped, unescape_quoted, has_line_break}
use pympp.Headers.Quoted.RoundTrip.{IsScalar, unescape_quoted-escaped}
use pympp.Headers.Params.RoundTrip.{is_lower_key, IsKey-is_lower_key}
use pympp.Headers.Params.Closed.{IsPlain, escaped-IsClosed}
use pympp.Headers.Params.Slots.{Slots, option_map, IsSlot}
use pympp.Headers.Grammar.{
  is_method_id, validate_payment_method_id, advertised_credential_header, is_base64url,
  is_base64url_rest, is_base64url_char, every,
}
use pympp.Headers.Challenge.{
  JsonText, Challenge, filled, required, if_filled, check_digest, check_expires,
  max_header_payload_size, padded,
}

-- Text that a header can carry, and that UTF-8 can encode
abbrev pub IsText : Text → Type 0
IsText s = All IsScalar s × (has_line_break s ≡ false)

abbrev pub IsOptionalText : Option Text → Type 0
IsOptionalText none = Unit
IsOptionalText (some s) = IsText s

-- A required field is not empty.
abbrev pub IsFilledText : Text → Type 0
IsFilledText s = IsText s × (required (some s) ≡ ok s)

pub validate_payment_method_id-ok :
    (s : Text) → is_method_id s ≡ true → validate_payment_method_id s ≡ ok tt
unfolding validate_payment_method_id
validate_payment_method_id-ok s h = rw h refl

pub check_digest-filled : (o : Option Text) → check_digest (filled o) ≡ check_digest o
check_digest-filled none = refl
check_digest-filled (some []) = refl
check_digest-filled (some (c ∷ s)) = refl

pub check_expires-filled : (o : Option Text) → check_expires (filled o) ≡ check_expires o
check_expires-filled none = refl
check_expires-filled (some []) = refl
check_expires-filled (some (c ∷ s)) = refl

pub advertised-filled :
    (o : Option Text)
    → advertised_credential_header o ≡ ok o
    → advertised_credential_header (filled o) ≡ ok o
unfolding advertised_credential_header
advertised-filled none h = refl
advertised-filled (some []) h = h
advertised-filled (some (c ∷ s)) h = h

pub base64url_rest : (s : Text) → every is_base64url_char s ≡ true → is_base64url_rest s ≡ true
base64url_rest [] h = refl
base64url_rest (c ∷ s) h = ground (arith, base64url_rest s)

pub base64url-is_base64url :
    (s : Text) → required (some s) ≡ ok s → every is_base64url_char s ≡ true → is_base64url s ≡ true
unfolding is_base64url
base64url-is_base64url [] n h = ground arith
base64url-is_base64url (c ∷ s) n h = ground (arith, base64url_rest s)

-- What the JSON and base64 libraries promise of the canonical text of an object, and of equality
pub record IsJsonText (json : JsonText) : Type 0 where
  pub loads-canonical :
      (o : json.Object) (t : Text)
      → json.canonical_b64url o ≡ some t
      → json.loads (padded t) ≡ some (some o)
  pub encodable-canonical :
      (o : json.Object) (t : Text) → json.canonical_b64url o ≡ some t → json.encodable o ≡ true
  pub json_equal_refl : (o : json.Object) → json.json_equal o o ≡ true
  pub canonical-base64url :
      (o : json.Object) (t : Text)
      → json.canonical_b64url o ≡ some t
      → (required (some t) ≡ ok t) × (every is_base64url_char t ≡ true)

module _ {Object : Type 0} where
  -- A challenge that a server issues: texts without line breaks, a digest, an expiry and a method id that the grammar
  -- has, and no encoded opaque data of another issuer.
  pub record IsIssued (c : Challenge Object) (realm : Text) : Type 0 where
    pub id_text : IsFilledText c.id
    pub realm_text : IsFilledText realm
    pub method_text : IsFilledText c.method
    pub intent_text : IsFilledText c.intent
    pub digest_text : IsOptionalText c.digest
    pub expires_text : IsOptionalText c.expires
    pub description_text : IsOptionalText c.description
    pub header_text : IsOptionalText c.header
    pub method_id : is_method_id c.method ≡ true
    pub digest_ok : check_digest c.digest ≡ ok tt
    pub expires_ok : check_expires c.expires ≡ ok tt
    pub header_ok : advertised_credential_header c.header ≡ ok c.header
    pub no_opaque_text : c.opaque_b64 ≡ none

  -- The challenge as a client receives it
  abbrev pub received : Challenge Object → Text → Text → Option Text → Challenge Object
  received c realm request_b64 opaque_b64 = record {
    id = c.id;
    method = c.method;
    intent = c.intent;
    request = c.request;
    realm = realm;
    request_b64 = request_b64;
    digest = filled c.digest;
    expires = filled c.expires;
    description = filled c.description;
    opaque = c.opaque;
    header = c.header;
    opaque_b64 = opaque_b64;
  }

  -- The values that the format writes after the id
  abbrev pub further_slots : Challenge Object → Text → Text → Option Text → Slots
  further_slots c realm request_b64 opaque_b64 =
      (codes "realm", some (escaped realm))
      ∷ (codes "method", some (escaped c.method))
      ∷ (codes "intent", some (escaped c.intent))
      ∷ (codes "request", some request_b64)
      ∷ (codes "digest", option_map escaped (filled c.digest))
      ∷ (codes "expires", option_map escaped (filled c.expires))
      ∷ (codes "description", option_map escaped (filled c.description))
      ∷ (codes "header", option_map escaped (filled c.header))
      ∷ (codes "opaque", opaque_b64)
      ∷ []

  abbrev pub slots_of : Challenge Object → Text → Text → Option Text → Slots
  slots_of c realm request_b64 opaque_b64 =
      (codes "id", some (escaped c.id)) ∷ further_slots c realm request_b64 opaque_b64

pub escape_quoted-ok : (s : Text) → IsText s → escape_quoted s ≡ ok (escaped s)
unfolding escape_quoted
escape_quoted-ok s h = rw h.1 refl

pub if_filled-escape_quoted :
    (o : Option Text)
    → IsOptionalText o
    → if_filled o escape_quoted ≡ ok (option_map escaped (filled o))
if_filled-escape_quoted none h = refl
if_filled-escape_quoted (some []) h = refl
if_filled-escape_quoted (some (c ∷ s)) h = rw (escape_quoted-ok (c ∷ s) h) refl

pub unescape-optional :
    (o : Option Text)
    → IsOptionalText o
    → option_map unescape_quoted (option_map escaped (filled o)) ≡ filled o
unescape-optional none h = refl
unescape-optional (some []) h = refl
unescape-optional (some (c ∷ s)) h = ap some (unescape_quoted-escaped (c ∷ s) h.0)

pub base64url-IsPlain : (s : Text) → every is_base64url_char s ≡ true → All IsPlain s
base64url-IsPlain [] h = tt
base64url-IsPlain (c ∷ s) h = ((ground arith, ground arith), base64url-IsPlain s (ground arith))

pub option-IsSlot :
    (c : ℕ) (k : Text) (o : Option Text)
    → is_lower_key (c ∷ k) ≡ true
    → IsSlot (c ∷ k, option_map escaped o)
option-IsSlot c k none h = tt
option-IsSlot c k (some s) h = (IsKey-is_lower_key c k h, escaped-IsClosed s)

abbrev pub IsShort : Option Text → Type 0
IsShort none = Unit
IsShort (some t) = length t ≤ max_header_payload_size
