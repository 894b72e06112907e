-- ===== src/Headers/Challenge.antt =====
-- _parsing.py: `parse_www_authenticate` and `format_www_authenticate`; mpp/__init__.py: `Challenge`.
mod Strip
pub mod Issued
pub mod RoundTrip
use Prim.Native.Nat.{◌%◌}
use pympp.Prelude.{
  ℕ, zero, suc, ◌+◌, ◌-◌, ◌≡◌, String, Bool, true, false, not, ◌&&◌, Option, none, some, List, [],
  ◌∷◌, ◌++◌, ltb, ◌==◌, if◌then◌else◌, length, map, All,
}
use pympp.Prelude.Result.{Result, ok, raise, raise_if, ◌>>=◌, ◌>>◌}
use pympp.Headers.{Text, codes, HeaderError, parse_error, canonicalization_error, strip}
use pympp.Headers.Quoted.{escape_quoted}
use pympp.Headers.Params.{
  Params, param, lower, parse_auth_params, max_authorization_size, auth_param, joined, present,
}
use pympp.Headers.Grammar.{
  starts, drop_chars, validate_payment_method_id, advertised_credential_header, is_base64url,
  is_base64url_char, validate_expires,
}

-- The JSON objects that requests and opaque data are, two that are equal being one, and the libraries that
-- encode them.
pub record JsonText : Type 1 where
  -- `dict[str, Any]`
  pub Object : Type 0
  -- The base64url text, without padding, of `rfc8785.dumps(data)`, which raises on what JSON cannot hold
  pub canonical_b64url : Object → Option Text
  -- `json.loads(base64.urlsafe_b64decode(encoded))`, or the error that it raises; of a value that is no object, `none`
  pub loads : Text → Option (Option Object)
  -- `json.dumps(obj, ensure_ascii=False).encode("utf-8")` succeeds.
  pub encodable : Object → Bool
  -- The equality of JSON values
  pub json_equal : Object → Object → Bool

pub record Challenge (Object : Type 0) : Type 0 where
  pub id : Text
  pub method : Text
  pub intent : Text
  pub request : Object
  pub realm : Text
  pub request_b64 : Text
  pub digest : Option Text
  pub expires : Option Text
  pub description : Option Text
  pub opaque : Option Object
  pub header : Option Text
  pub opaque_b64 : Option Text

abbrev pub max_header_payload_size : ℕ
max_header_payload_size = 16384

-- `"=" * n`
abbrev pub padding : ℕ → Text
padding zero = []
padding (suc n) = b'=' ∷ padding n

-- `encoded + "=" * (-len(encoded) % 4)`
unfoldable pub padded : Text → Text
padded s = s ++ padding ((4 - length s % 4) % 4)

-- A value that the code tests for truth: the empty text is left out like `None`.
abbrev pub filled : Option Text → Option Text
filled none = none
filled (some []) = none
filled (some (c ∷ s)) = some (c ∷ s)

-- A field that must be there and not be empty
abbrev pub required : Option Text → Result HeaderError Text
required none = raise parse_error
required (some []) = raise parse_error
required (some (c ∷ s)) = ok (c ∷ s)

abbrev pub if_filled {κ} :
    {A : Type κ} → Option Text → (Text → Result HeaderError A) → Result HeaderError (Option A)
if_filled none f = ok none
if_filled (some []) f = ok none
if_filled (some (c ∷ s)) f = f (c ∷ s) >>= λ a. ok (some a)

-- `digest` starts with its algorithm, when there is one.
abbrev pub check_digest : Option Text → Result HeaderError (Unit {0})
check_digest none = ok tt
check_digest (some []) = ok tt
check_digest (some (c ∷ s)) = raise_if (not (starts (codes "sha-256=") (c ∷ s))) parse_error

abbrev pub check_expires : Option Text → Result HeaderError (Unit {0})
check_expires none = ok tt
check_expires (some []) = ok tt
check_expires (some (c ∷ s)) = validate_expires (c ∷ s)

-- `opaque_b64 if opaque_b64 and _BASE64URL.fullmatch(opaque_b64) else None`
abbrev pub strict : Option Text → Option Text
strict none = none
strict (some s) = if is_base64url s then some s else none

abbrev pub canonical_text : Option Text → Result HeaderError Text
canonical_text (some t) = ok t
canonical_text none = raise canonicalization_error

module _ (json : JsonText) where
  -- `_b64_decode`
  unfoldable pub b64_decode : ℕ → Text → Result HeaderError json.Object
  unfolding padded
  b64_decode max_size s =
      raise_if (ltb max_size (length s)) parse_error >> (elim (json.loads (padded s)) [
        | some (some d) ↦ if json.encodable d then ok d else raise parse_error
        | some none ↦ raise parse_error
        | none ↦ raise parse_error
      ])

  -- What follows the split into parameters
  unfoldable pub challenge_of : Params → Result HeaderError (Challenge json.Object)
  unfolding b64_decode advertised_credential_header validate_payment_method_id validate_expires
      is_base64url
  challenge_of params = required (param (codes "id") params) >>= λ id.
      required (param (codes "realm") params) >>= λ realm.
      required (param (codes "method") params) >>= λ method.
      validate_payment_method_id method
      >> (required (param (codes "intent") params) >>= λ intent.
          required (param (codes "request") params) >>= λ request_b64.
          b64_decode max_header_payload_size request_b64 >>= λ request.
          if_filled (param (codes "opaque") params) (b64_decode max_header_payload_size)
          >>= λ opaque. advertised_credential_header (param (codes "header") params) >>= λ header.
              check_digest (param (codes "digest") params)
              >> (check_expires (param (codes "expires") params)
                  >> ok (record {
                    id = id;
                    method = method;
                    intent = intent;
                    request = request;
                    realm = realm;
                    request_b64 = request_b64;
                    digest = param (codes "digest") params;
                    expires = param (codes "expires") params;
                    description = param (codes "description") params;
                    opaque = opaque;
                    header = header;
                    opaque_b64 = strict (param (codes "opaque") params);
                  })))

  unfoldable pub parse_www_authenticate : Text → Result HeaderError (Challenge json.Object)
  unfolding challenge_of strip parse_auth_params
  parse_www_authenticate header =
      raise_if (ltb max_authorization_size (length header)) parse_error
      >> (raise_if (not (starts (codes "payment ") (lower (strip header)))) parse_error
          >> (parse_auth_params (strip (drop_chars 8 (strip header))) >>= challenge_of))

  unfoldable pub canonical : json.Object → Result HeaderError Text
  canonical o = canonical_text (json.canonical_b64url o)

  abbrev pub reuse :
      json.Object → Text → Result HeaderError json.Object → Result HeaderError (Option Text)
  reuse o kept (ok d) =
      if json.json_equal d o then ok (some kept) else (canonical o >>= λ t. ok (some t))
  reuse o kept (raise e) = canonical o >>= λ t. ok (some t)

  abbrev pub opaque_text : Option json.Object → Option Text → Result HeaderError (Option Text)
  opaque_text none kept = ok none
  opaque_text (some o) none = canonical o >>= λ t. ok (some t)
  opaque_text (some o) (some kept) = reuse o kept (b64_decode max_header_payload_size kept)

  -- `_encoded_opaque`
  unfoldable pub encoded_opaque : Challenge json.Object → Result HeaderError (Option Text)
  unfolding b64_decode canonical
  encoded_opaque c = opaque_text c.opaque (filled c.opaque_b64)

  unfoldable pub format_www_authenticate : Challenge json.Object → Text → Result HeaderError Text
  unfolding escape_quoted encoded_opaque auth_param joined canonical
  format_www_authenticate c realm = canonical c.request >>= λ request_b64.
      escape_quoted c.id >>= λ id. escape_quoted realm >>= λ realm.
      escape_quoted c.method >>= λ method. escape_quoted c.intent >>= λ intent.
      if_filled c.digest escape_quoted >>= λ digest.
      if_filled c.expires escape_quoted >>= λ expires.
      if_filled c.description escape_quoted >>= λ description.
      if_filled c.header escape_quoted >>= λ header. encoded_opaque c >>= λ opaque. ok (
        codes "Payment "
        ++ joined (
            map auth_param (
              present (
                (codes "id", some id)
                ∷ (codes "realm", some realm)
                ∷ (codes "method", some method)
                ∷ (codes "intent", some intent)
                ∷ (codes "request", some request_b64)
                ∷ (codes "digest", digest)
                ∷ (codes "expires", expires)
                ∷ (codes "description", description)
                ∷ (codes "header", header)
                ∷ (codes "opaque", opaque)
                ∷ []))))
