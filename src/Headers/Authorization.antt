-- ===== src/Headers/Authorization.antt =====
-- _parsing.py: `parse_authorization`; mpp/__init__.py: `ChallengeEcho` and `Credential`.
use pympp.Prelude.{
  ℕ, String, Bool, not, ◌&&◌, ◌||◌, Option, none, some, [], ltb, ◌==◌, if◌then◌else◌, length,
}
use pympp.Prelude.Result.{Result, ok, raise, raise_if, ◌>>=◌, ◌>>◌}
use pympp.Json.{Json, object, text, Fields, get, non_null, truthy}
use pympp.Headers.{Text, codes, HeaderError, parse_error, strip}
use pympp.Headers.Quoted.{has_line_break}
use pympp.Headers.Params.{lower, max_authorization_size}
use pympp.Headers.Grammar.{
  starts, drop_chars, every, validate_payment_method_id, advertised_credential_header,
}
use pympp.Headers.Challenge.{JsonText, b64_decode}

pub record ChallengeEcho : Type 0 where
  pub id : Text
  pub realm : Text
  pub method : Text
  pub intent : Text
  pub request : Text
  pub expires : Option Text
  pub digest : Option Text
  pub opaque : Option Text
  pub header : Option Text
  pub description : Option Text

pub record Credential : Type 0 where
  pub challenge : ChallengeEcho
  pub payload : Json
  pub source : Option Text

-- A control character that a header's value may not have
abbrev pub is_control : ℕ → Bool
is_control c = (ltb c 0x20 && not (c == 9)) || c == 0x7F

-- The check of a description that a retry can reflect into a header
abbrev pub check_description : Option Text → Result HeaderError (Unit {0})
check_description none = ok tt
check_description (some s) =
    raise_if (has_line_break s) parse_error
    >> raise_if (not (every (λ c. not (is_control c)) s)) parse_error

-- `"key" in data`, whose value is then read
abbrev pub member : Option Json → Result HeaderError Json
member none = raise parse_error
member (some v) = ok v

abbrev pub object_of : Json → Result HeaderError Fields
object_of (object fs) = ok fs
object_of _ = raise parse_error

-- `show` is Python's `str` of a value that is no text, and `item` reads a member of a decoded object.
module _ (json : JsonText) (item : String → json.Object → Option Json) (show : Json → String) where
  abbrev str_of : Json → Text
  str_of (text s) = codes s
  str_of v = codes (show v)

  -- `str(data.get(key, ""))`
  abbrev str_or_empty : Option Json → Text
  str_or_empty none = []
  str_or_empty (some v) = str_of v

  -- `str(data[key]) if data.get(key) else None`
  abbrev str_if_truthy : Option Json → Option Text
  str_if_truthy none = none
  str_if_truthy (some v) = if truthy v then some (str_of v) else none

  -- `str(data[key]) if data.get(key) is not None else None`
  abbrev str_if_given : Option Json → Option Text
  str_if_given none = none
  str_if_given (some v) = some (str_of v)

  -- The credential that a decoded object is
  unfoldable pub credential_of : json.Object → Result HeaderError Credential
  unfolding get truthy has_line_break validate_payment_method_id advertised_credential_header
  credential_of data_ = member (item "challenge" data_) >>= λ challenge.
      member (item "payload" data_) >>= λ payload. object_of challenge >>= λ echo.
      member (get "id" echo) >>= λ id.
      validate_payment_method_id (str_or_empty (get "method" echo))
      >> (advertised_credential_header (str_if_truthy (get "header" echo)) >>= λ header.
          check_description (str_if_given (non_null (get "description" echo)))
          >> ok (record {
            challenge = record {
              id = str_of id;
              realm = str_or_empty (get "realm" echo);
              method = str_or_empty (get "method" echo);
              intent = str_or_empty (get "intent" echo);
              request = str_or_empty (get "request" echo);
              expires = str_if_truthy (get "expires" echo);
              digest = str_if_truthy (get "digest" echo);
              opaque = str_if_truthy (get "opaque" echo);
              header = header;
              description = str_if_given (non_null (get "description" echo));
            };
            payload = payload;
            source = str_if_truthy (item "source" data_);
          }))

  unfoldable pub parse_authorization : Text → Result HeaderError Credential
  unfolding strip b64_decode credential_of
  parse_authorization header =
      raise_if (ltb max_authorization_size (length header)) parse_error
      >> (raise_if (not (starts (codes "payment ") (lower (strip header)))) parse_error
          >> (b64_decode json max_authorization_size (strip (drop_chars 8 (strip header)))
              >>= credential_of))
