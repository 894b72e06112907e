-- ===== src/Headers/Grammar.antt =====
-- _parsing.py and mpp/__init__.py: the regular expressions of the headers, as matchers of the whole text.
use pympp.Prelude.{
  ℕ, zero, suc, Bool, true, false, ◌&&◌, ◌||◌, Option, none, some, [], ◌∷◌, ◌==◌, if◌then◌else◌,
}
use pympp.Prelude.Result.{Result, ok, raise}
use pympp.Headers.{Text, codes, HeaderError, parse_error, between, text_eq}
use pympp.Headers.Params.{lower}

abbrev pub every : (ℕ → Bool) → Text → Bool
every p [] = true
every p (c ∷ s) = p c && every p s

-- `text.startswith(prefix)`
abbrev pub starts : Text → Text → Bool
starts [] s = true
starts (c ∷ p) [] = false
starts (c ∷ p) (d ∷ s) = c == d && starts p s

abbrev pub drop_chars : ℕ → Text → Text
drop_chars zero s = s
drop_chars (suc n) [] = []
drop_chars (suc n) (c ∷ s) = drop_chars n s

abbrev pub is_digit : ℕ → Bool
is_digit c = between b'0' b'9' c

abbrev pub is_lower_letter : ℕ → Bool
is_lower_letter c = between b'a' b'z' c

abbrev pub is_letter : ℕ → Bool
is_letter c = between b'a' b'z' c || between b'A' b'Z' c

-- `_PAYMENT_METHOD_ID_RE`
unfoldable pub is_method_id : Text → Bool
is_method_id [] = false
is_method_id (c ∷ s) =
    is_lower_letter c
    && every (λ d. is_lower_letter d || is_digit d || d == b':' || d == b'_' || d == b'-') s

-- `_validate_payment_method_id`
unfoldable pub validate_payment_method_id : Text → Result HeaderError (Unit {0})
unfolding is_method_id
validate_payment_method_id s = if is_method_id s then ok tt else raise parse_error

abbrev pub is_header_name_char : ℕ → Bool
is_header_name_char c = is_letter c || is_digit c || is_one_of c (codes "!#$%&'*+.^_`|~-")
  where
    is_one_of : ℕ → Text → Bool
    is_one_of c [] = false
    is_one_of c (d ∷ s) = c == d || is_one_of c s

-- `_HTTP_HEADER_NAME_RE`
unfoldable pub is_header_name : Text → Bool
is_header_name [] = false
is_header_name (c ∷ s) = every is_header_name_char (c ∷ s)

-- `is_default_credential_header`
unfoldable pub is_default_credential_header : Option Text → Bool
is_default_credential_header none = true
is_default_credential_header (some []) = true
is_default_credential_header (some (c ∷ s)) = text_eq (lower (c ∷ s)) (codes "authorization")

-- `advertised_credential_header`, whose `ValueError` the parsers turn into a `ParseError`
unfoldable pub advertised_credential_header : Option Text → Result HeaderError (Option Text)
unfolding is_default_credential_header is_header_name
advertised_credential_header none = ok none
advertised_credential_header (some s) =
    if is_default_credential_header (some s)
    then ok none
    else if is_header_name s
    then ok (some s)
    else raise parse_error

abbrev pub is_base64url_char : ℕ → Bool
is_base64url_char c = is_letter c || is_digit c || c == b'_' || c == b'-'

-- `={0,2}`
abbrev is_padding : Text → Bool
is_padding s = text_eq s [] || text_eq s (codes "=") || text_eq s (codes "==")

abbrev pub is_base64url_rest : Text → Bool
is_base64url_rest [] = true
is_base64url_rest (c ∷ s) = (is_base64url_char c && is_base64url_rest s) || is_padding (c ∷ s)

-- `_BASE64URL`
unfoldable pub is_base64url : Text → Bool
is_base64url [] = false
is_base64url (c ∷ s) = is_base64url_char c && is_base64url_rest s

abbrev after : Option Text → (Text → Option Text) → Option Text
after none next = none
after (some s) next = next s

-- The text behind `n` digits
abbrev digits : ℕ → Text → Option Text
digits zero s = some s
digits (suc n) [] = none
digits (suc n) (c ∷ s) = if is_digit c then digits n s else none

abbrev literal : ℕ → Text → Option Text
literal d [] = none
literal d (c ∷ s) = if c == d then some s else none

abbrev drop_digits : Text → Text
drop_digits [] = []
drop_digits (c ∷ s) = let rest = drop_digits s in if is_digit c then rest else c ∷ s

-- `(?:\.[0-9]+)?`
abbrev fraction : Text → Option Text
fraction [] = some []
fraction (c ∷ []) = some (c ∷ [])
fraction (c ∷ d ∷ s) = if c == b'.' && is_digit d then some (drop_digits s) else some (c ∷ d ∷ s)

-- `(?:Z|[+-][0-9]{2}:[0-9]{2})`
abbrev zone : Text → Option Text
zone [] = none
zone (c ∷ s) =
    if c == b'Z'
    then some s
    else if c == b'+' || c == b'-'
    then after (digits 2 s) (λ m. after (literal b':' m) (digits 2))
    else none

-- `_DATETIME_RE`
unfoldable pub is_datetime : Text → Bool
is_datetime s = at_end (
    after (digits 4 s) (λ s. after (literal b'-' s) (λ s. after (digits 2 s) (λ s.
      after (literal b'-' s) (λ s. after (digits 2 s) (λ s. after (literal b'T' s) (λ s.
        after (digits 2 s) (λ s. after (literal b':' s) (λ s. after (digits 2 s) (λ s.
          after (literal b':' s) (λ s. after (digits 2 s) (λ s. after (fraction s) zone))))))))))))
  where
    at_end : Option Text → Bool
    at_end none = false
    at_end (some []) = true
    at_end (some (c ∷ s)) = false

-- `_validate_expires`
unfoldable pub validate_expires : Text → Result HeaderError (Unit {0})
unfolding is_datetime
validate_expires s = if is_datetime s then ok tt else raise parse_error
