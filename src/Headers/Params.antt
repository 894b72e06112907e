-- ===== src/Headers/Params.antt =====
-- _parsing.py: the auth-params of a challenge, key="value" or key=token.
pub mod Fuel
pub mod RoundTrip
pub mod Closed
pub mod Slots
use pympp.Prelude.{
  ℕ, zero, suc, ◌+◌, Bool, true, false, not, ◌&&◌, ◌||◌, Option, none, some, List, [], ◌∷◌, ◌++◌,
  leb, ltb, ◌==◌, if◌then◌else◌, length, is_some,
}
use pympp.Prelude.Result.{Result, ok, raise}
use pympp.Headers.{
  Text, HeaderError, parse_error, between, is_space, lstrip, strip, lower_char, text_eq,
}
use pympp.Headers.Quoted.{backslash, quote, unescape_quoted}

-- The dict of the parameters, as the list of its items
abbrev pub Params : Type 0
Params = List (Text × Text)

-- `params.get(key)`
abbrev pub param : Text → Params → Option Text
param k [] = none
param k ((j, v) ∷ ps) = if text_eq k j then some v else param k ps

abbrev pub max_authorization_size : ℕ
max_authorization_size = 65536

-- `_AUTH_PARAM_KEY_CHARS`
abbrev pub is_key_char : ℕ → Bool
is_key_char c =
    between b'a' b'z' c || between b'A' b'Z' c || between b'0' b'9' c || c == b'_' || c == b'-'

unfoldable pub skip_separators : Text → Text
skip_separators [] = []
skip_separators (c ∷ s) = if is_space c || c == b',' then skip_separators s else c ∷ s

unfoldable pub key_of : Text → Text
key_of [] = []
key_of (c ∷ s) = if is_key_char c then c ∷ key_of s else []

unfoldable pub after_key : Text → Text
after_key [] = []
after_key (c ∷ s) = if is_key_char c then after_key s else c ∷ s

abbrev pub lower : Text → Text
lower [] = []
lower (c ∷ s) = lower_char c ∷ lower s

abbrev pub consed : ℕ → Result HeaderError (Text × Text) → Result HeaderError (Text × Text)
consed c (ok (raw, rest)) = ok (c ∷ raw, rest)
consed c (raise e) = raise e

-- The loop of `_read_quoted_auth_param`, with its flag `escaped`: the text up to the closing quote, and the text
-- behind it
unfoldable pub quoted_from : Bool → Text → Result HeaderError (Text × Text)
quoted_from escaped [] = raise parse_error
quoted_from true (c ∷ s) = consed c (quoted_from false s)
quoted_from false (c ∷ s) =
    if c == backslash
    then consed c (quoted_from true s)
    else if c == quote
    then ok ([], s)
    else consed c (quoted_from false s)

unfoldable pub read_quoted_auth_param : Text → Result HeaderError (Text × Text)
unfolding quoted_from unescape_quoted
read_quoted_auth_param s = elim (quoted_from false s) [
  | ok (raw, rest) ↦ ok (unescape_quoted raw, rest)
  | raise e ↦ raise e
]

-- `params_str[index:value_end]`, up to the next comma
unfoldable pub token_of : Text → Text
token_of [] = []
token_of (c ∷ s) = if c == b',' then [] else c ∷ token_of s

unfoldable pub after_token : Text → Text
after_token [] = []
after_token (c ∷ s) = if c == b',' then c ∷ s else after_token s

unfoldable pub read_value : Text → Result HeaderError (Text × Text)
unfolding read_quoted_auth_param token_of after_token strip
read_value [] = ok ([], [])
read_value (c ∷ s) =
    if c == quote
    then read_quoted_auth_param s
    else ok (strip (token_of (c ∷ s)), after_token (c ∷ s))

-- A round of the loop of `_parse_auth_params`: what it reads, and the text behind it
pub data ParamRound : Type 0 where
  stopped : ParamRound
  failed : HeaderError → ParamRound
  found : Text → Text → Text → ParamRound

abbrev pub valued : Text → Result HeaderError (Text × Text) → ParamRound
valued k (ok (v, rest)) = found k v rest
valued k (raise e) = failed e

-- From the end of the key on
unfoldable pub read_assigned : Text → Text → ParamRound
unfolding lstrip read_value
read_assigned k [] = stopped
read_assigned k (c ∷ s) = if c == b'=' then valued k (read_value (lstrip s)) else stopped

-- From the start of the key on
unfoldable pub read_keyed : Text → ParamRound
unfolding key_of after_key read_assigned lstrip
read_keyed s = elim (key_of s) [
  | [] ↦ failed parse_error
  | c ∷ k ↦ read_assigned (lower (c ∷ k)) (lstrip (after_key s))
]

unfoldable pub read_param : Text → ParamRound
unfolding skip_separators read_keyed
read_param s = elim (skip_separators s) [ [] ↦ stopped | c ∷ t ↦ read_keyed (c ∷ t) ]

-- `if key in params: raise HeaderError`
abbrev pub unless : Option Text → Result HeaderError Params → Result HeaderError Params
unless (some taken) continued = raise parse_error
unless none continued = continued

-- The loop: every round takes a character at least, so that the text's length is enough fuel.
unfoldable pub params_from : ℕ → Params → Text → Result HeaderError Params
unfolding read_param
params_from zero params s = ok params
params_from (suc fuel) params s = elim (read_param s) [
  | stopped ↦ ok params
  | failed e ↦ raise e
  | found k v rest ↦ unless (param k params) (params_from fuel (params ++ ((k, v) ∷ [])) rest)
]

-- `_parse_auth_params`
unfoldable pub parse_auth_params : Text → Result HeaderError Params
unfolding params_from
parse_auth_params s =
    if ltb max_authorization_size (length s) then raise parse_error else params_from (length s) [] s

-- `f'key="value"'`
unfoldable pub auth_param : Text × Text → Text
auth_param (k, raw) = k ++ (b'=' ∷ quote ∷ (raw ++ (quote ∷ [])))

-- `", ".join(parts)`
unfoldable pub joined : List Text → Text
joined [] = []
joined (p ∷ []) = p
joined (p ∷ q ∷ ps) = p ++ (b',' ∷ b' ' ∷ joined (q ∷ ps))

-- The parts that the conditional appends leave, of the parts in their order
abbrev pub present : List (Text × Option Text) → Params
present [] = []
present ((k, none) ∷ slots) = present slots
present ((k, some raw) ∷ slots) = (k, raw) ∷ present slots
