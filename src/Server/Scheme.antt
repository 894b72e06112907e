-- ===== src/Server/Scheme.antt =====
-- src/mpp/server/verify.py: the Payment scheme of an Authorization header.
use pympp.Prelude.{
  ℕ, Bool, false, ◌&&◌, ◌||◌, Option, none, some, List, [], ◌∷◌, ltb, ◌==◌, if◌then◌else◌, length,
}
use pympp.Headers.{Text, codes, strip}
use pympp.Headers.Params.{lower, max_authorization_size}
use pympp.Headers.Grammar.{starts}

abbrev skip_blanks : Text → Text
skip_blanks [] = []
skip_blanks (c ∷ s) = if c == 9 || c == 32 then skip_blanks s else c ∷ s

abbrev scheme_at : Text → Bool
scheme_at s = starts (codes "payment ") (lower (skip_blanks s))

abbrev scheme_after_comma : Text → Bool
scheme_after_comma [] = false
scheme_after_comma (c ∷ s) = (c == b',' && scheme_at s) || scheme_after_comma s

-- `_PAYMENT_SCHEME_RE.search`
unfoldable pub mentions_payment : Text → Bool
mentions_payment s = scheme_at s || scheme_after_comma s

-- `header.split(",")`
abbrev pub prefixed : ℕ → List Text → List Text
prefixed c [] = (c ∷ []) ∷ []
prefixed c (p ∷ ps) = (c ∷ p) ∷ ps

abbrev pub split_commas : Text → List Text
split_commas [] = [] ∷ []
split_commas (c ∷ s) = let rest = split_commas s in if c == b',' then [] ∷ rest else prefixed c rest

abbrev pub first_scheme : List Text → Option Text
first_scheme [] = none
first_scheme (p ∷ ps) =
    let rest = first_scheme ps in
    if starts (codes "payment ") (lower (strip p)) then some (strip p) else rest

-- `_extract_payment_scheme`
unfoldable pub extract_payment_scheme : Text → Option Text
unfolding strip
extract_payment_scheme header =
    if ltb max_authorization_size (length header) then none else first_scheme (split_commas header)
