-- ===== src/Headers/Params/Closed.antt =====
-- Quoted strings that end where they were closed: escaped text, and text without quotes and backslashes.
use mathlib.Core.List.{append_assoc}
use pympp.Prelude.{
  ℕ, ◌<◌, ◌≡◌, ◌∙◌, inl, inr, refl, ap, false, [], ◌∷◌, ◌++◌, arith, leb, ◌==◌, Bool-cases, All,
}
use pympp.Prelude.Result.{Result, ok}
use pympp.Headers.{Text, HeaderError}
use pympp.Headers.Quoted.{
  backslash, quote, unescape_quoted, unescape_from, escape_char, escaped, unicode_escape, hex4,
  hex_digit,
}
use pympp.Headers.Quoted.RoundTrip.{from_latin}
use pympp.Headers.Params.{consed, quoted_from}
use pympp.Headers.Params.RoundTrip.{IsClosed}

prepend : Text → Result HeaderError (Text × Text) → Result HeaderError (Text × Text)
prepend [] r = r
prepend (c ∷ s) r = consed c (prepend s r)

-- The reader passes over the text and stays inside the quoted string.
abbrev IsSafe : Text → Type 0
IsSafe raw = (t : Text) → quoted_from false (raw ++ t) ≡ prepend raw (quoted_from false t)

prepend-ok : (raw t : Text) → prepend raw (ok ([], t)) ≡ ok (raw, t)
unfolding prepend
prepend-ok [] t = refl
prepend-ok (c ∷ raw) t = rw (prepend-ok raw t) refl

prepend-append :
    (a b : Text) (r : Result HeaderError (Text × Text))
    → prepend a (prepend b r) ≡ prepend (a ++ b) r
unfolding prepend
prepend-append [] b r = refl
prepend-append (c ∷ a) b r = ap (consed c) (prepend-append a b r)

IsSafe-append : (a b : Text) → IsSafe a → IsSafe b → IsSafe (a ++ b)
IsSafe-append a b ha hb t =
    ap (quoted_from false) (append_assoc a b t)
    ∙ ha (b ++ t)
    ∙ ap (prepend a) (hb t)
    ∙ prepend-append a b (quoted_from false t)

IsSafe-IsClosed : (raw : Text) → IsSafe raw → IsClosed raw
unfolding quoted_from
IsSafe-IsClosed raw h t = h (quote ∷ t) ∙ prepend-ok raw t

-- Neither a backslash nor a quote
abbrev pub IsPlain : ℕ → Type 0
IsPlain c = ((c == backslash) ≡ false) × ((c == quote) ≡ false)

IsSafe-char : (c : ℕ) → IsPlain c → IsSafe (c ∷ [])
unfolding quoted_from prepend
IsSafe-char c h t = rw (h.0, h.1) refl

IsSafe-pair : (c : ℕ) → IsSafe (backslash ∷ c ∷ [])
unfolding quoted_from prepend
IsSafe-pair c t = refl

hex_digit-IsPlain : (d : ℕ) → d < 16 → IsPlain (hex_digit d)
hex_digit-IsPlain d h = (ground arith, ground arith)

IsSafe-plain : (s : Text) → All IsPlain s → IsSafe s
unfolding prepend
IsSafe-plain [] h = λ t. refl
IsSafe-plain (c ∷ s) h = IsSafe-append (c ∷ []) s (IsSafe-char c h.0) (IsSafe-plain s h.1)

IsSafe-unicode_escape : (c : ℕ) → IsSafe (unicode_escape c)
unfolding unicode_escape hex4
IsSafe-unicode_escape c = IsSafe-append (backslash ∷ b'u' ∷ []) (hex4 c) (IsSafe-pair b'u') (
    IsSafe-plain (hex4 c) (
      hex_digit-IsPlain _ (omega arith),
      (
        hex_digit-IsPlain _ (omega arith),
        (hex_digit-IsPlain _ (omega arith), (hex_digit-IsPlain _ (omega arith), tt)),
      ),
    ))

IsSafe-escape_char : (c : ℕ) → IsSafe (escape_char c)
unfolding escape_char
IsSafe-escape_char c = elim (Bool-cases (c == backslash)) [
  | inl h ↦ rw h (IsSafe-pair backslash)
  | inr h ↦ elim (Bool-cases (c == quote)) [
    | inl q ↦ rw (h, q) (IsSafe-pair quote)
    | inr q ↦ elim (Bool-cases (leb c 0xFF)) [
      | inl latin ↦ rw (h, q, latin) (IsSafe-char c (h, q))
      | inr wide ↦ elim (Bool-cases (leb c 0xFFFF)) [
        | inl one ↦ rw (h, q, wide, one) (IsSafe-unicode_escape c)
        | inr two ↦
            rw (h, q, wide, two)
              (IsSafe-append _ _ (IsSafe-unicode_escape _) (IsSafe-unicode_escape _))
      ]
    ]
  ]
]

IsSafe-escaped : (s : Text) → IsSafe (escaped s)
unfolding escaped prepend
IsSafe-escaped [] = λ t. refl
IsSafe-escaped (c ∷ s) =
    IsSafe-append (escape_char c) (escaped s) (IsSafe-escape_char c) (IsSafe-escaped s)

pub escaped-IsClosed : (s : Text) → IsClosed (escaped s)
escaped-IsClosed s = IsSafe-IsClosed (escaped s) (IsSafe-escaped s)

pub plain-IsClosed : (s : Text) → All IsPlain s → IsClosed s
plain-IsClosed s h = IsSafe-IsClosed s (IsSafe-plain s h)

pub unescape_quoted-plain : (s : Text) → All IsPlain s → unescape_quoted s ≡ s
unfolding unescape_quoted unescape_from
unescape_quoted-plain [] h = refl
unescape_quoted-plain (c ∷ s) h =
    from_latin c s h.0.0 ∙ ap (λ t. c ∷ t) (unescape_quoted-plain s h.1)
