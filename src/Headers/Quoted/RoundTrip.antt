-- ===== src/Headers/Quoted/RoundTrip.antt =====
-- Unescaping undoes escaping.
use pympp.Prelude.{
  ℕ, ◌+◌, ◌-◌, ◌<◌, ◌≡◌, ◌∙◌, ◌⊎◌, inl, inr, refl, ap, true, false, some, [], ◌∷◌, ◌++◌, arith, leb,
  ◌==◌, All, Bool-cases,
}
use Prim.Native.Nat.{◌*◌, ◌/◌, ◌%◌}
use pympp.Headers.{Text, between}
use pympp.Headers.Quoted.{
  backslash, quote, hex_digit, hex4, unicode_escape, escape_char, escaped, hex_value,
  read_unicode_escape, low_escape, after_escape, unescape_code, unescape_step, unescape_from,
  unescape_quoted,
}

-- A character that UTF-8 can encode.
abbrev pub IsScalar : ℕ → Type 0
IsScalar c = (c < 0xD800) ⊎ ((0xDFFF < c) × (c < 0x110000))

hex_value-hex_digit : (d : ℕ) → d < 16 → hex_value (hex_digit d) ≡ some d
hex_value-hex_digit d h = ground arith

hex4_sum :
    (c : ℕ) → c < 65536 → c / 4096 % 16 * 4096 + c / 256 % 16 * 256 + c / 16 % 16 * 16 + c % 16 ≡ c
hex4_sum c h = omega arith

read_unicode_escape-hex4 :
    (c : ℕ) (rest : Text) → c < 65536 → read_unicode_escape (b'u' ∷ hex4 c ++ rest) ≡ some c
unfolding read_unicode_escape hex4
read_unicode_escape-hex4 c rest h =
    rw
      (
        hex_value-hex_digit (c / 4096 % 16) (omega arith),
        hex_value-hex_digit (c / 256 % 16) (omega arith),
        hex_value-hex_digit (c / 16 % 16) (omega arith),
        hex_value-hex_digit (c % 16) (omega arith),
      )
      (ap some (hex4_sum c h))

unescape_step-unicode_escape :
    (code : ℕ) (rest : Text)
    → code < 65536
    → unescape_step backslash (b'u' ∷ hex4 code ++ rest)
      ≡ unescape_code code (b'u' ∷ hex4 code ++ rest)
unfolding unescape_step
unescape_step-unicode_escape code rest h = rw (read_unicode_escape-hex4 code rest h) refl

-- An escape that is no surrogate stands for its code.
unescape_code-plain : (c : ℕ) (s : Text) → IsScalar c → c < 65536 → unescape_code c s ≡ (c ∷ [], 5)
unfolding unescape_code
unescape_code-plain c s v h = ground arith

low_escape-unicode_escape :
    (low : ℕ) (rest : Text)
    → low < 65536
    → between 0xDC00 0xDFFF low ≡ true
    → low_escape (unicode_escape low ++ rest) ≡ some low
unfolding low_escape unicode_escape
low_escape-unicode_escape low rest h b = rw (read_unicode_escape-hex4 low rest h, b) refl

-- A pair of surrogate escapes stands for the character that it encodes.
unescape_code-pair :
    (high low : ℕ) (s : Text)
    → between 0xD800 0xDBFF high ≡ true
    → low_escape (after_escape s) ≡ some low
    → unescape_code high s ≡ ((0x10000 + (high - 0xD800) * 1024 + (low - 0xDC00)) ∷ [], 11)
unfolding unescape_code
unescape_code-pair high low s b l = rw (b, l) refl

from_unicode_escape :
    (code : ℕ) (rest : Text)
    → code < 65536
    → unescape_from 0 (unicode_escape code ++ rest)
      ≡ (unescape_code code (b'u' ∷ hex4 code ++ rest)).0
        ++ unescape_from
            (unescape_code code (b'u' ∷ hex4 code ++ rest)).1
            (b'u' ∷ hex4 code ++ rest)
unfolding unescape_from unicode_escape
from_unicode_escape code rest h = rw (unescape_step-unicode_escape code rest h) refl

from_plain :
    (c : ℕ) (rest : Text)
    → IsScalar c
    → c < 65536
    → unescape_from 0 (unicode_escape c ++ rest) ≡ c ∷ unescape_from 0 rest
unfolding unescape_from hex4
from_plain c rest v h = from_unicode_escape c rest h ∙ rw (unescape_code-plain c _ v h) refl

from_pair :
    (high low : ℕ) (rest : Text)
    → between 0xD800 0xDBFF high ≡ true
    → between 0xDC00 0xDFFF low ≡ true
    → unescape_from 0 (unicode_escape high ++ (unicode_escape low ++ rest))
      ≡ (0x10000 + (high - 0xD800) * 1024 + (low - 0xDC00)) ∷ unescape_from 0 rest
unfolding unescape_from hex4 unicode_escape after_escape
from_pair high low rest b l =
    from_unicode_escape high (unicode_escape low ++ rest) (ground arith)
    ∙ rw
        (unescape_code-pair high low (b'u' ∷ hex4 high ++ (unicode_escape low ++ rest)) b
          (low_escape-unicode_escape low rest (ground arith) l))
        refl

pub from_latin :
    (c : ℕ) (rest : Text)
    → (c == backslash) ≡ false
    → unescape_from 0 (c ∷ rest) ≡ c ∷ unescape_from 0 rest
unfolding unescape_from unescape_step
from_latin c [] h = rw h refl
from_latin c (d ∷ rest) h = rw h refl

from_quoted :
    (c : ℕ) (rest : Text)
    → (c == b'u') ≡ false
    → unescape_from 0 (backslash ∷ c ∷ rest) ≡ c ∷ unescape_from 0 rest
unfolding unescape_from unescape_step read_unicode_escape
from_quoted c rest h = rw h refl

pair_value :
    (c : ℕ)
    → 0xFFFF < c
    → c < 0x110000
    → 0x10000
        + (0xD800 + (c - 0x10000) / 1024 - 0xD800) * 1024
        + (0xDC00 + (c - 0x10000) % 1024 - 0xDC00)
      ≡ c
pair_value c h k = omega arith

unescape_from-escape_char :
    (c : ℕ) (rest : Text)
    → IsScalar c
    → unescape_from 0 (escape_char c ++ rest) ≡ c ∷ unescape_from 0 rest
unfolding escape_char
unescape_from-escape_char c rest v = elim (Bool-cases (c == backslash)) [
  | inl is_backslash ↦
      let e : c ≡ backslash = ground arith in rw e (from_quoted backslash rest refl)
  | inr other ↦ elim (Bool-cases (c == quote)) [
    | inl is_quote ↦ let e : c ≡ quote = ground arith in rw e (from_quoted quote rest refl)
    | inr no_quote ↦ elim (Bool-cases (leb c 0xFF)) [
      | inl latin ↦ rw (other, no_quote, latin) (from_latin c rest other)
      | inr wide ↦ elim (Bool-cases (leb c 0xFFFF)) [
        | inl plain ↦ rw (other, no_quote, wide, plain) (from_plain c rest v (ground arith))
        | inr pair ↦
            rw (other, no_quote, wide, pair)
              (from_pair (0xD800 + (c - 0x10000) / 1024) (0xDC00 + (c - 0x10000) % 1024) rest
                  (ground arith) (ground arith)
                ∙ ap (λ x. x ∷ unescape_from 0 rest) (pair_value c (ground arith) (ground arith)))
      ]
    ]
  ]
]

pub unescape_quoted-escaped : (s : Text) → All IsScalar s → unescape_quoted (escaped s) ≡ s
unfolding unescape_quoted escaped unescape_from
unescape_quoted-escaped [] v = refl
unescape_quoted-escaped (c ∷ s) v =
    unescape_from-escape_char c (escaped s) v.0 ∙ ap (λ t. c ∷ t) (unescape_quoted-escaped s v.1)
