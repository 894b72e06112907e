-- ===== src/Headers/Quoted.antt =====
-- _parsing.py: quoted strings, with the UTF-16 escapes of characters beyond Latin-1.
pub mod RoundTrip
use pympp.Prelude.{
  ℕ, zero, suc, ◌+◌, ◌-◌, Bool, true, false, not, ◌&&◌, ◌||◌, Option, none, some, List, [], ◌∷◌,
  ◌++◌, leb, ◌==◌, if◌then◌else◌,
}
use Prim.Native.Nat.{◌*◌, ◌/◌, ◌%◌}
use pympp.Prelude.Result.{Result, ok, raise}
use pympp.Headers.{Text, HeaderError, parse_error, between}

abbrev pub backslash : ℕ
backslash = 92

abbrev pub quote : ℕ
quote = 34

-- The characters of a code, as `f"{code:04x}"` writes it
abbrev pub hex_digit : ℕ → ℕ
hex_digit d = if leb d 9 then b'0' + d else b'a' + (d - 10)

unfoldable pub hex4 : ℕ → Text
hex4 c =
    hex_digit (c / 4096 % 16)
    ∷ hex_digit (c / 256 % 16)
    ∷ hex_digit (c / 16 % 16)
    ∷ hex_digit (c % 16)
    ∷ []

unfoldable pub unicode_escape : ℕ → Text
unfolding hex4
unicode_escape c = backslash ∷ b'u' ∷ hex4 c

unfoldable pub escape_char : ℕ → Text
unfolding unicode_escape
escape_char c =
    if c == backslash
    then backslash ∷ backslash ∷ []
    else if c == quote
    then backslash ∷ quote ∷ []
    else if leb c 0xFF
    then c ∷ []
    else if leb c 0xFFFF
    then unicode_escape c
    else unicode_escape (0xD800 + (c - 0x10000) / 1024)
      ++ unicode_escape (0xDC00 + (c - 0x10000) % 1024)

-- `"\r" in s or "\n" in s`
unfoldable pub has_line_break : Text → Bool
has_line_break [] = false
has_line_break (c ∷ s) = (c == 13 || c == 10) || has_line_break s

unfoldable pub escaped : Text → Text
unfolding escape_char
escaped [] = []
escaped (c ∷ s) = escape_char c ++ escaped s

-- `_escape_quoted`
unfoldable pub escape_quoted : Text → Result HeaderError Text
unfolding has_line_break escaped
escape_quoted s = if has_line_break s then raise parse_error else ok (escaped s)

-- The value of a character of `string.hexdigits`
abbrev pub hex_value : ℕ → Option ℕ
hex_value c =
    if between b'0' b'9' c
    then some (c - b'0')
    else if between b'a' b'f' c
    then some (c - b'a' + 10)
    else if between b'A' b'F' c
    then some (c - b'A' + 10)
    else none

abbrev pub combine : Option ℕ → Option ℕ → Option ℕ → Option ℕ → Option ℕ
combine (some a) (some b) (some c) (some d) = some (a * 4096 + b * 256 + c * 16 + d)
combine (some a) (some b) (some c) none = none
combine (some a) (some b) none d = none
combine (some a) none c d = none
combine none b c d = none

abbrev pub read_hex4 : Text → Option ℕ
read_hex4 (a ∷ b ∷ c ∷ d ∷ s) = combine (hex_value a) (hex_value b) (hex_value c) (hex_value d)
read_hex4 _ = none

-- `_read_unicode_escape`, of the text from its index on
unfoldable pub read_unicode_escape : Text → Option ℕ
read_unicode_escape [] = none
read_unicode_escape (u ∷ s) = if u == b'u' then read_hex4 s else none

abbrev pub replacement : ℕ
replacement = 0xFFFD

-- The low surrogate of an escape that follows
unfoldable pub low_escape : Text → Option ℕ
unfolding read_unicode_escape
low_escape [] = none
low_escape (b ∷ s) =
    if b == backslash
    then elim (read_unicode_escape s) [
      | none ↦ none
      | some low ↦ if between 0xDC00 0xDFFF low then some low else none
    ]
    else none

unfoldable pub after_escape : Text → Text
after_escape (u ∷ a ∷ b ∷ c ∷ d ∷ s) = s
after_escape _ = []

-- What an escape with this code gives, and how many characters it takes after its backslash; `s` starts
-- behind that backslash.
unfoldable pub unescape_code : ℕ → Text → Text × ℕ
unfolding low_escape after_escape
unescape_code code s =
    if between 0xD800 0xDBFF code
    then elim (low_escape (after_escape s)) [
      | some low ↦ ((0x10000 + (code - 0xD800) * 1024 + (low - 0xDC00)) ∷ [], 11)
      | none ↦ (replacement ∷ [], 5)
    ]
    else if between 0xDC00 0xDFFF code
    then (replacement ∷ [], 5)
    else (code ∷ [], 5)

-- What the loop of `_unescape_quoted` appends at a character, and how many more characters it consumes
unfoldable pub unescape_step : ℕ → Text → Text × ℕ
unfolding read_unicode_escape unescape_code
unescape_step c [] = if c == backslash then ([], 0) else (c ∷ [], 0)
unescape_step c (d ∷ s) =
    if not (c == backslash) then (c ∷ [], 0) else elim (read_unicode_escape (d ∷ s)) [
      | none ↦ (d ∷ [], 1)
      | some code ↦ unescape_code code (d ∷ s)
    ]

-- The loop, with the number of characters to pass over
unfoldable pub unescape_from : ℕ → Text → Text
unfolding unescape_step
unescape_from skip [] = []
unescape_from zero (c ∷ s) =
    let (appended, consumed) = unescape_step c s in appended ++ unescape_from consumed s
unescape_from (suc k) (c ∷ s) = unescape_from k s

-- `_unescape_quoted`
unfoldable pub unescape_quoted : Text → Text
unfolding unescape_from
unescape_quoted s = unescape_from 0 s
