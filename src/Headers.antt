-- ===== src/Headers.antt =====
-- _parsing.py: the headers of the Payment authentication scheme. Text is the list of its code points.
pub mod Quoted
pub mod Params
pub mod Grammar
pub mod Challenge
pub mod Authorization
pub mod Sample
mod Examples
use Prim.Native.Char.{code}
use pympp.Prelude.{
  ℕ, ◌+◌, String, Bool, true, false, not, ◌&&◌, ◌||◌, List, [], ◌∷◌, leb, ◌==◌, if◌then◌else◌,
}

abbrev pub Text : Type 0
Text = List ℕ

-- The code points of a text of the program
abbrev pub codes : String → Text
codes String.[] = []
codes (String.◌∷◌ c s) = code c ∷ codes s

-- `ParseError`, and the errors of the canonical encoding
pub data HeaderError : Type 0 where
  parse_error : HeaderError
  canonicalization_error : HeaderError

abbrev pub between : ℕ → ℕ → ℕ → Bool
between lo hi c = leb lo c && leb c hi

-- `character.isspace()`
unfoldable pub is_space : ℕ → Bool
is_space c =
    between 9 13 c
    || between 28 32 c
    || c == 0x85
    || c == 0xA0
    || c == 0x1680
    || between 0x2000 0x200A c
    || c == 0x2028
    || c == 0x2029
    || c == 0x202F
    || c == 0x205F
    || c == 0x3000

-- `text.lower()`, of an ASCII character
abbrev pub lower_char : ℕ → ℕ
lower_char c = if between b'A' b'Z' c then c + 32 else c

abbrev pub text_eq : Text → Text → Bool
text_eq [] [] = true
text_eq [] (d ∷ t) = false
text_eq (c ∷ s) [] = false
text_eq (c ∷ s) (d ∷ t) = c == d && text_eq s t

unfoldable pub lstrip : Text → Text
unfolding is_space
lstrip [] = []
lstrip (c ∷ s) = if is_space c then lstrip s else c ∷ s

unfoldable pub is_blank : Text → Bool
unfolding is_space
is_blank [] = true
is_blank (c ∷ s) = is_space c && is_blank s

unfoldable pub rstrip : Text → Text
unfolding is_blank
rstrip [] = []
rstrip (c ∷ s) = if is_blank (c ∷ s) then [] else c ∷ rstrip s

-- `text.strip()`
unfoldable pub strip : Text → Text
unfolding lstrip rstrip
strip s = rstrip (lstrip s)
