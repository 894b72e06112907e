-- ===== src/Server/Digest.antt =====
-- src/mpp/_body_digest.py: the digest of a request's body, and its forms.
use Prim.Native.Nat.{◌%◌}
use pympp.Prelude.{
  ◌-◌, Bool, false, ◌&&◌, ◌||◌, Option, none, some, [], ◌∷◌, ◌++◌, leb, ◌==◌, if◌then◌else◌, length,
}
use pympp.Headers.{Text, codes, text_eq}
use pympp.Headers.Grammar.{every, starts, drop_chars}
use pympp.Headers.Challenge.{padding}

-- A body as the bytes that `_serialize` gives, and, of a dict, those that earlier releases took.
pub record Body : Type 0 where
  pub bytes : Text
  pub legacy : Option Text

-- `_encode`
abbrev pub encode : (Text → Text) → Text → Text
encode sha256 bytes = codes "sha-256=" ++ sha256 bytes

-- `compute`
unfoldable pub compute : (Text → Text) → Body → Text
compute sha256 body = encode sha256 body.bytes

-- `text.rstrip("=")`
abbrev pub is_equals : Text → Bool
is_equals s = every (λ c. c == b'=') s

abbrev pub unpadded : Text → Text
unpadded [] = []
unpadded (c ∷ s) = let rest = unpadded s in if is_equals (c ∷ s) then [] else c ∷ rest

-- The group of `([^:]+):`, at the end of the text
abbrev pub until_colon : Text → Option Text
until_colon [] = none
until_colon (c ∷ []) = if c == b':' then some [] else none
until_colon (c ∷ d ∷ s) =
    let rest = until_colon (d ∷ s) in
    if c == b':' then none else elim rest [ none ↦ none | some t ↦ some (c ∷ t) ]

-- A digest in the byte-sequence form `sha-256=:<base64>:` becomes one of the plain form.
unfoldable pub normalized : Text → Text
normalized digest =
    if starts (codes "sha-256=:") digest
    then elim (until_colon (drop_chars 9 digest)) [
      | none ↦ digest
      | some [] ↦ digest
      | some (c ∷ s) ↦
          let bare = unpadded (c ∷ s) in
          codes "sha-256=" ++ bare ++ padding ((4 - length bare % 4) % 4)
    ]
    else digest

abbrev pub matches_legacy : (Text → Text) → Option Text → Text → Bool
matches_legacy sha256 none digest = false
matches_legacy sha256 (some bytes) digest = text_eq (encode sha256 bytes) digest

-- `verify`
unfoldable pub verify : (Text → Text) → Text → Body → Bool
unfolding compute normalized
verify sha256 digest body =
    every (λ c. leb c 127) digest
    && (text_eq (compute sha256 body) (normalized digest)
        || matches_legacy sha256 body.legacy (normalized digest))
