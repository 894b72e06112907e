-- ===== src/Headers/Sample.antt =====
-- A concrete instance of the JSON interface: objects are numbers, written in unary.
use pympp.Prelude.{
  ℕ, zero, suc, ◌≡◌, refl, ap, arith, true, Option, none, some, [], ◌∷◌, ◌++◌, ◌==◌, ltb,
  if◌then◌else◌, All,
}
use pympp.Prelude.Result.{ok}
use pympp.Headers.{Text}
use pympp.Headers.Grammar.{every, is_base64url_char}
use pympp.Headers.Quoted.RoundTrip.{IsScalar}
use pympp.Headers.Challenge.{JsonText, padding, padded, required}
use pympp.Headers.Challenge.Issued.{IsJsonText}

abbrev pub unary : ℕ → Text
unary zero = b'A' ∷ []
unary (suc n) = b'A' ∷ unary n

abbrev pub count : Text → ℕ
count [] = 0
count (c ∷ s) = if c == b'A' then suc (count s) else count s

abbrev pub counted : ℕ → Option (Option ℕ)
counted zero = none
counted (suc n) = some (some n)

abbrev pub numbers : JsonText
numbers = record {
  Object = ℕ;
  canonical_b64url = λ n. some (unary n);
  loads = λ s. counted (count s);
  encodable = λ n. true;
  json_equal = ◌==◌;
}

count-padding : (n : ℕ) → count (padding n) ≡ 0
count-padding zero = refl
count-padding (suc n) = count-padding n

count-unary : (n k : ℕ) → count (unary n ++ padding k) ≡ suc n
count-unary zero k = ap (λ x. suc x) (count-padding k)
count-unary (suc n) k = ap (λ x. suc x) (count-unary n k)

loads-unary :
    (n : ℕ) (t : Text)
    → numbers.canonical_b64url n ≡ some t
    → numbers.loads (padded t) ≡ some (some n)
unfolding padded
loads-unary n t h = let e : unary n ≡ t = cc h in rw (← e) (ap counted (count-unary n _))

unary-base64url :
    (n : ℕ)
    → (required (some (unary n)) ≡ ok (unary n)) × (every is_base64url_char (unary n) ≡ true)
unary-base64url zero = (refl, refl)
unary-base64url (suc n) = (refl, (unary-base64url n).1)

pub numbers-IsJsonText : IsJsonText numbers
numbers-IsJsonText = record {
  json_equal_refl = λ o. ground arith;
  loads-canonical = loads-unary;
  encodable-canonical = λ o t h. refl;
  canonical-base64url = λ o t h. let e : unary o ≡ t = cc h in rw (← e) (unary-base64url o);
}

pub scalars : (s : Text) → every (λ c. ltb c 0xD800) s ≡ true → All IsScalar s
scalars [] h = tt
scalars (c ∷ s) h = (ground (arith, h), scalars s (ground (arith, h)))
