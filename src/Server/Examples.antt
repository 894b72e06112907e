-- ===== src/Server/Examples.antt =====
-- A challenge issued and paid, at a concrete route.
use Prim.Native.Nat.{◌%◌}
use pympp.Prelude.{
  ℕ, ◌+◌, ◌-◌, ◌≡◌, refl, arith, Bool, true, false, not, Option, none, some, ◌∷◌, ◌==◌,
  if◌then◌else◌, String, str_eq, leb→le, ltb→lt, is_some, Bool-cases, inl, inr,
}
use pympp.Prelude.Result.{◌>>=◌, ok, raise}
use pympp.Json.{Json, null, text, object, field, end}
use pympp.Headers.{Text, codes, text_eq}
use pympp.Headers.Quoted.{has_line_break, escaped}
use pympp.Headers.Params.{joined, auth_param}
use pympp.Headers.Challenge.{format_www_authenticate, parse_www_authenticate}
use pympp.Headers.Challenge.Issued.{IsIssued}
use pympp.Headers.Grammar.{is_method_id, advertised_credential_header}
use pympp.Server.Verify.Journey.{checked-parse_www_authenticate}
use pympp.Headers.Sample.{scalars, numbers, numbers-IsJsonText, unary}
use pympp.Headers.Grammar.{validate_expires}
use pympp.Headers.Challenge.{Challenge}
use pympp.Headers.Authorization.{ChallengeEcho}
use pympp.Server.{Libraries, Dicts, Intent, exception}
use pympp.Server.Issue.{hmac_parts, Route, create_challenge, to_echo}
use pympp.Server.Binding.{Parameters, hmac_input, hmac_input_injective}
use pympp.Server.Checks.{checked}
use pympp.Server.Verify.{verify_or_challenge, paid}
use pympp.Server.Verify.Soundness.{IsSound, verify_or_challenge-IsSound}
use pympp.Server.Verify.Laws.{IsLibraries, IsDicts}
use pympp.Server.Verify.Complete.{checked-create_challenge}

abbrev expiry_text : Text
expiry_text = codes "2026-01-01T00:05:00Z"

abbrev instant_of : Text → Option (Option ℕ)
instant_of s = if text_eq s (codes "2026-01-01T00:05:00+00:00") then some (some 1300) else none

abbrev lib : Libraries
lib = record {
  hmac_sha256 = λ secret input. b'm' ∷ secret;
  sha256 = λ bytes. codes "c2hh";
  fromisoformat = instant_of;
  isoformat = λ now. expiry_text;
}

lib-IsLibraries : IsLibraries lib
lib-IsLibraries = record { sha256-base64 = λ bytes. refl; no_timestamp = refl }

-- An odd number has the nonce; 7 is a credential's object.
abbrev is_odd : ℕ → Bool
is_odd n = n % 2 == 1

abbrev echo_json : Json
echo_json = object (
    field "id" (text "mk") (
      field "realm" (text "api") (
        field "method" (text "tempo") (
          field "intent" (text "charge") (
            field "request" (text "AAAAA") (
              field "expires" (text "2026-01-01T00:05:00Z")
                (field "digest" (text "sha-256=c2hh") (field "opaque" (text "AA") end))))))))

abbrev item_of : String → ℕ → Option Json
item_of k n =
    if str_eq k "_mpp_nonce"
    then (if is_odd n then some null else none)
    else if n == 7
    then (if str_eq k "challenge"
        then some echo_json
        else (if str_eq k "payload" then some null else none))
    else none

abbrev with_item : String → Text → ℕ → ℕ
with_item k t n = if str_eq k "_mpp_nonce" then (if is_odd n then n else n + 1) else n

abbrev without_item : String → ℕ → ℕ
without_item k n = if str_eq k "_mpp_nonce" then n - n % 2 else n

abbrev dicts : Dicts ℕ
dicts = record {
  item = item_of;
  eq = ◌==◌;
  same_item = λ a b. if is_some a then is_some b else not (is_some b);
  empty = 0;
  is_empty = λ n. n == 0;
  without = without_item;
  with_text = with_item;
}

item_of-nonce :
    (n : ℕ) (k : String) → str_eq k "_mpp_nonce" ≡ true → item_of k n ≡ none → is_odd n ≡ false
item_of-nonce n k h e = elim (Bool-cases (is_odd n)) [
  | inl odd ↦ ground (arith, h, e, odd)
  | inr even ↦ even
]

without-with :
    (k : String) (t : Text) (n : ℕ) → item_of k n ≡ none → without_item k (with_item k t n) ≡ n
without-with k t n e = elim (Bool-cases (str_eq k "_mpp_nonce")) [
  | inl h ↦ let even = item_of-nonce n k h e in rw (h, even) (omega (arith, rest n even))
  | inr h ↦ rw h refl
]
  where
    rest : (n : ℕ) → is_odd n ≡ false → n % 2 ≡ 0
    rest n h = ground (arith, h)

without-none : (k : String) (n : ℕ) → item_of k n ≡ none → without_item k n ≡ n
without-none k n e = elim (Bool-cases (str_eq k "_mpp_nonce")) [
  | inl h ↦ let even = item_of-nonce n k h e in rw h (ground (arith, even))
  | inr h ↦ rw h refl
]

item_of-empty : (k : String) → item_of k 0 ≡ none
item_of-empty k = elim (Bool-cases (str_eq k "_mpp_nonce")) [
  | inl h ↦ rw h refl
  | inr h ↦ rw h refl
]

same_refl : (v : Option Json) → dicts.same_item v v ≡ true
same_refl none = refl
same_refl (some v) = refl

dicts-IsDicts : IsDicts dicts
dicts-IsDicts = record {
  eq_refl = λ o. ground arith;
  same_item_refl = same_refl;
  is_empty-empty = refl;
  item-empty = item_of-empty;
  without-with_text = without-with;
  without-missing = without-none;
}

abbrev route : Route ℕ
route = record {
  realm = codes "api";
  secret_key = codes "k";
  method = codes "tempo";
  request = 4;
  description = none;
  meta = none;
  expires = none;
  body = some (record { bytes = codes "hi"; legacy = none });
  header = none;
  unique_challenges = true;
  refuses = λ request expires. false;
}

abbrev issued : Challenge ℕ
issued = record {
  id = codes "mk";
  method = codes "tempo";
  intent = codes "charge";
  request = 4;
  realm = codes "api";
  request_b64 = unary 4;
  digest = some (codes "sha-256=c2hh");
  expires = some expiry_text;
  description = none;
  opaque = some 1;
  header = none;
  opaque_b64 = none;
}

abbrev echo : ChallengeEcho
echo = record {
  id = codes "mk";
  realm = codes "api";
  method = codes "tempo";
  intent = codes "charge";
  request = unary 4;
  expires = some expiry_text;
  digest = some (codes "sha-256=c2hh");
  opaque = some (unary 1);
  header = none;
  description = none;
}

checked-create_challenge_example :
    checked lib numbers dicts none route (codes "charge") 1200 echo ≡ ok (4, some 1)
unfolding create_challenge to_echo validate_expires
checked-create_challenge_example =
    checked-create_challenge lib numbers dicts numbers-IsJsonText dicts-IsDicts lib-IsLibraries none
      route (codes "charge") 1000 1200 1300 (codes "n") issued echo refl refl (leb→le _ _ refl)
      (leb→le _ _ refl) refl (ltb→lt _ _ refl) tt

issued-IsIssued : IsIssued issued (codes "api")
unfolding has_line_break is_method_id validate_expires advertised_credential_header
issued-IsIssued = record {
  id_text = ((scalars issued.id refl, refl), refl);
  realm_text = ((scalars (codes "api") refl, refl), refl);
  method_text = ((scalars issued.method refl, refl), refl);
  intent_text = ((scalars issued.intent refl, refl), refl);
  digest_text = (scalars (codes "sha-256=c2hh") refl, refl);
  expires_text = (scalars expiry_text refl, refl);
  description_text = tt;
  header_text = tt;
  method_id = refl;
  digest_ok = refl;
  expires_ok = refl;
  header_ok = refl;
  no_opaque_text = refl;
}

checked-parse_www_authenticate_example :
    (echo : ChallengeEcho) × ((format_www_authenticate numbers issued (codes "api") >>= λ header.
    parse_www_authenticate numbers header >>= to_echo lib numbers)
      ≡ ok echo)
    × (checked lib numbers dicts none route (codes "charge") 1200 echo ≡ ok (4, some 1))
unfolding create_challenge joined auth_param escaped validate_expires
checked-parse_www_authenticate_example =
    checked-parse_www_authenticate lib numbers dicts numbers-IsJsonText dicts-IsDicts
      lib-IsLibraries none route (codes "charge") 1000 1200 1300 (codes "n") issued (unary 4)
      (some (unary 1)) refl issued-IsIssued refl refl (leb→le _ _ refl) (leb→le _ _ refl)
      (leb→le _ _ refl) refl (ltb→lt _ _ refl) tt

abbrev charge_intent : Intent ℕ
charge_intent = record {
  name = codes "charge";
  has_broadcast = true;
  validate = λ c request. ok (some (some (codes "0xpayer")));
  broadcast = λ c request. ok (record { reference = codes "0xhash"; payer = none });
  verify = λ c request. raise exception;
}

verify_or_challenge-IsSound_example :
    IsSound lib numbers dicts none route charge_intent 1200 (codes "n") (
      verify_or_challenge lib numbers dicts none route charge_intent 1200
        (codes "n")
        (λ v. "None")
        (some (codes "Payment AAAAAAAA")))
verify_or_challenge-IsSound_example =
    verify_or_challenge-IsSound lib numbers dicts none route charge_intent 1200 (codes "n")
      (λ v. "None") (some (codes "Payment AAAAAAAA"))

-- This credential is paid.
is_paid :
    (verify_or_challenge lib numbers dicts none route charge_intent 1200
      (codes "n")
      (λ v. "None")
      (some (codes "Payment AAAAAAAA"))).0
    ≡ paid
        (record { challenge = echo; payload = null; source = none })
        (record { reference = codes "0xhash"; payer = some (codes "0xpayer") })
unfolding verify_or_challenge
is_paid = refl

abbrev plain : Parameters
plain = record {
  realm = codes "api";
  method = codes "tempo";
  intent = codes "charge";
  request_b64 = codes "AAAAA";
  expires = some expiry_text;
  digest = none;
  header = some (codes "X|Pay");
  opaque_b64 = codes "AA";
}

hmac_input_injective_example :
    (plain.realm ≡ codes "api")
    × (plain.method ≡ codes "tempo")
    × (plain.intent ≡ codes "charge")
    × (plain.request_b64 ≡ codes "AAAAA")
    × (expiry_text ≡ expiry_text)
    × (codes "" ≡ codes "")
    × (some (codes "X|Pay") ≡ some (codes "X|Pay"))
    × (codes "AA" ≡ codes "AA")
unfolding hmac_parts
hmac_input_injective_example =
    hmac_input_injective plain (record plain { digest = some (codes "") })
      (refl, refl, refl, refl, refl, refl, refl) (refl, refl, refl, refl, refl, refl, refl) refl

-- A digest with a pipe in it and no header gives the text of a digest and a header.
pipes_collide :
    hmac_input (record plain { digest = some (codes "sha|X-Pay"); header = none })
    ≡ hmac_input (record plain { digest = some (codes "sha"); header = some (codes "X-Pay") })
unfolding hmac_parts pympp.Server.Issue.piped
pipes_collide = refl
