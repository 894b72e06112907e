-- ===== src/Server/Checks.antt =====
-- src/mpp/server/verify.py: the checks of a credential's challenge.
use pympp.Prelude.{
  ℕ, Bool, true, false, not, ◌&&◌, Option, none, some, [], ◌∷◌, ◌++◌, leb, ◌==◌, if◌then◌else◌,
}
use pympp.Prelude.Result.{Result, ok, raise, raise_if, ◌>>=◌, ◌>>◌}
use pympp.Headers.{Text, codes, HeaderError, parse_error, canonicalization_error, text_eq}
use pympp.Headers.Challenge.{JsonText, b64_decode, max_header_payload_size}
use pympp.Headers.Authorization.{ChallengeEcho}
use pympp.Server.{
  Libraries, Dicts, Failure, malformed_credential, invalid_challenge, payment_expired, exception,
}
use pympp.Server.Digest.{Body, verify}
use pympp.Server.Issue.{Route, generate_challenge_id}

-- `text.replace("Z", "+00:00")`
abbrev pub with_offset : Text → Text
with_offset [] = []
with_offset (c ∷ s) =
    let rest = with_offset s in if c == b'Z' then codes "+00:00" ++ rest else c ∷ rest

-- `_body_digest_error`, as whether there is one
unfoldable pub body_digest_error : (Text → Text) → Option Text → Option Body → Bool
unfolding verify
body_digest_error sha256 none none = false
body_digest_error sha256 (some d) none = true
body_digest_error sha256 none (some body) = true
body_digest_error sha256 (some []) (some body) = true
body_digest_error sha256 (some (c ∷ d)) (some body) = not (verify sha256 (c ∷ d) body)

-- The instant that an expiry names, if it names one, is later than now.
abbrev pub later_than : ℕ → Option (Option ℕ) → Result Failure (Unit {0})
later_than now none = raise invalid_challenge
later_than now (some none) = raise invalid_challenge
later_than now (some (some instant)) = raise_if (leb instant now) payment_expired

-- The checks of a challenge's expiry, at an instant
unfoldable pub expiry_checked :
    (Text → Option (Option ℕ)) → ℕ → Option Text → Result Failure (Unit {0})
expiry_checked fromisoformat now none = raise invalid_challenge
expiry_checked fromisoformat now (some []) = raise invalid_challenge
expiry_checked fromisoformat now (some (c ∷ s)) =
    later_than now (fromisoformat (with_offset (c ∷ s)))

abbrev pub malformed {κ} : {A : Type κ} → Result HeaderError A → Result Failure A
malformed (ok a) = ok a
malformed (raise e) = raise malformed_credential

-- The errors of `generate_challenge_id` that `_authenticate_echo` turns into its own
abbrev pub canonicalized {κ} : {A : Type κ} → Result HeaderError A → Result Failure A
canonicalized (ok a) = ok a
canonicalized (raise canonicalization_error) = raise malformed_credential
canonicalized (raise parse_error) = raise exception

module _ (lib : Libraries) (json : JsonText) (dicts : Dicts json.Object)
    (stable_binding : Option (json.Object → Option json.Object)) where
  abbrev pub decoded_request : Text → Result HeaderError json.Object
  decoded_request [] = ok dicts.empty
  decoded_request (c ∷ s) = b64_decode json max_header_payload_size (c ∷ s)

  abbrev pub decoded_opaque : Option Text → Result HeaderError (Option json.Object)
  decoded_opaque none = ok none
  decoded_opaque (some []) = ok none
  decoded_opaque (some (c ∷ s)) =
      b64_decode json max_header_payload_size (c ∷ s) >>= λ o. ok (some o)

  -- `_authenticate_echo`
  unfoldable pub authenticate_echo :
      ChallengeEcho → Text → Result Failure (json.Object × Option json.Object)
  unfolding generate_challenge_id b64_decode
  authenticate_echo echo secret_key = malformed (decoded_request echo.request) >>= λ request.
      malformed (decoded_opaque echo.opaque) >>= λ opaque.
      canonicalized (
        generate_challenge_id lib json secret_key echo.realm echo.method echo.intent request
          echo.expires echo.digest opaque echo.header)
      >>= λ expected_id.
          raise_if (not (text_eq echo.id expected_id)) invalid_challenge >> ok (request, opaque)

  abbrev pub same_binding : Option json.Object → Option json.Object → Bool
  same_binding (some a) (some b) = dicts.eq a b
  same_binding (some a) none = false
  same_binding none b = false

  abbrev pub bound : Option (json.Object → Option json.Object) → json.Object → json.Object → Bool
  bound none echoed expected = dicts.eq echoed expected
  bound (some binding) echoed expected =
      dicts.same_item (dicts.item "_mppx_scope" echoed) (dicts.item "_mppx_scope" expected)
      && same_binding (binding echoed) (binding expected)

  -- `_requests_match`
  unfoldable pub requests_match : json.Object → json.Object → Bool
  requests_match echoed expected = bound stable_binding echoed expected

  -- `meta or None`
  abbrev pub filled_dict : Option json.Object → Option json.Object
  filled_dict none = none
  filled_dict (some m) = if dicts.is_empty m then none else some m

  -- `_application_meta`
  unfoldable pub application_meta : Option json.Object → Option json.Object
  application_meta none = none
  application_meta (some m) = filled_dict (some (dicts.without "_mpp_nonce" m))

  abbrev pub same_dict : Option json.Object → Option json.Object → Bool
  same_dict none none = true
  same_dict none (some b) = false
  same_dict (some a) none = false
  same_dict (some a) (some b) = dicts.eq a b

  -- The checks of a credential's challenge, in their order
  unfoldable pub checked :
      Route json.Object
      → Text
      → ℕ
      → ChallengeEcho
      → Result Failure (json.Object × Option json.Object)
  unfolding authenticate_echo requests_match application_meta body_digest_error expiry_checked
  checked route intent now echo = authenticate_echo echo route.secret_key >>= λ pair.
      raise_if
        (not (
          text_eq echo.realm route.realm
          && text_eq echo.method route.method
          && text_eq echo.intent intent))
        invalid_challenge
      >> (raise_if (not (requests_match (pair.0) route.request)) invalid_challenge
          >> (raise_if (not (same_dict (application_meta (pair.1)) (filled_dict route.meta)))
                invalid_challenge
              >> (raise_if (body_digest_error lib.sha256 echo.digest route.body) invalid_challenge
                  >> (expiry_checked lib.fromisoformat now echo.expires >> ok pair))))
