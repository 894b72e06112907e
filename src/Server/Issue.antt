-- ===== src/Server/Issue.antt =====
-- src/mpp/__init__.py: `generate_challenge_id` and `Challenge.create`; src/mpp/server/verify.py: `_create_challenge`.
use pympp.Prelude.{ℕ, ◌+◌, Bool, true, false, Option, none, some, List, [], ◌∷◌, ◌++◌, is_some}
use pympp.Prelude.Result.{Result, ok, raise, raise_if, ◌>>=◌, ◌>>◌}
use pympp.Headers.{Text, HeaderError}
use pympp.Headers.Grammar.{advertised_credential_header}
use pympp.Headers.Challenge.{JsonText, Challenge, canonical, encoded_opaque, filled, check_expires}
use pympp.Headers.Authorization.{ChallengeEcho}
use pympp.Server.{Libraries, Dicts, Failure, exception}
use pympp.Server.Digest.{Body, compute}

-- `value or ""`
abbrev pub or_empty : Option Text → Text
or_empty none = []
or_empty (some s) = s

-- `"|".join(parts)`
unfoldable pub piped : List Text → Text
piped [] = []
piped (p ∷ []) = p
piped (p ∷ q ∷ ps) = p ++ (b'|' ∷ piped (q ∷ ps))

-- The slot of the credential header, only when one is advertised, and the last slot
abbrev pub last_slots : Option Text → Text → List Text
last_slots none opaque_b64 = opaque_b64 ∷ []
last_slots (some header) opaque_b64 = header ∷ opaque_b64 ∷ []

-- What the identifier of a challenge is computed from
unfoldable pub hmac_parts :
    Text → Text → Text → Text → Option Text → Option Text → Option Text → Text → List Text
hmac_parts realm method intent request_b64 expires digest advertised opaque_b64 =
    realm
    ∷ method
    ∷ intent
    ∷ request_b64
    ∷ or_empty expires
    ∷ or_empty digest
    ∷ last_slots (filled advertised) opaque_b64

module _ (lib : Libraries) (json : JsonText) where
  -- `_challenge_id`
  unfoldable pub challenge_id :
      Text
      → Text
      → Text
      → Text
      → json.Object
      → Option Text
      → Option Text
      → Text
      → Option Text
      → Result HeaderError Text
  unfolding canonical advertised_credential_header hmac_parts piped
  challenge_id secret_key realm method intent request expires digest opaque_b64 header = do
    request_b64 ← canonical json request
    advertised ← advertised_credential_header header
    ok (
        lib.hmac_sha256 secret_key
          (piped (hmac_parts realm method intent request_b64 expires digest advertised opaque_b64)))

  abbrev pub opaque_slot : Option json.Object → Result HeaderError Text
  opaque_slot none = ok []
  opaque_slot (some o) = canonical json o

  unfoldable pub generate_challenge_id :
      Text
      → Text
      → Text
      → Text
      → json.Object
      → Option Text
      → Option Text
      → Option json.Object
      → Option Text
      → Result HeaderError Text
  unfolding challenge_id canonical
  generate_challenge_id secret_key realm method intent request expires digest opaque header = do
    opaque_b64 ← opaque_slot opaque
    challenge_id secret_key realm method intent request expires digest opaque_b64 header

  -- `Challenge.create`
  unfoldable pub create :
      Text
      → Text
      → Text
      → Text
      → json.Object
      → Option Text
      → Option Text
      → Option Text
      → Option json.Object
      → Option Text
      → Result HeaderError (Challenge json.Object)
  unfolding generate_challenge_id advertised_credential_header canonical
  create secret_key realm method intent request expires digest description meta header =
      check_expires expires
      >> (advertised_credential_header header >>= λ advertised.
          generate_challenge_id secret_key realm method intent request expires digest meta
            advertised
          >>= λ id. canonical json request >>= λ request_b64. ok (record {
            id = id;
            method = method;
            intent = intent;
            request = request;
            realm = realm;
            request_b64 = request_b64;
            digest = digest;
            expires = expires;
            description = description;
            opaque = meta;
            header = advertised;
            opaque_b64 = none;
          }))

  -- `Challenge.to_echo`
  unfoldable pub to_echo : Challenge json.Object → Result HeaderError ChallengeEcho
  unfolding encoded_opaque
  to_echo c = do
    opaque_b64 ← encoded_opaque json c
    ok (record {
      id = c.id;
      realm = c.realm;
      method = c.method;
      intent = c.intent;
      request = c.request_b64;
      expires = c.expires;
      digest = c.digest;
      opaque = opaque_b64;
      header = c.header;
      description = c.description;
    })

-- The arguments of `verify_or_challenge` that challenges are issued from. `request` is the request after
-- `transform_units`, and `refuses` says whether the checks of a tempo charge refuse a request with an expiry.
pub record Route (Object : Type 0) : Type 0 where
  pub realm : Text
  pub secret_key : Text
  pub method : Text
  pub request : Object
  pub description : Option Text
  pub meta : Option Object
  pub expires : Option Text
  pub body : Option Body
  pub header : Option Text
  pub unique_challenges : Bool
  pub refuses : Object → Text → Bool

-- `DEFAULT_EXPIRES_MINUTES`, in seconds
abbrev pub default_expires_seconds : ℕ
default_expires_seconds = 300

abbrev pub raised {κ} : {A : Type κ} → Result HeaderError A → Result Failure A
raised (ok a) = ok a
raised (raise e) = raise exception

module _ (lib : Libraries) (json : JsonText) (dicts : Dicts json.Object) where
  abbrev pub or_dict : Option json.Object → json.Object
  or_dict none = dicts.empty
  or_dict (some m) = m

  abbrev pub has_nonce : Option json.Object → Bool
  has_nonce none = false
  has_nonce (some m) = is_some (dicts.item "_mpp_nonce" m)

  -- The metadata of a challenge, with a nonce that no other challenge has
  abbrev pub issued_meta : Bool → Text → Option json.Object → Option json.Object
  issued_meta true nonce meta = some (dicts.with_text "_mpp_nonce" nonce (or_dict meta))
  issued_meta false nonce meta = meta

  abbrev pub expiry : ℕ → Option Text → Text
  expiry now none = lib.isoformat (now + default_expires_seconds)
  expiry now (some s) = s

  abbrev pub body_digest : Option Body → Option Text
  body_digest none = none
  body_digest (some body) = some (compute lib.sha256 body)

  -- `_create_challenge`, at an instant, with the nonce that `secrets.token_hex` gives
  unfoldable pub create_challenge :
      Route json.Object → Text → ℕ → Text → Result Failure (Challenge json.Object)
  unfolding create compute
  create_challenge route intent now nonce =
      raise_if (route.refuses route.request (expiry now route.expires)) exception
      >> (raise_if (has_nonce route.meta) exception
          >> raised (
              create lib json route.secret_key route.realm route.method intent route.request
                (some (expiry now route.expires)) (body_digest route.body) route.description
                (issued_meta route.unique_challenges nonce route.meta) route.header))
