-- ===== src/Server/Verify/Laws.antt =====
-- What the libraries promise, and what a challenge that was created is.
use pympp.Prelude.{
  ℕ, String, ◌≡◌, ◌≤◌, refl, sym, arith, Bool, true, false, ◌||◌, Option, none, some, [], ◌∷◌, ◌++◌,
  leb, ◌==◌, length, is_some,
}
use pympp.Prelude.Result.{Result, ok, raise, bind-ok}
use pympp.Json.{Json}
use pympp.Headers.{Text, codes, HeaderError, text_eq}
use pympp.Headers.Grammar.{every, starts, is_letter, is_digit, advertised_credential_header}
use pympp.Headers.Challenge.{
  JsonText, Challenge, canonical, canonical_text, opaque_text, check_expires,
  max_header_payload_size,
}
use pympp.Headers.Challenge.Issued.{IsJsonText, IsShort}
use pympp.Headers.Challenge.RoundTrip.{Encodes, b64_decode-canonical}
use pympp.Server.{Libraries, Dicts}
use pympp.Server.Digest.{Body, compute, normalized, verify}
use pympp.Server.Issue.{create, generate_challenge_id, has_nonce, raised}
use pympp.Server.Checks.{decoded_request, decoded_opaque}

abbrev pub is_base64_char : ℕ → Bool
is_base64_char c = is_letter c || is_digit c || c == b'+' || c == b'/' || c == b'='

-- What the libraries promise: a digest is base64 text, and the empty text is no timestamp.
pub record IsLibraries (lib : Libraries) : Type 0 where
  pub sha256-base64 : (bytes : Text) → every is_base64_char (lib.sha256 bytes) ≡ true
  pub no_timestamp : lib.fromisoformat [] ≡ none

-- What `dict` promises
pub record IsDicts {Object : Type 0} (dicts : Dicts Object) : Type 0 where
  pub eq_refl : (o : Object) → dicts.eq o o ≡ true
  pub same_item_refl : (v : Option Json) → dicts.same_item v v ≡ true
  pub is_empty-empty : dicts.is_empty dicts.empty ≡ true
  pub item-empty : (k : String) → dicts.item k dicts.empty ≡ none
  pub without-with_text :
      (k : String) (t : Text) (o : Object)
      → dicts.item k o ≡ none
      → dicts.without k (dicts.with_text k t o) ≡ o
  pub without-missing : (k : String) (o : Object) → dicts.item k o ≡ none → dicts.without k o ≡ o

pub text_eq_refl : (s : Text) → text_eq s s ≡ true
text_eq_refl [] = refl
text_eq_refl (c ∷ s) = ground (arith, text_eq_refl s)

base64-ascii : (s : Text) → every is_base64_char s ≡ true → every (λ c. leb c 127) s ≡ true
base64-ascii [] h = refl
base64-ascii (c ∷ s) h = ground (arith, base64-ascii s)

base64-no_colon :
    (s : Text)
    → every is_base64_char s ≡ true
    → starts (codes "sha-256=:") (codes "sha-256=" ++ s) ≡ false
base64-no_colon [] h = refl
base64-no_colon (c ∷ s) h = ground arith

pub raised-ok : {A : Type 0} (r : Result HeaderError A) (a : A) → raised r ≡ ok a → r ≡ ok a
raised-ok (ok b) a h = cc h
raised-ok (raise e) a h = cc h

-- A digest that was computed is verified.
pub verify-compute :
    (sha256 : Text → Text) (body : Body)
    → every is_base64_char (sha256 body.bytes) ≡ true
    → verify sha256 (compute sha256 body) body ≡ true
unfolding verify compute normalized
verify-compute sha256 body h =
    rw
      (
        verify,
        compute,
        normalized,
        base64-no_colon (sha256 body.bytes) h,
        base64-ascii (sha256 body.bytes) h,
        text_eq_refl (sha256 body.bytes),
      )
      refl

module _ (lib : Libraries) (json : JsonText) (dicts : Dicts json.Object)
    (laws : IsJsonText json) where
  pub missing :
      (m : json.Object)
      → has_nonce lib json dicts (some m) ≡ false
      → dicts.item "_mpp_nonce" m ≡ none
  missing m h = go (dicts.item "_mpp_nonce" m) h
    where
      go : (v : Option Json) → is_some v ≡ false → v ≡ none
      go none e = refl
      go (some v) e = cc e

  -- What a challenge that was created is
  pub created :
      (secret_key realm method intent : Text) (request : json.Object)
      (expires digest description : Option Text) (meta : Option json.Object) (header : Option Text)
      (c : Challenge json.Object)
      → create lib json secret_key realm method intent request expires digest description meta
          header
        ≡ ok c
      → (advertised : Option Text) × (id : Text) × (t : Text) × (generate_challenge_id lib json
            secret_key realm method intent request expires digest meta advertised
          ≡ ok id)
        × (canonical json request ≡ ok t)
        × (c ≡ record {
          id = id;
          method = method;
          intent = intent;
          request = request;
          realm = realm;
          request_b64 = t;
          digest = digest;
          expires = expires;
          description = description;
          opaque = meta;
          header = advertised;
          opaque_b64 = none;
        })
  unfolding create
  created secret_key realm method intent request expires digest description meta header c h =
      let (u, dated, h1) = bind-ok (check_expires expires) _ c h in
      let (advertised, e1, h2) = bind-ok (advertised_credential_header header) _ c h1 in
      let (id, e2, h3) =
        bind-ok
          (generate_challenge_id lib json secret_key realm method intent request expires digest meta
            advertised)
          _ c h2 in
      let (t, e3, h4) = bind-ok (canonical json request) _ c h3 in
      (advertised, id, t, e2, e3, sym (cc h4))

  pub canonical-some :
      (o : json.Object) (t : Text) → canonical json o ≡ ok t → json.canonical_b64url o ≡ some t
  unfolding canonical
  canonical-some o t h = go (json.canonical_b64url o) h
    where
      go : (r : Option Text) → canonical_text r ≡ ok t → r ≡ some t
      go none e = cc e
      go (some s) e = cc e

  pub opaque_text-Encodes :
      (o : Option json.Object) (t : Option Text)
      → opaque_text json o none ≡ ok t
      → Encodes json laws o t
  opaque_text-Encodes none none h = tt
  opaque_text-Encodes none (some t) h = cc h
  opaque_text-Encodes (some o) t h =
      let (s, e, h1) = bind-ok (canonical json o) (λ s. ok (some s)) t h in
      let named : some s ≡ t = cc h1 in rw (← named) (canonical-some o s e)

  pub decoded_request-canonical :
      (stable_binding : Option (json.Object → Option json.Object)) (o : json.Object) (t : Text)
      → json.canonical_b64url o ≡ some t
      → length t ≤ max_header_payload_size
      → decoded_request lib json dicts stable_binding t ≡ ok o
  decoded_request-canonical stable_binding o [] h l = cc ((laws.canonical-base64url o [] h).0)
  decoded_request-canonical stable_binding o (c ∷ t) h l =
      b64_decode-canonical json laws o (c ∷ t) h l

  pub decoded_opaque-Encodes :
      (stable_binding : Option (json.Object → Option json.Object)) (o : Option json.Object)
      (t : Option Text)
      → Encodes json laws o t
      → IsShort t
      → decoded_opaque lib json dicts stable_binding t ≡ ok o
  decoded_opaque-Encodes stable_binding none none h l = refl
  decoded_opaque-Encodes stable_binding none (some t) h l = elim h [ ]
  decoded_opaque-Encodes stable_binding (some o) none h l = elim h [ ]
  decoded_opaque-Encodes stable_binding (some o) (some []) h l =
      cc ((laws.canonical-base64url o [] h).0)
  decoded_opaque-Encodes stable_binding (some o) (some (c ∷ t)) h l =
      rw (b64_decode-canonical json laws o (c ∷ t) h l) refl
