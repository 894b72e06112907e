-- ===== src/Server/Verify/Authentic.antt =====
-- The challenge of a credential that passes the checks is the server's own, for the route, and not expired.
use pympp.Prelude.{
  ℕ, ◌≡◌, ◌<◌, ◌∙◌, refl, sym, ap, arith, Bool, true, false, not, ◌&&◌, Option, none, some, [], ◌∷◌,
}
use pympp.Prelude.Result.{Result, ok, raise, raise_if, ◌>>◌, bind-ok, raise_if-ok}
use pympp.Headers.{Text, HeaderError, parse_error, canonicalization_error, text_eq}
use pympp.Headers.Params.Slots.{text_eq_sound}
use pympp.Headers.Challenge.{JsonText}
use pympp.Headers.Authorization.{ChallengeEcho}
use pympp.Server.{Libraries, Dicts, Failure, invalid_challenge, Intent}
use pympp.Server.Issue.{Route, generate_challenge_id}
use pympp.Server.Checks.{
  with_offset, later_than, body_digest_error, expiry_checked, malformed, canonicalized,
  decoded_request, decoded_opaque, authenticate_echo, requests_match, application_meta, filled_dict,
  same_dict, checked,
}

module _ (lib : Libraries) (json : JsonText) (dicts : Dicts json.Object)
    (stable_binding : Option (json.Object → Option json.Object)) (route : Route json.Object)
    (intent : Intent json.Object) (now : ℕ) (nonce : Text) where
  -- The challenge that an echo repeats has the identifier that the server's secret gives to its own parameters, is of
  -- this route's realm, method, intent, request, metadata and body, and is not expired.
  pub record IsAuthentic (echo : ChallengeEcho) : Type 0 where
    pub request : json.Object
    pub opaque : Option json.Object
    pub instant : ℕ
    pub expires : Text
    pub request_echoed : decoded_request lib json dicts stable_binding echo.request ≡ ok request
    pub opaque_echoed : decoded_opaque lib json dicts stable_binding echo.opaque ≡ ok opaque
    pub identified :
        generate_challenge_id lib json route.secret_key echo.realm echo.method echo.intent request
          echo.expires echo.digest opaque echo.header
        ≡ ok echo.id
    pub of_realm : echo.realm ≡ route.realm
    pub of_method : echo.method ≡ route.method
    pub of_intent : echo.intent ≡ intent.name
    pub of_request : requests_match lib json dicts stable_binding request route.request ≡ true
    pub of_meta :
        same_dict lib json dicts stable_binding
          (application_meta lib json dicts stable_binding opaque)
          (filled_dict lib json dicts stable_binding route.meta)
        ≡ true
    pub of_body : body_digest_error lib.sha256 echo.digest route.body ≡ false
    pub dated :
        (echo.expires ≡ some expires)
        × (lib.fromisoformat (with_offset expires) ≡ some (some instant))
    pub not_expired : now < instant

  malformed-ok : {A : Type 0} (r : Result HeaderError A) (a : A) → malformed r ≡ ok a → r ≡ ok a
  malformed-ok (ok b) a h = cc h
  malformed-ok (raise e) a h = cc h

  canonicalized-ok :
      {A : Type 0} (r : Result HeaderError A) (a : A) → canonicalized r ≡ ok a → r ≡ ok a
  canonicalized-ok (ok b) a h = cc h
  canonicalized-ok (raise parse_error) a h = cc h
  canonicalized-ok (raise canonicalization_error) a h = cc h

  later_than-ok :
      (o : Option (Option ℕ))
      → later_than now o ≡ ok tt
      → (instant : ℕ) × (o ≡ some (some instant)) × (now < instant)
  later_than-ok none h = cc h
  later_than-ok (some none) h = cc h
  later_than-ok (some (some instant)) h = (instant, refl, ground (arith, h))

  expiry_checked-ok :
      (o : Option Text)
      → expiry_checked lib.fromisoformat now o ≡ ok tt
      → (expires : Text) × (instant : ℕ) × (o ≡ some expires)
        × (lib.fromisoformat (with_offset expires) ≡ some (some instant))
        × (now < instant)
  unfolding expiry_checked
  expiry_checked-ok none h = cc h
  expiry_checked-ok (some []) h = cc h
  expiry_checked-ok (some (c ∷ s)) h =
      let (instant, e, later) = later_than-ok (lib.fromisoformat (with_offset (c ∷ s))) h in
      (c ∷ s, instant, refl, e, later)

  -- A chain of four checks and a fifth returns when none of them raises.
  passed :
      {A : Type 0} (a b c d : Bool) (e : Failure) (m : Result Failure (Unit {0})) (p q : A)
      → (raise_if a e >> (raise_if b e >> (raise_if c e >> (raise_if d e >> (m >> ok p))))) ≡ ok q
      → (a ≡ false) × (b ≡ false) × (c ≡ false) × (d ≡ false) × (m ≡ ok tt)
  passed true b c d e m p q h = cc h
  passed false true c d e m p q h = cc h
  passed false false true d e m p q h = cc h
  passed false false false true e m p q h = cc h
  passed false false false false e (raise f) p q h = cc h
  passed false false false false e (ok u) p q h = (refl, refl, refl, refl, refl)

  not-false : (b : Bool) → not b ≡ false → b ≡ true
  not-false true h = refl
  not-false false h = cc h

  and-true : (a b c : Bool) → (a && b && c) ≡ true → (a ≡ true) × (b ≡ true) × (c ≡ true)
  and-true true true true h = (refl, refl, refl)
  and-true true true false h = cc h
  and-true true false c h = cc h
  and-true false b c h = cc h

  authenticated :
      (echo : ChallengeEcho) (secret_key : Text) (pair : json.Object × Option json.Object)
      → authenticate_echo lib json dicts stable_binding echo secret_key ≡ ok pair
      → (decoded_request lib json dicts stable_binding echo.request ≡ ok (pair.0))
        × (decoded_opaque lib json dicts stable_binding echo.opaque ≡ ok (pair.1))
        × (generate_challenge_id lib json secret_key echo.realm echo.method echo.intent
              (pair.0)
              echo.expires
              echo.digest
              (pair.1)
              echo.header
            ≡ ok echo.id)
  unfolding authenticate_echo
  authenticated echo secret_key pair h =
      let (request, e1, h1) =
        bind-ok (malformed (decoded_request lib json dicts stable_binding echo.request)) _ pair h in
      let (opaque, e2, h2) =
        bind-ok (malformed (decoded_opaque lib json dicts stable_binding echo.opaque)) _ pair h1 in
      let id =
        generate_challenge_id lib json secret_key echo.realm echo.method echo.intent request
          echo.expires echo.digest opaque echo.header in
      let (expected, e3, h3) = bind-ok (canonicalized id) _ pair h2 in
      let (differs, h4) =
        raise_if-ok (not (text_eq echo.id expected)) invalid_challenge (ok (request, opaque)) pair
          h3 in
      let same = text_eq_sound echo.id expected (not-false _ differs) in
      let returned : (request, opaque) ≡ pair = cc h4 in
      rw (← returned) (
        malformed-ok _ request e1,
        malformed-ok _ opaque e2,
        canonicalized-ok id expected e3 ∙ ap ok (sym same),
      )

  pub checked-IsAuthentic :
      (echo : ChallengeEcho) (pair : json.Object × Option json.Object)
      → checked lib json dicts stable_binding route intent.name now echo ≡ ok pair
      → IsAuthentic echo
  unfolding checked
  checked-IsAuthentic echo pair h =
      let (found, e, h1) =
        bind-ok (authenticate_echo lib json dicts stable_binding echo route.secret_key) _ pair h in
      let (request, opaque, id) = authenticated echo route.secret_key found e in
      let matches =
        text_eq echo.realm route.realm
        && text_eq echo.method route.method
        && text_eq echo.intent intent.name in
      let requests = requests_match lib json dicts stable_binding (found.0) route.request in
      let metas =
        same_dict lib json dicts stable_binding
          (application_meta lib json dicts stable_binding (found.1))
          (filled_dict lib json dicts stable_binding route.meta) in
      let (p1, p2, p3, p4, p5) =
        passed (not matches) (not requests) (not metas)
          (body_digest_error lib.sha256 echo.digest route.body) invalid_challenge
          (expiry_checked lib.fromisoformat now echo.expires) found pair h1 in
      let (expires, instant, dated, named, later) = expiry_checked-ok echo.expires (p5) in
      let (realm, method, named_intent) = and-true _ _ _ (not-false matches p1) in
      record {
        request = found.0;
        opaque = found.1;
        instant = instant;
        expires = expires;
        request_echoed = request;
        opaque_echoed = opaque;
        identified = id;
        of_realm = text_eq_sound echo.realm route.realm realm;
        of_method = text_eq_sound echo.method route.method method;
        of_intent = text_eq_sound echo.intent intent.name named_intent;
        of_request = not-false requests p2;
        of_meta = not-false metas p3;
        of_body = p4;
        dated = (dated, named);
        not_expired = later;
      }
