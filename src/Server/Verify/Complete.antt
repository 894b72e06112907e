-- ===== src/Server/Verify/Complete.antt =====
-- A challenge that the server issued, echoed unchanged, passes the checks of its route until it expires.
use mathlib.Core.Path.{subst}
use pympp.Prelude.{
  ℕ, ◌≡◌, ◌≤◌, ◌<◌, ◌∙◌, refl, sym, ap, arith, Bool, true, false, Option, none, some, [], ◌∷◌, leb,
  length,
}
use pympp.Prelude.Result.{ok, bind-ok, raise_if-ok}
use pympp.Headers.{Text}
use pympp.Headers.Challenge.{
  JsonText, Challenge, encoded_opaque, opaque_text, max_header_payload_size,
}
use pympp.Headers.Challenge.Issued.{IsJsonText, IsShort}
use pympp.Headers.Challenge.RoundTrip.{Encodes}
use pympp.Headers.Authorization.{ChallengeEcho}
use pympp.Server.{Libraries, Dicts, exception}
use pympp.Server.Digest.{Body, compute}
use pympp.Server.Issue.{
  Route, create_challenge, generate_challenge_id, to_echo, issued_meta, has_nonce, expiry,
  body_digest,
}
use pympp.Server.Checks.{
  with_offset, body_digest_error, expiry_checked, authenticate_echo, bound, requests_match,
  application_meta, filled_dict, same_dict, checked,
}
use pympp.Server.Verify.Laws.{
  IsLibraries, IsDicts, raised-ok, text_eq_refl, verify-compute, missing, created, canonical-some,
  opaque_text-Encodes, decoded_request-canonical, decoded_opaque-Encodes,
}

module _ (lib : Libraries) (json : JsonText) (dicts : Dicts json.Object)
    (laws : IsJsonText json) where
  module _ (rules : IsDicts dicts) (promises : IsLibraries lib)
      (stable_binding : Option (json.Object → Option json.Object)) where
    same_dict_refl : (o : Option json.Object) → same_dict lib json dicts stable_binding o o ≡ true
    same_dict_refl none = refl
    same_dict_refl (some o) = rules.eq_refl o

    -- The metadata of an issued challenge are the route's.
    application_meta-issued_meta :
        (unique : Bool) (nonce : Text) (meta : Option json.Object)
        → has_nonce lib json dicts meta ≡ false
        → same_dict lib json dicts stable_binding
            (application_meta lib json dicts stable_binding
              (issued_meta lib json dicts unique nonce meta))
            (filled_dict lib json dicts stable_binding meta)
          ≡ true
    unfolding application_meta
    application_meta-issued_meta false nonce none h = refl
    application_meta-issued_meta true nonce none h =
        rw
          (
            application_meta,
            rules.without-with_text "_mpp_nonce" nonce dicts.empty (rules.item-empty "_mpp_nonce"),
            rules.is_empty-empty,
          )
          refl
    application_meta-issued_meta true nonce (some m) h =
        rw
          (
            application_meta,
            rules.without-with_text "_mpp_nonce" nonce m (missing lib json dicts laws m h),
          )
          (same_dict_refl (filled_dict lib json dicts stable_binding (some m)))
    application_meta-issued_meta false nonce (some m) h =
        rw
          (application_meta, rules.without-missing "_mpp_nonce" m (missing lib json dicts laws m h))
          (same_dict_refl (filled_dict lib json dicts stable_binding (some m)))

    body_digest-ok :
        (body : Option Body)
        → body_digest_error lib.sha256 (body_digest lib json dicts body) body ≡ false
    unfolding body_digest_error compute
    body_digest-ok none = refl
    body_digest-ok (some body) =
        rw (verify-compute lib.sha256 body (promises.sha256-base64 body.bytes)) refl

    expiry_checked-later :
        (now instant : ℕ) (e : Text)
        → lib.fromisoformat (with_offset e) ≡ some (some instant)
        → now < instant
        → expiry_checked lib.fromisoformat now (some e) ≡ ok tt
    unfolding expiry_checked
    expiry_checked-later now instant [] named later = cc (sym promises.no_timestamp ∙ named)
    expiry_checked-later now instant (c ∷ s) named later =
        let passed : leb instant now ≡ false = ground (arith, later) in
        rw (expiry_checked, named, passed) refl

    -- The stable binding, if there is one, gives the fields of the request.
    abbrev pub IsBound : Option (json.Object → Option json.Object) → json.Object → Type 0
    IsBound none o = Unit
    IsBound (some binding) o = (fields : json.Object) × (binding o ≡ some fields)

    requests_match_refl :
        (o : json.Object)
        → IsBound stable_binding o
        → requests_match lib json dicts stable_binding o o ≡ true
    unfolding requests_match
    requests_match_refl o h = go stable_binding h
      where
        go :
            (b : Option (json.Object → Option json.Object))
            → IsBound b o
            → bound lib json dicts stable_binding b o o ≡ true
        go none h = rules.eq_refl o
        go (some binding) h =
            rw (rules.same_item_refl (dicts.item "_mppx_scope" o), h.1) (rules.eq_refl (h.0))

    -- The echo of an issued challenge
    abbrev pub echo_of :
        Route json.Object
        → Text
        → Text
        → Text
        → Text
        → Option Text
        → Option Text
        → Option Text
        → ChallengeEcho
    echo_of route intent e id t opaque advertised description = record {
      id = id;
      realm = route.realm;
      method = route.method;
      intent = intent;
      request = t;
      expires = some e;
      digest = body_digest lib json dicts route.body;
      opaque = opaque;
      header = advertised;
      description = description;
    }

    pub checked-echo_of :
        (route : Route json.Object) (intent e id t : Text)
        (opaque advertised description : Option Text) (now instant : ℕ) (nonce : Text)
        → generate_challenge_id lib json route.secret_key route.realm route.method intent
            route.request
            (some e)
            (body_digest lib json dicts route.body)
            (issued_meta lib json dicts route.unique_challenges nonce route.meta)
            advertised
          ≡ ok id
        → json.canonical_b64url route.request ≡ some t
        → Encodes json laws
            (issued_meta lib json dicts route.unique_challenges nonce route.meta)
            opaque
        → has_nonce lib json dicts route.meta ≡ false
        → (length t ≤ max_header_payload_size) × IsShort opaque
        → lib.fromisoformat (with_offset e) ≡ some (some instant)
        → now < instant
        → IsBound stable_binding route.request
        → checked lib json dicts stable_binding route intent now
            (echo_of route intent e id t opaque advertised description)
          ≡ ok (route.request, issued_meta lib json dicts route.unique_challenges nonce route.meta)
    unfolding checked authenticate_echo
    checked-echo_of route intent e id t opaque advertised description now instant nonce identified
          encoded enc fresh short named later bind =
        rw
          (
            checked,
            authenticate_echo,
            decoded_request-canonical lib json dicts laws stable_binding route.request t encoded
                short.0,
            decoded_opaque-Encodes lib json dicts laws stable_binding _ opaque enc short.1,
            identified,
            text_eq_refl id,
            text_eq_refl route.realm,
            text_eq_refl route.method,
            text_eq_refl intent,
            requests_match_refl route.request bind,
            application_meta-issued_meta route.unique_challenges nonce route.meta fresh,
            body_digest-ok route.body,
            expiry_checked-later now instant e named later,
          )
          refl

    -- Take a challenge that `_create_challenge` issued for a route, and the echo that a client makes of it. As long as
    -- the instant that its expiry names is later than now, and its encoded request and opaque data are within the
    -- header size limit, the echo passes every check of `verify_or_challenge` on this route, which decodes the route's
    -- request and the metadata issued. The libraries keep their promises, `IsJsonText`, `IsDicts` and `IsLibraries`, and
    -- the stable binding, if there is one, gives fields of the route's request.
    pub checked-create_challenge :
        (route : Route json.Object) (intent : Text) (issued_at now instant : ℕ) (nonce : Text)
        (c : Challenge json.Object) (echo : ChallengeEcho)
        → create_challenge lib json dicts route intent issued_at nonce ≡ ok c
        → to_echo lib json c ≡ ok echo
        → length echo.request ≤ max_header_payload_size
        → IsShort echo.opaque
        → lib.fromisoformat (with_offset (expiry lib json dicts issued_at route.expires))
          ≡ some (some instant)
        → now < instant
        → IsBound stable_binding route.request
        → checked lib json dicts stable_binding route intent now echo
          ≡ ok (route.request, issued_meta lib json dicts route.unique_challenges nonce route.meta)
    unfolding checked create_challenge to_echo encoded_opaque authenticate_echo
    checked-create_challenge route intent issued_at now instant nonce c echo h k l lo named later
          bind =
        let e = expiry lib json dicts issued_at route.expires in
        let meta = issued_meta lib json dicts route.unique_challenges nonce route.meta in
        let digest = body_digest lib json dicts route.body in
        let (allowed, h1) = raise_if-ok (route.refuses route.request e) exception _ c h in
        let (fresh, h2) = raise_if-ok (has_nonce lib json dicts route.meta) exception _ c h1 in
        let (advertised, id, t, identified, encoded, made) =
          created lib json dicts laws route.secret_key route.realm route.method intent route.request
            (some e) digest route.description meta route.header c (raised-ok _ c h2) in
        let echoing = ap (to_echo lib json) (sym made) ∙ k in
        let (opaque, kept, returned) = bind-ok (opaque_text json meta none) _ echo echoing in
        let echoed : echo_of route intent e id t opaque advertised route.description ≡ echo =
          cc returned in
        let short =
          subst (λ x. (length x.request ≤ max_header_payload_size) × IsShort x.opaque) (sym echoed)
            (l, lo) in
        ap (checked lib json dicts stable_binding route intent now) (sym echoed)
        ∙ checked-echo_of route intent e id t opaque advertised route.description now instant nonce
            identified (canonical-some lib json dicts laws route.request t encoded)
            (opaque_text-Encodes lib json dicts laws meta opaque kept) fresh short named later bind
