-- ===== src/Server/Verify/Journey.antt =====
-- A challenge travels from the server to the client and back.
use mathlib.Core.Path.{subst}
use pympp.Prelude.{ℕ, ◌≡◌, ◌≤◌, ◌<◌, ◌∙◌, refl, sym, ap, Option, none, some, [], ◌∷◌, length}
use pympp.Prelude.Result.{ok, ◌>>=◌, raise_if-ok}
use pympp.Headers.{Text}
use pympp.Headers.Challenge.{
  JsonText, Challenge, encoded_opaque, opaque_text, max_header_payload_size,
}
use pympp.Headers.Challenge.Issued.{IsJsonText, IsShort}
use pympp.Headers.Challenge.RoundTrip.{Encodes}
use pympp.Headers.Authorization.{ChallengeEcho}
use pympp.Server.{Libraries, Dicts, exception}
use pympp.Server.Digest.{Body, compute}
use pympp.Server.Issue.{
  Route, create_challenge, to_echo, issued_meta, has_nonce, expiry, body_digest,
}
use pympp.Server.Checks.{with_offset, checked}
use pympp.Server.Verify.Laws.{IsLibraries, IsDicts, raised-ok, created}
use pympp.Headers.Params.{max_authorization_size}
use pympp.Headers.Challenge.{
  filled, reuse, b64_decode, parse_www_authenticate, format_www_authenticate,
}
use pympp.Headers.Challenge.Issued.{IsIssued, received}
use pympp.Headers.Challenge.RoundTrip.{
  b64_decode-canonical, header_text, parse_www_authenticate-format_www_authenticate,
}
use pympp.Server.Verify.Complete.{IsBound, echo_of, checked-echo_of}

module _ (lib : Libraries) (json : JsonText) (dicts : Dicts json.Object)
    (laws : IsJsonText json) where
  -- A client that received canonical opaque data echoes their text.
  opaque_text-received :
      (o : Option json.Object) (t : Option Text)
      → Encodes json laws o t
      → IsShort t
      → opaque_text json o (filled t) ≡ ok t
  unfolding b64_decode
  opaque_text-received none none h l = refl
  opaque_text-received none (some t) h l = elim h [ ]
  opaque_text-received (some o) none h l = elim h [ ]
  opaque_text-received (some o) (some []) h l = cc ((laws.canonical-base64url o [] h).0)
  opaque_text-received (some o) (some (c ∷ t)) h l =
      ap (reuse json o (c ∷ t)) (b64_decode-canonical json laws o (c ∷ t) h l)
      ∙ rw (laws.json_equal_refl o) refl

  -- What the client echoes of a challenge that it received
  abbrev client_echo : Challenge json.Object → Text → Text → Option Text → ChallengeEcho
  client_echo c realm t o = record {
    id = c.id;
    realm = realm;
    method = c.method;
    intent = c.intent;
    request = t;
    expires = filled c.expires;
    digest = filled c.digest;
    opaque = o;
    header = c.header;
    description = filled c.description;
  }

  to_echo-received :
      (c : Challenge json.Object) (realm t : Text) (o : Option Text)
      → Encodes json laws c.opaque o
      → IsShort o
      → to_echo lib json (received c realm t o) ≡ ok (client_echo c realm t o)
  unfolding to_echo encoded_opaque
  to_echo-received c realm t o enc short = rw (opaque_text-received c.opaque o enc short) refl

  filled-body_digest :
      (body : Option Body)
      → filled (body_digest lib json dicts body) ≡ body_digest lib json dicts body
  unfolding compute
  filled-body_digest none = refl
  filled-body_digest (some body) = refl

  module _ (rules : IsDicts dicts) (promises : IsLibraries lib)
      (stable_binding : Option (json.Object → Option json.Object)) where
    filled-named :
        (e : Text) (instant : ℕ)
        → lib.fromisoformat (with_offset e) ≡ some (some instant)
        → filled (some e) ≡ some e
    filled-named [] instant named = cc (sym promises.no_timestamp ∙ named)
    filled-named (c ∷ e) instant named = refl

    -- Take a challenge that the server issued for a route, and that a header can carry, with its canonical request `t` and
    -- opaque data `o` within the size limits. The client that parses the header written for it makes an echo, and the
    -- echo passes every check of `verify_or_challenge` on this route while the instant that the expiry names is later than
    -- now. The libraries keep their promises, `IsJsonText`, `IsDicts` and `IsLibraries`, and the stable binding, if there
    -- is one, gives fields of the route's request.
    pub checked-parse_www_authenticate :
        (route : Route json.Object) (intent : Text) (issued_at now instant : ℕ) (nonce : Text)
        (c : Challenge json.Object) (t : Text) (o : Option Text)
        → create_challenge lib json dicts route intent issued_at nonce ≡ ok c
        → IsIssued c route.realm
        → json.canonical_b64url c.request ≡ some t
        → Encodes json laws c.opaque o
        → length t ≤ max_header_payload_size
        → IsShort o
        → length (header_text json laws c route.realm t o) ≤ max_authorization_size
        → lib.fromisoformat (with_offset (expiry lib json dicts issued_at route.expires))
          ≡ some (some instant)
        → now < instant
        → IsBound lib json dicts laws rules promises stable_binding stable_binding route.request
        → (echo : ChallengeEcho) × ((format_www_authenticate json c route.realm >>= λ header.
              parse_www_authenticate json header >>= to_echo lib json)
            ≡ ok echo)
          × (checked lib json dicts stable_binding route intent now echo
              ≡ ok (
                route.request,
                issued_meta lib json dicts route.unique_challenges nonce route.meta,
              ))
    unfolding create_challenge
    checked-parse_www_authenticate route intent issued_at now instant nonce c t o h issued canonical
          enc l lo short named later bind =
        let e = expiry lib json dicts issued_at route.expires in
        let meta = issued_meta lib json dicts route.unique_challenges nonce route.meta in
        let digest = body_digest lib json dicts route.body in
        let (allowed, h1) = raise_if-ok (route.refuses route.request e) exception _ c h in
        let (fresh, h2) = raise_if-ok (has_nonce lib json dicts route.meta) exception _ c h1 in
        let (advertised, id, t1, identified, encoded, made) =
          created lib json dicts laws route.secret_key route.realm route.method intent route.request
            (some e) digest route.description meta route.header c (raised-ok _ c h2) in
        let (written, parsed) =
          parse_www_authenticate-format_www_authenticate json laws c route.realm t o issued
            canonical enc l lo short in
        let echoed : client_echo c route.realm t o
            ≡ echo_of lib json dicts laws rules promises stable_binding route intent e id t o
                advertised (filled route.description) =
          ap (λ x. client_echo x route.realm t o) made
          ∙ rw (filled-named e instant named, filled-body_digest route.body) refl in
        (
          client_echo c route.realm t o,
          ap (λ r. r >>= λ header. parse_www_authenticate json header >>= to_echo lib json) written
              ∙ ap (λ r. r >>= to_echo lib json) parsed
              ∙ to_echo-received c route.realm t o enc lo,
          ap (checked lib json dicts stable_binding route intent now) echoed
              ∙ checked-echo_of lib json dicts laws rules promises stable_binding route intent e id
                  t o advertised (filled route.description) now instant nonce identified
                  (subst (λ x. json.canonical_b64url x.request ≡ some t) made canonical)
                  (subst (λ x. Encodes json laws x.opaque o) made enc) fresh (l, lo) named later
                  bind,
        )
