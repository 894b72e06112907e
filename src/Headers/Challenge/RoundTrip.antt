-- ===== src/Headers/Challenge/RoundTrip.antt =====
-- The challenge that a header was formatted from is parsed from it.
use pympp.Prelude.{
  ◌≤◌, ◌≡◌, ◌∙◌, refl, ap, true, false, Option, none, some, [], ◌∷◌, ◌++◌, arith, ltb, length, map,
  All,
}
use pympp.Prelude.Result.{ok}
use pympp.Headers.{Text, codes, strip, is_space}
use pympp.Headers.Quoted.{escaped, unescape_quoted}
use pympp.Headers.Quoted.RoundTrip.{unescape_quoted-escaped}
use pympp.Headers.Params.{Params, param, lower, max_authorization_size, auth_param, joined, present}
use pympp.Headers.Params.RoundTrip.{IsKey-is_lower_key, decode_param}
use pympp.Headers.Params.Closed.{escaped-IsClosed, plain-IsClosed, unescape_quoted-plain}
use pympp.Headers.Params.Slots.{
  Slots, slot, distinct, option_map, IsSlot, param-slot, parse_auth_params-present,
}
use pympp.Headers.Grammar.{starts}
use pympp.Headers.Challenge.{
  JsonText, Challenge, filled, if_filled, strict, b64_decode, challenge_of, parse_www_authenticate,
  format_www_authenticate, canonical, encoded_opaque, opaque_text, max_header_payload_size,
}
use pympp.Headers.Challenge.Strip.{strip-joined, strip-scheme}
use pympp.Headers.Challenge.Issued.{
  validate_payment_method_id-ok, check_digest-filled, check_expires-filled, advertised-filled,
  base64url-is_base64url, IsJsonText, IsIssued, received, further_slots, slots_of, escape_quoted-ok,
  if_filled-escape_quoted, unescape-optional, base64url-IsPlain, option-IsSlot, IsShort,
}

module _ (json : JsonText) (laws : IsJsonText json) where
  -- The text of the opaque data, if there are any
  abbrev pub Encodes : Option json.Object → Option Text → Type 0
  Encodes none none = Unit
  Encodes none (some t) = ⊥
  Encodes (some o) none = ⊥
  Encodes (some o) (some t) = json.canonical_b64url o ≡ some t

  pub b64_decode-canonical :
      (o : json.Object) (t : Text)
      → json.canonical_b64url o ≡ some t
      → length t ≤ max_header_payload_size
      → b64_decode json max_header_payload_size t ≡ ok o
  unfolding b64_decode
  b64_decode-canonical o t e l =
      let short : ltb max_header_payload_size (length t) ≡ false = ground (arith, l) in
      rw (b64_decode, short, laws.loads-canonical o t e, laws.encodable-canonical o t e) refl

  canonical-ok :
      (o : json.Object) (t : Text) → json.canonical_b64url o ≡ some t → canonical json o ≡ ok t
  unfolding canonical
  canonical-ok o t e = rw (canonical, e) refl

  encoded_opaque-Encodes :
      (c : Challenge json.Object) (t : Option Text)
      → Encodes c.opaque t
      → c.opaque_b64 ≡ none
      → encoded_opaque json c ≡ ok t
  unfolding encoded_opaque
  encoded_opaque-Encodes c t h e = rw (encoded_opaque, e) (go c.opaque t h)
    where
      go : (o : Option json.Object) (t : Option Text) → Encodes o t → opaque_text json o none ≡ ok t
      go none none h = refl
      go none (some t) h = elim h [ ]
      go (some o) none h = elim h [ ]
      go (some o) (some t) h = rw (canonical-ok o t h) refl

  -- The text that a format gives
  abbrev written : Slots → Text
  written slots = codes "Payment " ++ joined (map auth_param (present slots))

  format_www_authenticate-written :
      (c : Challenge json.Object) (realm t : Text) (o : Option Text)
      → IsIssued c realm
      → json.canonical_b64url c.request ≡ some t
      → Encodes c.opaque o
      → format_www_authenticate json c realm ≡ ok (written (slots_of c realm t o))
  unfolding format_www_authenticate
  format_www_authenticate-written c realm t o h e enc =
      rw
        (
          format_www_authenticate,
          canonical-ok c.request t e,
          escape_quoted-ok c.id h.id_text.0,
          escape_quoted-ok realm h.realm_text.0,
          escape_quoted-ok c.method h.method_text.0,
          escape_quoted-ok c.intent h.intent_text.0,
          if_filled-escape_quoted c.digest h.digest_text,
          if_filled-escape_quoted c.expires h.expires_text,
          if_filled-escape_quoted c.description h.description_text,
          if_filled-escape_quoted c.header h.header_text,
          encoded_opaque-Encodes c o enc h.no_opaque_text,
        )
        refl

  -- A header whose first parameter is an id is split into its parameters.
  parse-written :
      (id : Text) (slots : Slots)
      → All IsSlot ((codes "id", some id) ∷ slots)
      → distinct ((codes "id", some id) ∷ slots) ≡ true
      → length (written ((codes "id", some id) ∷ slots)) ≤ max_authorization_size
      → parse_www_authenticate json (written ((codes "id", some id) ∷ slots))
        ≡ challenge_of json (map decode_param (present ((codes "id", some id) ∷ slots)))
  unfolding parse_www_authenticate is_space
  parse-written id slots items d l =
      let J = joined (map auth_param (present ((codes "id", some id) ∷ slots))) in
      let short : ltb max_authorization_size (length (codes "Payment " ++ J)) ≡ false =
        ground (arith, l) in
      let stripped = strip-scheme b'P' (codes "ayment ") (codes "id", id) (present slots) refl in
      let scheme : starts (codes "payment ") (lower (strip (codes "Payment " ++ J))) ≡ true =
        ap (λ t. starts (codes "payment ") (lower t)) stripped in
      rw
        (
          parse_www_authenticate,
          short,
          scheme,
          stripped,
          strip-joined b'i' (codes "d") id (present slots) refl,
          parse_auth_params-present ((codes "id", some id) ∷ slots) items d (omega (arith, l)),
        )
        refl

  received-param :
      (k : Text) (slots : Slots) (o : Option Text)
      → distinct slots ≡ true
      → option_map unescape_quoted (slot k slots) ≡ o
      → param k (map decode_param (present slots)) ≡ o
  received-param k slots o d e = param-slot k slots d ∙ e

  IsSlot-slots_of :
      (c : Challenge json.Object) (realm t : Text) (o : Option Text)
      → json.canonical_b64url c.request ≡ some t
      → Encodes c.opaque o
      → All IsSlot (slots_of c realm t o)
  IsSlot-slots_of c realm t o e enc = (
    (IsKey-is_lower_key b'i' (codes "d") refl, escaped-IsClosed c.id),
    (
      (IsKey-is_lower_key b'r' (codes "ealm") refl, escaped-IsClosed realm),
      (
        (IsKey-is_lower_key b'm' (codes "ethod") refl, escaped-IsClosed c.method),
        (
          (IsKey-is_lower_key b'i' (codes "ntent") refl, escaped-IsClosed c.intent),
          (
            (
              IsKey-is_lower_key b'r' (codes "equest") refl,
              plain-IsClosed t (base64url-IsPlain t (laws.canonical-base64url c.request t e).1),
            ),
            (
              option-IsSlot b'd' (codes "igest") (filled c.digest) refl,
              (
                option-IsSlot b'e' (codes "xpires") (filled c.expires) refl,
                (
                  option-IsSlot b'd' (codes "escription") (filled c.description) refl,
                  (
                    option-IsSlot b'h' (codes "eader") (filled c.header) refl,
                    (opaque-IsSlot c.opaque o enc, tt),
                  ),
                ),
              ),
            ),
          ),
        ),
      ),
    ),
  )
    where
      opaque-IsSlot :
          (p : Option json.Object) (o : Option Text) → Encodes p o → IsSlot (codes "opaque", o)
      opaque-IsSlot none none h = tt
      opaque-IsSlot none (some t) h = elim h [ ]
      opaque-IsSlot (some p) none h = elim h [ ]
      opaque-IsSlot (some p) (some t) h = (
        IsKey-is_lower_key b'o' (codes "paque") refl,
        plain-IsClosed t (base64url-IsPlain t (laws.canonical-base64url p t h).1),
      )

  unescape-Encodes :
      (p : Option json.Object) (o : Option Text) → Encodes p o → option_map unescape_quoted o ≡ o
  unescape-Encodes none none h = refl
  unescape-Encodes none (some t) h = elim h [ ]
  unescape-Encodes (some p) none h = elim h [ ]
  unescape-Encodes (some p) (some t) h =
      ap some (unescape_quoted-plain t (base64url-IsPlain t (laws.canonical-base64url p t h).1))

  opaque-decoded :
      (p : Option json.Object) (o : Option Text)
      → Encodes p o
      → IsShort o
      → if_filled o (b64_decode json max_header_payload_size) ≡ ok p
  opaque-decoded none none h l = refl
  opaque-decoded none (some t) h l = elim h [ ]
  opaque-decoded (some p) none h l = elim h [ ]
  opaque-decoded (some p) (some []) h l = cc ((laws.canonical-base64url p [] h).0)
  opaque-decoded (some p) (some (c ∷ t)) h l = rw (b64_decode-canonical p (c ∷ t) h l) refl

  strict-Encodes : (p : Option json.Object) (o : Option Text) → Encodes p o → strict o ≡ o
  strict-Encodes none none h = refl
  strict-Encodes none (some t) h = elim h [ ]
  strict-Encodes (some p) none h = elim h [ ]
  strict-Encodes (some p) (some t) h =
      let b = laws.canonical-base64url p t h in rw (base64url-is_base64url t b.0 b.1) refl

  -- What the fields are makes the challenge.
  challenge_of-params :
      (c : Challenge json.Object) (realm t : Text) (o : Option Text) (ps : Params)
      → IsIssued c realm
      → json.canonical_b64url c.request ≡ some t
      → Encodes c.opaque o
      → length t ≤ max_header_payload_size
      → IsShort o
      → param (codes "id") ps ≡ some c.id
      → param (codes "realm") ps ≡ some realm
      → param (codes "method") ps ≡ some c.method
      → param (codes "intent") ps ≡ some c.intent
      → param (codes "request") ps ≡ some t
      → param (codes "digest") ps ≡ filled c.digest
      → param (codes "expires") ps ≡ filled c.expires
      → param (codes "description") ps ≡ filled c.description
      → param (codes "header") ps ≡ filled c.header
      → param (codes "opaque") ps ≡ o
      → challenge_of json ps ≡ ok (received c realm t o)
  unfolding challenge_of
  challenge_of-params c realm t o ps h e enc l lo e1 e2 e3 e4 e5 e6 e7 e8 e9 e10 =
      rw
        (
          challenge_of,
          e1,
          h.id_text.1,
          e2,
          h.realm_text.1,
          e3,
          h.method_text.1,
          validate_payment_method_id-ok c.method h.method_id,
          e4,
          h.intent_text.1,
          e5,
          (laws.canonical-base64url c.request t e).0,
          b64_decode-canonical c.request t e l,
          e10,
          opaque-decoded c.opaque o enc lo,
          e9,
          advertised-filled c.header h.header_ok,
          e6,
          check_digest-filled c.digest,
          h.digest_ok,
          e7,
          check_expires-filled c.expires,
          h.expires_ok,
          e8,
          strict-Encodes c.opaque o enc,
        )
        refl

  -- The header that is written for a challenge
  abbrev pub header_text : Challenge json.Object → Text → Text → Option Text → Text
  header_text c realm t o = written (slots_of c realm t o)

  -- `format_www_authenticate` writes a header for an issued challenge whose texts are its canonical request `t` and
  -- opaque data `o`, and, when these and the header are within the size limits, `parse_www_authenticate` gives the
  -- challenge back from it: every field as it was, an empty optional field as missing, and both canonical texts. The JSON and base64
  -- libraries keep their promises, `IsJsonText`.
  pub parse_www_authenticate-format_www_authenticate :
      (c : Challenge json.Object) (realm t : Text) (o : Option Text)
      → IsIssued c realm
      → json.canonical_b64url c.request ≡ some t
      → Encodes c.opaque o
      → length t ≤ max_header_payload_size
      → IsShort o
      → length (header_text c realm t o) ≤ max_authorization_size
      → (format_www_authenticate json c realm ≡ ok (header_text c realm t o))
        × (parse_www_authenticate json (header_text c realm t o) ≡ ok (received c realm t o))
  parse_www_authenticate-format_www_authenticate c realm t o h e enc l lo short =
      let slots = slots_of c realm t o in
      let field : (k : Text) (v : Option Text)
          → option_map unescape_quoted (slot k slots) ≡ v
          → param k (map decode_param (present slots)) ≡ v =
        λ k v. received-param k slots v refl in
      (
        format_www_authenticate-written c realm t o h e enc,
        parse-written (escaped c.id) (further_slots c realm t o) (IsSlot-slots_of c realm t o e enc)
              refl short
            ∙ challenge_of-params c realm t o (map decode_param (present slots)) h e enc l lo
                (field (codes "id") _ (ap some (unescape_quoted-escaped c.id h.id_text.0.0)))
                (field (codes "realm") _ (ap some (unescape_quoted-escaped realm h.realm_text.0.0)))
                (field (codes "method") _
                  (ap some (unescape_quoted-escaped c.method h.method_text.0.0)))
                (field (codes "intent") _
                  (ap some (unescape_quoted-escaped c.intent h.intent_text.0.0)))
                (field (codes "request") _ (
                  ap some (
                    unescape_quoted-plain t
                      (base64url-IsPlain t (laws.canonical-base64url c.request t e).1))))
                (field (codes "digest") _ (unescape-optional c.digest h.digest_text))
                (field (codes "expires") _ (unescape-optional c.expires h.expires_text))
                (field (codes "description") _ (unescape-optional c.description h.description_text))
                (field (codes "header") _ (unescape-optional c.header h.header_text))
                (field (codes "opaque") _ (unescape-Encodes c.opaque o enc)),
      )
