-- ===== src/Headers/Examples.antt =====
-- A challenge written and read again, at a concrete input.
use pympp.Prelude.{ℕ, ◌≡◌, refl, none, some, [], ◌∷◌, leb→le}
use pympp.Prelude.Result.{ok}
use pympp.Headers.{Text, codes}
use pympp.Headers.Sample.{numbers, numbers-IsJsonText, scalars, unary}
use pympp.Headers.Quoted.{has_line_break, escaped}
use pympp.Headers.Params.{joined, auth_param}
use pympp.Headers.Grammar.{is_method_id, validate_expires, advertised_credential_header}
use pympp.Headers.Params.{params_from}
use pympp.Headers.Params.Fuel.{params_from-fuel}
use pympp.Headers.Challenge.{Challenge, format_www_authenticate, parse_www_authenticate}
use pympp.Headers.Challenge.Issued.{IsIssued, received}
use pympp.Headers.Challenge.RoundTrip.{header_text, parse_www_authenticate-format_www_authenticate}

abbrev issued : Challenge ℕ
issued = record {
  id = codes "kY1";
  method = codes "tempo";
  intent = codes "charge";
  request = 3;
  realm = codes "";
  request_b64 = codes "";
  digest = some (codes "sha-256=abc");
  expires = some (codes "2026-01-01T00:05:00Z");
  description = some (codes "Say \"π\"");
  opaque = some 1;
  header = some (codes "Payment-Authorization");
  opaque_b64 = none;
}

abbrev realm : Text
realm = codes "api.example.com"

issued-IsIssued : IsIssued issued realm
unfolding has_line_break is_method_id validate_expires advertised_credential_header
issued-IsIssued = record {
  id_text = ((scalars issued.id refl, refl), refl);
  realm_text = ((scalars realm refl, refl), refl);
  method_text = ((scalars issued.method refl, refl), refl);
  intent_text = ((scalars issued.intent refl, refl), refl);
  digest_text = (scalars (codes "sha-256=abc") refl, refl);
  expires_text = (scalars (codes "2026-01-01T00:05:00Z") refl, refl);
  description_text = (scalars (codes "Say \"π\"") refl, refl);
  header_text = (scalars (codes "Payment-Authorization") refl, refl);
  method_id = refl;
  digest_ok = refl;
  expires_ok = refl;
  header_ok = refl;
  no_opaque_text = refl;
}

parse_www_authenticate-format_www_authenticate_example :
    (format_www_authenticate numbers issued realm
      ≡ ok (header_text numbers numbers-IsJsonText issued realm (unary 3) (some (unary 1))))
    × (parse_www_authenticate numbers
          (header_text numbers numbers-IsJsonText issued realm (unary 3) (some (unary 1)))
        ≡ ok (received issued realm (unary 3) (some (unary 1))))
unfolding joined auth_param escaped
parse_www_authenticate-format_www_authenticate_example =
    parse_www_authenticate-format_www_authenticate numbers numbers-IsJsonText issued realm (unary 3)
      (some (unary 1)) issued-IsIssued refl refl (leb→le _ _ refl) (leb→le _ _ refl)
      (leb→le _ _ refl)

params_from-fuel_example : params_from 4 [] (codes "id=a") ≡ params_from 9 [] (codes "id=a")
params_from-fuel_example =
    params_from-fuel 4 9 [] (codes "id=a") (leb→le _ _ refl) (leb→le _ _ refl)

params_of : params_from 4 [] (codes "ID=a") ≡ ok ((codes "id", codes "a") ∷ [])
unfolding params_from
params_of = refl
