-- ===== src/Server/Verify.antt =====
-- src/mpp/server/verify.py: `verify_or_challenge`, for calls without an x402 context.
mod Authentic
pub mod Laws
pub mod Soundness
pub mod Complete
pub mod Journey
use pympp.Prelude.{
  ℕ, String, Bool, true, false, not, ◌&&◌, ◌||◌, Option, none, some, List, [], ◌∷◌, ◌++◌, leb, ltb,
  ◌==◌, if◌then◌else◌, length,
}
use pympp.Prelude.Result.{Result, ok, raise, raise_if, ◌>>=◌, ◌>>◌}
use pympp.Json.{Json}
use pympp.Headers.{Text, codes, HeaderError, parse_error, canonicalization_error, strip, text_eq}
use pympp.Headers.Params.{lower, max_authorization_size}
use pympp.Headers.Grammar.{starts}
use pympp.Headers.Challenge.{JsonText, Challenge, b64_decode, max_header_payload_size}
use pympp.Headers.Authorization.{Credential, ChallengeEcho, parse_authorization}
use pympp.Server.{
  Libraries, Dicts, Failure, malformed_credential, invalid_challenge, payment_expired,
  invalid_payload, verification_failed, internal_payment, outcome_unknown, payment_error, exception,
  Receipt, Intent, Action, challenge_created, payment_failed, payment_success, called_validate,
  called_broadcast, called_verify,
}
use pympp.Server.Digest.{Body, verify}
use pympp.Server.Issue.{Route, create_challenge, generate_challenge_id}
use pympp.Server.Scheme.{mentions_payment, extract_payment_scheme}
use pympp.Server.Checks.{checked}

pub data Outcome (Object : Type 0) : Type 0 where
  challenged : Challenge Object → Outcome Object
  paid : Credential → Receipt → Outcome Object
  raised : Failure → Option (Challenge Object) → Outcome Object

-- What a call gives, and what it does in this order
abbrev pub Served : Type 0 → Type 0
Served Object = Outcome Object × List (Action Object)

module _ (lib : Libraries) (json : JsonText) (dicts : Dicts json.Object)
    (stable_binding : Option (json.Object → Option json.Object)) where
  -- `_challenge_from_echo`
  abbrev pub challenge_from_echo :
      ChallengeEcho → json.Object → Option json.Object → Challenge json.Object
  challenge_from_echo echo request opaque = record {
    id = echo.id;
    method = echo.method;
    intent = echo.intent;
    request = request;
    realm = echo.realm;
    request_b64 = echo.request;
    digest = echo.digest;
    expires = echo.expires;
    description = echo.description;
    opaque = opaque;
    header = echo.header;
    opaque_b64 = none;
  }

  -- The validation's payer goes to a receipt that has none.
  abbrev or_payer : Option Text → Option Text → Option Text
  or_payer none payer = payer
  or_payer (some p) none = some p
  or_payer (some p) (some payer) = some payer

  abbrev pub with_payer : Option Text → Receipt → Receipt
  with_payer payer receipt = record receipt { payer = or_payer payer receipt.payer }

  abbrev pub broadcast_after :
      Intent json.Object
      → Credential
      → json.Object
      → Result Failure (Option (Option Text))
      → Result Failure Receipt × List (Action json.Object)
  broadcast_after intent c request (raise e) = (raise e, called_validate c ∷ [])
  broadcast_after intent c request (ok none) = (raise verification_failed, called_validate c ∷ [])
  broadcast_after intent c request (ok (some payer)) = (
    intent.broadcast c request >>= λ receipt. ok (with_payer payer receipt),
    called_validate c ∷ called_broadcast c ∷ [],
  )

  -- `_settle`
  unfoldable pub settle :
      Intent json.Object
      → Credential
      → json.Object
      → Result Failure Receipt × List (Action json.Object)
  settle intent c request =
      if intent.has_broadcast
      then broadcast_after intent c request (intent.validate c request)
      else (intent.verify c request, called_verify c ∷ [])

  module _ (route : Route json.Object) (intent : Intent json.Object) (now : ℕ) (nonce : Text) where
    -- `new_challenge`, and what is then done with the challenge
    abbrev pub with_new_challenge :
        (Challenge json.Object → Served json.Object)
        → Result Failure (Challenge json.Object)
        → Served json.Object
    with_new_challenge next (raise e) = (raised e none, [])
    with_new_challenge next (ok c) =
        let (outcome, actions) = next c in (outcome, challenge_created c ∷ actions)

    unfoldable pub new_challenge : (Challenge json.Object → Served json.Object) → Served json.Object
    unfolding create_challenge
    new_challenge next =
        with_new_challenge next (create_challenge lib json dicts route intent.name now nonce)

    -- `fail`
    unfoldable pub fail : Failure → Served json.Object
    unfolding new_challenge
    fail e = new_challenge (λ c. (challenged c, payment_failed e c ∷ []))

    -- An error other than those that end without a challenge to try again with
    abbrev pub retried : Failure → Challenge json.Object → Served json.Object
    retried e submitted = (raised e (some submitted), payment_failed e submitted ∷ [])

    abbrev pub ended : Failure → Challenge json.Object → Served json.Object
    ended e submitted = (raised e none, payment_failed e submitted ∷ [])

    abbrev retried_anew : Failure → Challenge json.Object → Served json.Object
    retried_anew e submitted =
        new_challenge (λ c. (raised e (some c), payment_failed e submitted ∷ []))

    -- The handlers of the errors of `_settle`
    unfoldable pub settlement_failed : Failure → Challenge json.Object → Served json.Object
    unfolding new_challenge
    settlement_failed internal_payment submitted = ended internal_payment submitted
    settlement_failed outcome_unknown submitted = ended outcome_unknown submitted
    settlement_failed exception submitted = ended exception submitted
    settlement_failed invalid_payload submitted = retried_anew invalid_payload submitted
    settlement_failed payment_expired submitted = retried_anew payment_expired submitted
    settlement_failed (payment_error status) submitted =
        if status == 403
        then ended (payment_error status) submitted
        else retried (payment_error status) submitted
    settlement_failed e submitted = retried e submitted

    abbrev pub settled :
        Credential
        → Challenge json.Object
        → Result Failure Receipt × List (Action json.Object)
        → Served json.Object
    settled c submitted (ok receipt, calls) =
        (paid c receipt, calls ++ (payment_success c receipt ∷ []))
    settled c submitted (raise e, calls) =
        let (outcome, actions) = settlement_failed e submitted in (outcome, calls ++ actions)

    -- The part of the handler that has a credential: `exception` is no failure that it handles.
    abbrev pub answered :
        Credential → Result Failure (json.Object × Option json.Object) → Served json.Object
    answered c (raise exception) = (raised exception none, [])
    answered c (raise e) = fail e
    answered c (ok (request, opaque)) =
        settled c (challenge_from_echo c.challenge request opaque) (settle intent c route.request)

    unfoldable pub verify_credential : Credential → Served json.Object
    unfolding checked fail settle settlement_failed
    verify_credential c =
        answered c (checked lib json dicts stable_binding route intent.name now c.challenge)

    abbrev pub parsed : Result HeaderError Credential → Served json.Object
    parsed (raise e) = fail malformed_credential
    parsed (ok c) = verify_credential c

    abbrev pub no_credential : Served json.Object
    no_credential = new_challenge (λ c. (challenged c, []))

    abbrev pub extracted :
        (String → json.Object → Option Json) → (Json → String) → Option Text → Served json.Object
    extracted item show none = no_credential
    extracted item show (some scheme) = parsed (parse_authorization json item show scheme)

    -- `verify_or_challenge`
    unfoldable pub verify_or_challenge : (Json → String) → Option Text → Served json.Object
    unfolding mentions_payment extract_payment_scheme parse_authorization verify_credential fail
    verify_or_challenge show none = no_credential
    verify_or_challenge show (some authorization) =
        if ltb max_authorization_size (length authorization)
        then (if mentions_payment authorization then fail malformed_credential else no_credential)
        else extracted dicts.item show (extract_payment_scheme authorization)
