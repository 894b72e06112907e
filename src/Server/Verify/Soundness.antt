-- ===== src/Server/Verify/Soundness.antt =====
-- An intent is called, and a receipt given, only for a credential whose challenge the server issued for the route.
use pympp.Prelude.{
  ℕ, String, ◌≡◌, refl, Bool, true, false, Option, none, some, List, [], ◌∷◌, ltb, ◌==◌,
  if◌then◌else◌, length, All, All-append,
}
use pympp.Prelude.Result.{Result, ok, raise}
use pympp.Json.{Json}
use pympp.Headers.{Text, HeaderError}
use pympp.Headers.Params.{max_authorization_size}
use pympp.Server.Scheme.{mentions_payment, extract_payment_scheme}
use pympp.Headers.Challenge.{JsonText, Challenge}
use pympp.Headers.Authorization.{Credential, ChallengeEcho, parse_authorization}
use pympp.Server.{
  Libraries, Dicts, Failure, malformed_credential, invalid_challenge, payment_expired,
  invalid_payload, verification_failed, internal_payment, outcome_unknown, payment_error, exception,
  Receipt, Intent, Action, challenge_created, payment_failed, payment_success, called_validate,
  called_broadcast, called_verify,
}
use pympp.Server.Issue.{Route, create_challenge}
use pympp.Server.Verify.{
  broadcast_after, parsed, extracted, no_credential, Outcome, challenged, paid, raised, Served,
  settle, with_new_challenge, new_challenge, fail, settlement_failed, settled, answered,
  verify_credential, verify_or_challenge,
}
use pympp.Server.Verify.Authentic.{IsAuthentic, checked-IsAuthentic}

module _ (lib : Libraries) (json : JsonText) (dicts : Dicts json.Object)
    (stable_binding : Option (json.Object → Option json.Object)) (route : Route json.Object)
    (intent : Intent json.Object) (now : ℕ) (nonce : Text) where
  abbrev Authentic : ChallengeEcho → Type 0
  Authentic echo = IsAuthentic lib json dicts stable_binding route intent now nonce echo

  -- An action on a credential is on an authentic one.
  abbrev pub Covered : Action json.Object → Type 0
  Covered (challenge_created c) = Unit
  Covered (payment_failed e c) = Unit
  Covered (payment_success c r) = Authentic c.challenge
  Covered (called_validate c) = Authentic c.challenge
  Covered (called_broadcast c) = Authentic c.challenge
  Covered (called_verify c) = Authentic c.challenge

  abbrev pub Earned : Outcome json.Object → Type 0
  Earned (challenged c) = Unit
  Earned (paid c r) = Authentic c.challenge
  Earned (raised e c) = Unit

  abbrev pub IsSound : Served json.Object → Type 0
  IsSound served = Earned (served.0) × All Covered (served.1)

  new_challenge-IsSound :
      (next : Challenge json.Object → Served json.Object)
      → ((c : Challenge json.Object) → IsSound (next c))
      → IsSound (new_challenge lib json dicts stable_binding route intent now nonce next)
  unfolding new_challenge
  new_challenge-IsSound next h = go (create_challenge lib json dicts route intent.name now nonce)
    where
      go :
          (r : Result Failure (Challenge json.Object))
          → IsSound (with_new_challenge lib json dicts stable_binding route intent now nonce next r)
      go (ok c) = ((h c).0, (tt, (h c).1))
      go (raise e) = (tt, tt)

  fail-IsSound :
      (e : Failure) → IsSound (fail lib json dicts stable_binding route intent now nonce e)
  unfolding fail
  fail-IsSound e = new_challenge-IsSound _ (λ c. (tt, (tt, tt)))

  IsSound-if :
      (b : Bool) (x y : Served json.Object) → IsSound x → IsSound y → IsSound (if b then x else y)
  IsSound-if true x y hx hy = hx
  IsSound-if false x y hx hy = hy

  settlement_failed-IsSound :
      (e : Failure) (submitted : Challenge json.Object)
      → IsSound (settlement_failed lib json dicts stable_binding route intent now nonce e submitted)
  unfolding settlement_failed
  settlement_failed-IsSound internal_payment submitted = (tt, (tt, tt))
  settlement_failed-IsSound outcome_unknown submitted = (tt, (tt, tt))
  settlement_failed-IsSound exception submitted = (tt, (tt, tt))
  settlement_failed-IsSound malformed_credential submitted = (tt, (tt, tt))
  settlement_failed-IsSound invalid_challenge submitted = (tt, (tt, tt))
  settlement_failed-IsSound verification_failed submitted = (tt, (tt, tt))
  settlement_failed-IsSound invalid_payload submitted =
      new_challenge-IsSound _ (λ c. (tt, (tt, tt)))
  settlement_failed-IsSound payment_expired submitted =
      new_challenge-IsSound _ (λ c. (tt, (tt, tt)))
  settlement_failed-IsSound (payment_error status) submitted =
      IsSound-if (status == 403)
        (raised (payment_error status) none, payment_failed (payment_error status) submitted ∷ [])
        (
          raised (payment_error status) (some submitted),
          payment_failed (payment_error status) submitted ∷ [],
        )
        (tt, (tt, tt)) (tt, (tt, tt))

  settle-Covered :
      (c : Credential) (request : json.Object)
      → Authentic c.challenge
      → All Covered ((settle lib json dicts stable_binding intent c request).1)
  unfolding settle
  settle-Covered c request h = go intent.has_broadcast (intent.validate c request)
    where
      go :
          (b : Bool) (v : Result Failure (Option (Option Text)))
          → All Covered (
              (if b
                then broadcast_after lib json dicts stable_binding intent c request v
                else (intent.verify c request, called_verify c ∷ [])).1)
      go false v = (h, tt)
      go true (raise e) = (h, tt)
      go true (ok none) = (h, tt)
      go true (ok (some payer)) = (h, (h, tt))

  settled-IsSound :
      (c : Credential) (submitted : Challenge json.Object)
      (served : Result Failure Receipt × List (Action json.Object))
      → Authentic c.challenge
      → All Covered (served.1)
      → IsSound (settled lib json dicts stable_binding route intent now nonce c submitted served)
  settled-IsSound c submitted (ok receipt, calls) h covered =
      (h, All-append Covered calls (payment_success c receipt ∷ []) covered (h, tt))
  settled-IsSound c submitted (raise e, calls) h covered =
      let (earned, actions) = settlement_failed-IsSound e submitted in
      (earned, All-append Covered calls _ covered actions)

  answered-IsSound :
      (c : Credential) (r : Result Failure (json.Object × Option json.Object))
      → ((pair : json.Object × Option json.Object) → r ≡ ok pair → Authentic c.challenge)
      → IsSound (answered lib json dicts stable_binding route intent now nonce c r)
  answered-IsSound c (ok pair) h =
      settled-IsSound c _ _ (h pair refl) (settle-Covered c route.request (h pair refl))
  answered-IsSound c (raise exception) h = (tt, tt)
  answered-IsSound c (raise malformed_credential) h = fail-IsSound malformed_credential
  answered-IsSound c (raise invalid_challenge) h = fail-IsSound invalid_challenge
  answered-IsSound c (raise payment_expired) h = fail-IsSound payment_expired
  answered-IsSound c (raise invalid_payload) h = fail-IsSound invalid_payload
  answered-IsSound c (raise verification_failed) h = fail-IsSound verification_failed
  answered-IsSound c (raise internal_payment) h = fail-IsSound internal_payment
  answered-IsSound c (raise outcome_unknown) h = fail-IsSound outcome_unknown
  answered-IsSound c (raise (payment_error status)) h = fail-IsSound (payment_error status)

  verify_credential-IsSound :
      (c : Credential)
      → IsSound (verify_credential lib json dicts stable_binding route intent now nonce c)
  unfolding verify_credential
  verify_credential-IsSound c =
      answered-IsSound c _
        (checked-IsAuthentic lib json dicts stable_binding route intent now nonce c.challenge)

  no_credential-IsSound :
      IsSound (no_credential lib json dicts stable_binding route intent now nonce)
  no_credential-IsSound = new_challenge-IsSound _ (λ c. (tt, tt))

  extracted-IsSound :
      (show : Json → String) (scheme : Option Text)
      → IsSound
          (extracted lib json dicts stable_binding route intent now nonce dicts.item show scheme)
  extracted-IsSound show none = no_credential-IsSound
  extracted-IsSound show (some scheme) = go (parse_authorization json dicts.item show scheme)
    where
      go :
          (r : Result HeaderError Credential)
          → IsSound (parsed lib json dicts stable_binding route intent now nonce r)
      go (ok c) = verify_credential-IsSound c
      go (raise e) = fail-IsSound malformed_credential

  -- Whatever the Authorization header, `verify_or_challenge` gives a receipt, calls the intent's hooks and reports a
  -- success only for a credential whose challenge is authentic: its identifier is the one that the server's secret
  -- gives to the echoed parameters, these are the route's, and it has not expired.
  pub verify_or_challenge-IsSound :
      (show : Json → String) (authorization : Option Text)
      → IsSound (
          verify_or_challenge lib json dicts stable_binding route intent now nonce show
            authorization)
  unfolding verify_or_challenge
  verify_or_challenge-IsSound show none = no_credential-IsSound
  verify_or_challenge-IsSound show (some authorization) =
      IsSound-if (ltb max_authorization_size (length authorization)) _ _
        (IsSound-if (mentions_payment authorization) _ _ (fail-IsSound malformed_credential)
          no_credential-IsSound)
        (extracted-IsSound show (extract_payment_scheme authorization))
