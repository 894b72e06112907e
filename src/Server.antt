-- ===== src/Server.antt =====
-- src/mpp/server/verify.py, mpp/__init__.py and mpp/_body_digest.py: challenges that servers issue, and the
-- credentials that answer them.
pub mod Digest
pub mod Issue
pub mod Binding
pub mod Scheme
pub mod Checks
pub mod Verify
mod Examples
use pympp.Prelude.{ℕ, String, Bool, Option, none, some}
use pympp.Prelude.Result.{Result}
use pympp.Json.{Json}
use pympp.Headers.{Text}
use pympp.Headers.Authorization.{Credential}
use pympp.Headers.Challenge.{Challenge}

-- The exceptions of errors.py that the server tells apart: `payment_error` is a `PaymentError` of another class,
-- with its status, and `exception` is any other exception.
pub data Failure : Type 0 where
  malformed_credential : Failure
  invalid_challenge : Failure
  payment_expired : Failure
  invalid_payload : Failure
  verification_failed : Failure
  internal_payment : Failure
  outcome_unknown : Failure
  payment_error : ℕ → Failure
  exception : Failure

-- What the server calls of Python's libraries: `hmac` with base64url, `sha256` with base64, and `datetime`, whose
-- instants are seconds. A text that is no timestamp has no instant, one without an offset has `some none`.
pub record Libraries : Type 0 where
  pub hmac_sha256 : Text → Text → Text
  pub sha256 : Text → Text
  pub fromisoformat : Text → Option (Option ℕ)
  pub isoformat : ℕ → Text

-- Python's `dict` operations on decoded objects
pub record Dicts (Object : Type 0) : Type 0 where
  pub item : String → Object → Option Json
  pub eq : Object → Object → Bool
  pub same_item : Option Json → Option Json → Bool
  pub empty : Object
  pub is_empty : Object → Bool
  pub without : String → Object → Object
  pub with_text : String → Text → Object → Object

-- The fields of a receipt that the server reads or sets
pub record Receipt : Type 0 where
  pub reference : Text
  pub payer : Option Text

-- An intent of a payment method: `validate` gives the payer of its `Validation`, or `none` for another result.
pub record Intent (Object : Type 0) : Type 0 where
  pub name : Text
  pub has_broadcast : Bool
  pub validate : Credential → Object → Result Failure (Option (Option Text))
  pub broadcast : Credential → Object → Result Failure Receipt
  pub verify : Credential → Object → Result Failure Receipt

-- What happens while a request is served: the events emitted, and the calls of the intent.
pub data Action (Object : Type 0) : Type 0 where
  challenge_created : Challenge Object → Action Object
  payment_failed : Failure → Challenge Object → Action Object
  payment_success : Credential → Receipt → Action Object
  called_validate : Credential → Action Object
  called_broadcast : Credential → Action Object
  called_verify : Credential → Action Object
