-- ===== src/Lib.antt =====
-- A model of the server side of the Machine Payments Protocol library: the headers of the Payment
-- authentication scheme, the challenges that a server issues and the credentials that answer them,
-- the key-value store that guards against replays, the payment channels of the tempo `session`
-- method, and the budget of a fee sponsor.
--
-- How the parts interact. A server answers a request without payment with a challenge, whose
-- identifier is an HMAC of its parameters, in a WWW-Authenticate header. The client repeats the
-- challenge in an Authorization header, and `verify_or_challenge` checks it and calls the intent of
-- the payment method. In the `session` method a client pays by vouchers of growing amounts for a
-- channel that the escrow contract funds. The server stores one `ChannelState` per channel; every
-- request, settlement and close is one update of it, a function of the stored channel, which
-- `StoreChannelStore` applies with a compare-and-set loop over a store that processes may share.
-- `MemoryStore` is such a store. A sponsor that pays the fees of clients reserves them in a document
-- in the same kind of store.
--
-- Prelude: names of the libraries; Python's dict as an association list, in insertion order, and
-- calls that may raise as `Result`; the difference of integers.
--
-- Json: JSON values, and reading and writing dicts with optional keys.
--
-- Headers (src/mpp/_parsing.py): text as lists of code points. Quoted has `_escape_quoted` and
-- `_unescape_quoted`, Params `_parse_auth_params`, Grammar the regular expressions and the
-- credential header of src/mpp/__init__.py, Challenge the class `Challenge` with
-- `parse_www_authenticate` and `format_www_authenticate`, Authorization `parse_authorization`. Their
-- children are proofs, Sample an instance of the JSON interface.
--
-- Units (src/mpp/_units.py): `parse_units`.
--
-- Server (src/mpp/server/verify.py): Digest has src/mpp/_body_digest.py, Issue
-- `generate_challenge_id` and `Challenge.create` of src/mpp/__init__.py with `_create_challenge`,
-- Scheme the search for the Payment scheme, Checks `_authenticate_echo` and the checks after it,
-- Verify `_settle` and `verify_or_challenge`, which gives its outcome and the list of the events and
-- calls on the way. Binding and the children of Verify are proofs.
--
-- Store (src/mpp/store.py): `MemoryStore` with its methods. Store/View is the map that a client sees
-- at a time, Store/Effects and Store/Methods relate the methods to it, Store/Calls has histories of
-- calls, Store/Claims follows one key.
--
-- Session (src/mpp/methods/tempo/session/server): State has the dataclasses of _store.py, with those
-- of ../_protocol.py; Vouchers, Merge, Close, Change, Charge and Credit have the functions of
-- _store.py by their names, a leading underscore dropped; Cas has `StoreChannelStore._update_cas`;
-- Api has `deduct_from_channel`, `credit_channel` and `charge_session_channel` (_settlement.py);
-- Codec has `channel_state_to_json` and `channel_state_from_json`. Schedule has _schedule.py, where
-- `claim_update` and the like are the callbacks of `claim_scheduled_settlement` and its companions;
-- Settlement has the callbacks `choose`, `release` and `record` of `settle`; Admission has the
-- voucher checks and `verify_and_accept_voucher` of _verification.py; Record has the other callbacks
-- of _verification.py and _close_supervisor.py. Step collects the updates of a stored channel in one
-- relation, and Reach is a history of them. Custody puts a channel beside the escrow. The other
-- modules are proofs.
--
-- SponsorBudget (src/mpp/methods/tempo/sponsor_budget.py): `reserve`, `transition`, `release` and
-- the releases of reconciliation, as updates of the decoded document.
--
-- SponsorshipLimit (src/mpp/methods/tempo/session/server/_sponsorship_limit.py): the usage of a
-- payer in a day, with `reserve`, `release` and `limit_fee_payer`; Tally counts over sequences of
-- calls.
--
-- How it is modelled. An operation takes the stored value and returns the one stored next with its
-- result, so an update is atomic, as the event loop makes it in `MemoryStore` and the
-- compare-and-set loop over shared stores. Amounts, times and counters are natural numbers; where
-- Python compares a difference that may be negative, the model adds on the other side or uses
-- integers. Times and made-up identifiers are arguments, in Store one for each reading of the clock;
-- an instant is a number of seconds in Server. A stored value is never `None`. ISO times are parsed by a parameter `parse_iso_ms`, and
-- voucher signatures are checked by a parameter `verify_voucher`. The text of JSON, base64, HMAC,
-- SHA-256 and timestamps are the records `JsonText`, `Libraries` and `Dicts` of functions; Python's
-- `str` and `int` are the record `Decimal` of Session.Codec, its `Decimal` is a parameter of Units.
--
-- Bounds and fuel. The loop that reads auth-params runs on fuel, the length of the text, which
-- Headers.Params.Fuel.params_from-fuel shows to be enough. The loop that thins retained vouchers
-- runs on fuel, the number of vouchers, which Session.Vouchers.Thinning.length-thin shows to be
-- enough. `update_cas` and `reserve` take one entry of what other processes do for each round, and
-- end with `retries` or `waiting` when the entries are used up. A uint96 is a natural number with a
-- check of its bound, as in the source.
--
-- Assumptions. `IsJsonText` says that an object is read back from its canonical text, which is
-- base64url; `IsDicts` and `IsLibraries` say what the server uses of dicts, digests and timestamps.
-- `CasStore` states the documented atomicity of `get` and `compare_and_set`. In Custody the escrow
-- lands a settlement only before the expiry that its reservation carries, and a landed one is
-- recorded before that expiry; a settlement is given up as failed only when the escrow has not
-- captured its amount.
--
-- Not modelled: HTTP, the text of JSON, ABI and RLP encodings, signing, RPC calls and the tasks
-- around them; the fallback for stores that return bytes; the descriptors' identity checks; receipt
-- lookups of a sponsor; `format_authorization` and the receipt header; payments by x402 and the
-- checks that a tempo charge adds to the issuing of its challenges; the client, the other payment
-- methods and the MCP adapter.
mod Prelude
pub mod Json
pub mod Headers
pub mod Units
pub mod Server
pub mod Store
pub mod Session
pub mod SponsorBudget
pub mod SponsorshipLimit
