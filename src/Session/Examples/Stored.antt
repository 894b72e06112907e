-- ===== src/Session/Examples/Stored.antt =====
-- A sample channel written as JSON and read again.
use pympp.Prelude.{ℕ, zero, suc, ◌≡◌, refl, String, Option, none, some, [], ◌∷◌}
use pympp.Prelude.Result.{ok}
use pympp.Session.State.{ChannelState}
use pympp.Session.Codec.{Decimal}
use pympp.Session.Codec.Write.{channel_state_to_json}
use pympp.Session.Codec.Read.{channel_state_from_json}
use pympp.Session.Codec.RoundTrip.{channel_state_from_json-channel_state_to_json}
use pympp.Session.Examples.{channel}

abbrev strokes : ℕ → String
strokes zero = ""
strokes (suc n) = String.◌∷◌ "1" (strokes n)

abbrev counted : String → Option ℕ
counted String.[] = some 0
counted (String.◌∷◌ c s) = elim (counted s) [ none ↦ none | some n ↦ some (suc n) ]

counted-strokes : (n : ℕ) → counted (strokes n) ≡ some n
counted-strokes zero = refl
counted-strokes (suc n) = rw (counted-strokes n) refl

abbrev unary : Decimal
unary = record { str_int = strokes; int_str = counted; int_str-str_int = counted-strokes }

abbrev stored : ChannelState
stored = record channel {
  retained_vouchers = some (record { cumulative_amount = 3; signature = "sig" } ∷ []);
  last_settlement_units = some 1;
}

channel_state_from_json-channel_state_to_json_example :
    channel_state_from_json unary (λ v. "None") (channel_state_to_json unary stored) ≡ ok stored
channel_state_from_json-channel_state_to_json_example =
    channel_state_from_json-channel_state_to_json unary (λ v. "None") stored
