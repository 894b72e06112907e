-- ===== src/SponsorBudget/Examples.antt =====
-- A sponsor with room for two transactions of 10 together.
use pympp.Prelude.{
  ℕ, ◌≤◌, ◌≡◌, ◌≢◌, refl, String, Bool, true, false, Option, none, some, List, [], ◌∷◌, arith,
  eq_iff,
}
use pympp.Prelude.Dict.{Dict, lookup}
use pympp.SponsorBudget.{
  SponsorBudget, Entry, Reservation, Request, Poll, Stored, broadcasting, pending, entry_of, holds,
  reserve,
}
use pympp.SponsorBudget.Bounds.{Within, Op, reserves, releases, drops_stale, run, run-Within}
use pympp.SponsorBudget.Holding.{run-holds}
use pympp.SponsorBudget.Entered.{Reserved, reserve-Reserved}

abbrev budget : SponsorBudget
budget = record { max_in_flight_reservations = 2; max_in_flight_total_fee = 10 }

abbrev held : Entry
held = record {
  expires_at = 500;
  fee = 6;
  lease_until = 400;
  owner = "me";
  phase = broadcasting;
  transaction_hash = "0xA";
}

abbrev stored : Dict Entry
stored = ("0xa", held) ∷ []

abbrev request : ℕ → Request
request fee = record {
  reservation = record { id = "0xb"; owner = "you" };
  transaction_hash = "0xB";
  fee = fee;
  expires_at = 900;
}

-- Another request that does not fit, another that does, and a reconciliation at 450.
abbrev updates : List Op
updates =
    reserves (request 5) 100 100
    ∷ reserves (request 4) 110 110
    ∷ releases (record { id = "0xa"; owner = "you" })
    ∷ drops_stale (record { id = "0xa"; owner = "me" }) 450
    ∷ []

stored-Within : Within budget stored
unfolding lookup pympp.SponsorBudget.total_fee
stored-Within = record { unique = (refl, tt); few = omega arith; cheap = omega arith }

run-Within_example : Within budget (run budget stored updates)
run-Within_example = run-Within budget stored updates stored-Within

run-holds_example : lookup "0xa" (run budget stored updates) ≡ some held
unfolding pympp.SponsorBudget.is_stale lookup
run-holds_example =
    run-holds budget stored updates "0xa" held
      (
        λ e. refl,
        (
          λ e. refl,
          (λ e. (λ f. absurd (ground (arith, (eq_iff "you" "me").1 f))), (λ e. refl, tt)),
        ),
      )
      refl

-- The sponsor is at capacity at the first poll, and not when another releases before the second.
abbrev polls : List Poll
polls =
    record { now = 100; checked_at = 100; written_at = 100; others = λ s. s }
    ∷ record { now = 120; checked_at = 121; written_at = 122; others = λ s. some [] }
    ∷ []

reserve-Reserved_example :
    ((request 5).reservation ≡ (request 5).reservation)
    × (5 ≤ 10)
    × Reserved budget (request 5) 300 polls (some (("0xb", entry_of (request 5) 122) ∷ []))
unfolding reserve lookup pympp.Prelude.Dict.insert
reserve-Reserved_example =
    reserve-Reserved budget (request 5) 300 polls (some stored)
      (some (("0xb", entry_of (request 5) 122) ∷ [])) (request 5).reservation true refl
