-- ===== src/SponsorshipLimit/Examples.antt =====
-- A payer with two sponsored opens a day, around midnight.
use pympp.Prelude.{◌+◌, ◌≤◌, ◌≡◌, refl, none, [], ◌∷◌, List}
use pympp.SponsorshipLimit.{LimitCall, reserve_slot, release_slot, open_channel, top_up_channel}
use pympp.SponsorshipLimit.Tally.{tally, tally_bounded, Counts}

abbrev calls : List LimitCall
calls =
    reserve_slot open_channel 7
    ∷ reserve_slot open_channel 7
    ∷ reserve_slot open_channel 7
    ∷ release_slot open_channel 7
    ∷ reserve_slot top_up_channel 7
    ∷ reserve_slot open_channel 7
    ∷ reserve_slot open_channel 8
    ∷ release_slot open_channel 7
    ∷ reserve_slot open_channel 7
    ∷ []

abbrev no_counts : Counts
no_counts = record { granted = 0; given_back = 0 }

-- Three opens are granted on day 7, one of which is given back.
counts : tally open_channel 7 2 calls none no_counts ≡ record { granted = 3; given_back = 1 }
unfolding tally
counts = refl

tally_bounded_example :
    (tally open_channel 7 2 calls none no_counts).granted
    ≤ 2 + (tally open_channel 7 2 calls none no_counts).given_back
tally_bounded_example = tally_bounded open_channel 7 2 calls
