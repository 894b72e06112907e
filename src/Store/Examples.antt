-- ===== src/Store/Examples.antt =====
-- A store of numbers with room for two.
use pympp.Prelude.{
  ℕ, ◌≡◌, ◌≢◌, ◌⊎◌, refl, String, true, false, none, some, List, [], ◌∷◌, arith, is_some, str_eq,
  if◌then◌else◌, eq_iff,
}
use pympp.Prelude.Dict.{lookup}
use pympp.Prelude.Eq.{nat_eq}
use pympp.Prelude.Result.{ok}
use pympp.Store.{MemoryStore, StoreError, put_if_absent, compare_and_set}
use pympp.Store.View.{view, IsValid}
use pympp.Store.Methods.{Swaps, compare_and_set_lem}
use pympp.Store.Calls.{Call, gets, deletes, claims_until, swaps, run, run-IsValid}
use pympp.Store.Claims.{claim_refuses_replay}

abbrev two : MemoryStore ℕ
two = record { max_entries = some 2; items = ("a", 1) ∷ []; expiry_deadlines = ("a", 50) ∷ [] }

a_keyed :
    (k : String) → (lookup k two.expiry_deadlines ≡ none) ⊎ (is_some (lookup k two.items) ≡ true)
unfolding lookup
a_keyed k = ground arith

two-IsValid : IsValid two
unfolding lookup
two-IsValid = record { unique = (refl, tt); keyed = a_keyed; room = omega arith }

abbrev calls : List (Call ℕ)
calls =
    claims_until 4 5 5 "c" 7 60 ∷ swaps 6 7 "b" (some 2) (some 3) ∷ deletes "a" ∷ gets 70 "c" ∷ []

run-IsValid_example : IsValid (run two calls)
run-IsValid_example = run-IsValid two calls two-IsValid

claim_refuses_replay_example :
    (put_if_absent 900 901 "b" 9 (run (put_if_absent 4 5 "b" 2 two).1 calls)).0 ≡ ok false
unfolding put_if_absent lookup pympp.Store.prune_expired pympp.Store.lacks_room
claim_refuses_replay_example =
    claim_refuses_replay 4 5 900 901 "b" 2 9 two calls two-IsValid refl
      (tt, (tt, ((λ e. absurd (ground (arith, (eq_iff "a" "b").1 e))), (tt, tt))))

-- The deadline of "a" is 50: it passes between the two prunings.
compare_and_set_lem_example :
    Swaps 49 50 60 two "a" (some 1) (some 8) (compare_and_set 49 50 "a" (some 1) (some 8) two)
compare_and_set_lem_example =
    compare_and_set_lem 49 50 60 two "a" (some 1) (some 8) two-IsValid (omega arith) (omega arith)

-- The new value then stays with no deadline.
swapped_for_good : view 900 (compare_and_set 49 50 "a" (some 1) (some 8) two).1 "a" ≡ some (8, none)
unfolding compare_and_set view lookup pympp.Store.prune_expired pympp.Store.lacks_room
    pympp.Prelude.Dict.remove pympp.Prelude.Dict.insert
swapped_for_good = refl
