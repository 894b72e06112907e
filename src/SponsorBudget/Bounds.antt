-- ===== src/SponsorBudget/Bounds.antt =====
-- The reservations that are stored stay within the sponsor's budget.
use pympp.Prelude.{
  ℕ, ◌+◌, ◌≤◌, ◌≡◌, refl, inl, inr, String, Bool, true, false, Option, none, some, List, [], ◌∷◌,
  arith, eq_iff, leb, ltb, ◌||◌, not, str_eq, length, Bool-cases, Option-cases,
}
use pympp.Prelude.Dict.{Dict, lookup, insert, remove, lookup-remove}
use pympp.Store.Unique.{Unique, insert-Unique, remove-Unique, length-remove-le, length-insert}
use pympp.SponsorBudget.{
  SponsorBudget, Entry, Reservation, Request, Phase, entry_of, mutate_owned, total_fee, admit,
  reserve_change, transition, release, release_stale, release_settled, is_stale, is_prepared, never,
  drop, put_or_remove, duplicate,
}

total_fee-insert :
    (id : String) (entry : Entry) (d : Dict Entry)
    → lookup id d ≡ none
    → total_fee (insert id entry d) ≡ total_fee d + entry.fee
unfolding total_fee insert lookup
total_fee-insert id entry [] n = omega arith
total_fee-insert id entry ((j, e) ∷ d) n = ground (arith, total_fee-insert id entry d, eq_iff j id)

total_fee-remove : (id : String) (d : Dict Entry) → total_fee (remove id d) ≤ total_fee d
unfolding total_fee remove
total_fee-remove id [] = omega arith
total_fee-remove id ((j, e) ∷ d) = ground (arith, total_fee-remove id d)

-- An entry that takes the place of one with the same fee.
total_fee-replace :
    (id : String) (old entry : Entry) (d : Dict Entry)
    → lookup id d ≡ some old
    → entry.fee ≡ old.fee
    → total_fee (insert id entry d) ≡ total_fee d
unfolding total_fee insert lookup
total_fee-replace id old entry [] l f = absurd (ground arith)
total_fee-replace id old entry ((j, e) ∷ d) l f =
    ground (arith, total_fee-replace id old entry d, eq_iff j id)

-- Within the budget: so many reservations, of so much fee together, each id once.
pub record Within (budget : SponsorBudget) (d : Dict Entry) : Type 0 where
  pub unique : Unique d
  pub few : length d ≤ budget.max_in_flight_reservations
  pub cheap : total_fee d ≤ budget.max_in_flight_total_fee

remove-Within :
    (budget : SponsorBudget) (id : String) (d : Dict Entry)
    → Within budget d
    → Within budget (remove id d)
remove-Within budget id d w = record {
  unique = remove-Unique id d w.unique;
  few = omega (arith, length-remove-le id d, w.few);
  cheap = omega (arith, total_fee-remove id d, w.cheap);
}

admit-Within :
    (budget : SponsorBudget) (q : Request) (at : ℕ) (current others : Dict Entry)
    → Within budget current
    → Unique others
    → lookup q.reservation.id others ≡ none
    → Within budget (admit budget q at current others).0
unfolding admit
admit-Within budget q at current others w u n =
    elim (Bool-cases (
      leb budget.max_in_flight_reservations (length others)
      || ltb budget.max_in_flight_total_fee (total_fee others + q.fee))) [
        | inl full ↦ rw full w
        | inr room ↦ rw room (record {
          unique = insert-Unique q.reservation.id (entry_of q at) others u;
          few = ground (arith, length-insert q.reservation.id (entry_of q at) others, n, room);
          cheap = ground (arith, total_fee-insert q.reservation.id (entry_of q at) others n, room);
        })
      ]

module _ (budget : SponsorBudget) (q : Request) (now at : ℕ) (d : Dict Entry) where
  pub reserve_change-absent :
      lookup q.reservation.id d ≡ none → reserve_change budget q now at d ≡ admit budget q at d d
  unfolding reserve_change
  reserve_change-absent n = rw (reserve_change, n) refl

  pub reserve_change-live :
      (existing : Entry)
      → lookup q.reservation.id d ≡ some existing
      → is_stale existing now ≡ false
      → reserve_change budget q now at d ≡ (d, duplicate)
  unfolding reserve_change
  reserve_change-live existing there live = ground (arith, there, live)

  pub reserve_change-stale :
      (existing : Entry)
      → lookup q.reservation.id d ≡ some existing
      → is_stale existing now ≡ true
      → reserve_change budget q now at d ≡ admit budget q at d (remove q.reservation.id d)
  unfolding reserve_change
  reserve_change-stale existing there stale = ground (arith, there, stale)

  reserve-Within : Within budget d → Within budget (reserve_change budget q now at d).0
  reserve-Within w =
      let id = q.reservation.id in
      elim (Option-cases (lookup id d)) [
        | inl n ↦ rw (reserve_change-absent n) (admit-Within budget q at d d w w.unique n)
        | inr (existing, there) ↦ elim (Bool-cases (is_stale existing now)) [
          | inr live ↦ rw (reserve_change-live existing there live) w
          | inl stale ↦ rw (reserve_change-stale existing there stale) (
              admit-Within budget q at d (remove id d) w (remove-Unique id d w.unique)
                (ground (arith, lookup-remove id id d, eq_iff id id)))
        ]
      ]

-- An update of an entry that keeps its fee.
KeepsFee : (Entry → Option Entry) → Type 0
KeepsFee mutate = (entry updated : Entry) → mutate entry ≡ some updated → updated.fee ≡ entry.fee

length-replace :
    (id : String) (old entry : Entry) (d : Dict Entry)
    → lookup id d ≡ some old
    → length (insert id entry d) ≡ length d
length-replace id old entry d there = ground (arith, length-insert id entry d, there)

put_or_remove-Within :
    (budget : SponsorBudget) (id : String) (old : Entry) (updated : Option Entry) (d : Dict Entry)
    → Within budget d
    → lookup id d ≡ some old
    → ((e : Entry) → updated ≡ some e → e.fee ≡ old.fee)
    → Within budget (put_or_remove id updated d)
put_or_remove-Within budget id old none d w there keeps = remove-Within budget id d w
put_or_remove-Within budget id old (some e) d w there keeps = record {
  unique = insert-Unique id e d w.unique;
  few = rw (length-replace id old e d there) w.few;
  cheap = rw (total_fee-replace id old e d there (keeps e refl)) w.cheap;
}

module _ (r : Reservation) (mutate : Entry → Option Entry) (unless : Entry → Bool)
    (d : Dict Entry) where
  pub mutate_owned-absent : lookup r.id d ≡ none → mutate_owned r mutate unless d ≡ (d, false)
  unfolding mutate_owned
  mutate_owned-absent n = rw (mutate_owned, n) refl

  pub mutate_owned-kept :
      (entry : Entry)
      → lookup r.id d ≡ some entry
      → (not (str_eq entry.owner r.owner) || unless entry) ≡ true
      → mutate_owned r mutate unless d ≡ (d, false)
  unfolding mutate_owned
  mutate_owned-kept entry there kept = rw (mutate_owned, there, kept) refl

  pub mutate_owned-changed :
      (entry : Entry)
      → lookup r.id d ≡ some entry
      → (not (str_eq entry.owner r.owner) || unless entry) ≡ false
      → mutate_owned r mutate unless d ≡ (put_or_remove r.id (mutate entry) d, true)
  unfolding mutate_owned
  mutate_owned-changed entry there changed = rw (mutate_owned, there, changed) refl

  mutate_owned-Within :
      (budget : SponsorBudget)
      → KeepsFee mutate
      → Within budget d
      → Within budget (mutate_owned r mutate unless d).0
  unfolding KeepsFee
  mutate_owned-Within budget keeps w = elim (Option-cases (lookup r.id d)) [
    | inl n ↦ rw (mutate_owned-absent n) w
    | inr (entry, there) ↦ elim (Bool-cases (not (str_eq entry.owner r.owner) || unless entry)) [
      | inl kept ↦ rw (mutate_owned-kept entry there kept) w
      | inr changed ↦
          rw (mutate_owned-changed entry there changed)
            (put_or_remove-Within budget r.id entry (mutate entry) d w there (keeps entry))
    ]
  ]

drop-KeepsFee : KeepsFee drop
unfolding KeepsFee
drop-KeepsFee entry updated e = absurd (ground arith)

-- Each update that the program makes to the stored reservations of a sponsor.
pub data Op : Type 0 where
  reserves : Request → ℕ → ℕ → Op
  transitions : Reservation → Phase → Op
  releases drops_settled : Reservation → Op
  drops_stale : Reservation → ℕ → Op

unfoldable pub perform : SponsorBudget → Dict Entry → Op → Dict Entry
unfolding reserve_change transition release release_settled release_stale
perform budget d (reserves q now at) = (reserve_change budget q now at d).0
perform budget d (transitions r phase) = (transition r phase d).0
perform budget d (releases r) = (release r d).0
perform budget d (drops_settled r) = (release_settled r d).0
perform budget d (drops_stale r now) = (release_stale r now d).0

unfoldable pub run : SponsorBudget → Dict Entry → List Op → Dict Entry
unfolding perform
run budget d [] = d
run budget d (op ∷ ops) = run budget (perform budget d op) ops

perform-Within :
    (budget : SponsorBudget) (d : Dict Entry) (op : Op)
    → Within budget d
    → Within budget (perform budget d op)
unfolding perform transition release release_settled release_stale KeepsFee
perform-Within budget d (reserves q now at) w = reserve-Within budget q now at d w
perform-Within budget d (transitions r phase) w =
    mutate_owned-Within r (λ entry. some (record entry { phase = phase })) never d budget
      (λ entry updated e. ground arith) w
perform-Within budget d (releases r) w = mutate_owned-Within r drop never d budget drop-KeepsFee w
perform-Within budget d (drops_settled r) w =
    mutate_owned-Within r drop (λ entry. is_prepared entry.phase) d budget drop-KeepsFee w
perform-Within budget d (drops_stale r now) w =
    mutate_owned-Within r drop (λ entry. not (is_stale entry now)) d budget drop-KeepsFee w

-- However reservations are made, advanced and released, those that are stored for a sponsor stay within
-- its budget: at most `max_in_flight_reservations` of them, of at most `max_in_flight_total_fee` together.
pub run-Within :
    (budget : SponsorBudget) (d : Dict Entry) (ops : List Op)
    → Within budget d
    → Within budget (run budget d ops)
unfolding run
run-Within budget d [] w = w
run-Within budget d (op ∷ ops) w =
    run-Within budget (perform budget d op) ops (perform-Within budget d op w)
