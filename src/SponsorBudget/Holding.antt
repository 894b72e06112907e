-- ===== src/SponsorBudget/Holding.antt =====
-- A reservation stays as it is until its owner, a receipt or its expiry ends it.
use pympp.Prelude.{
  ℕ, ◌≡◌, ◌≢◌, inl, inr, String, Bool, true, false, not, ◌||◌, Option, none, some, List, [], ◌∷◌,
  arith, eq_iff, str_eq, All, ◌∙◌, Bool-cases, Option-cases,
}
use pympp.Prelude.Dict.{Dict, lookup, remove, lookup-insert, lookup-remove}
use pympp.SponsorBudget.{
  SponsorBudget, Entry, Reservation, Request, entry_of, mutate_owned, admit, reserve_change,
  transition, release, release_stale, release_settled, is_stale, is_prepared, never, drop,
  put_or_remove,
}
use pympp.SponsorBudget.Bounds.{
  reserve_change-absent, reserve_change-live, reserve_change-stale, mutate_owned-absent,
  mutate_owned-kept, mutate_owned-changed, Op, reserves, transitions, releases, drops_settled,
  drops_stale, perform, run,
}

-- An update that is not meant to change an entry: it is another's, or one whose condition on the entry
-- fails.
abbrev pub Spares : String → Entry → Op → Type 0
Spares id entry (reserves q now at) = q.reservation.id ≡ id → is_stale entry now ≡ false
Spares id entry (transitions r phase) = r.id ≡ id → r.owner ≢ entry.owner
Spares id entry (releases r) = r.id ≡ id → r.owner ≢ entry.owner
Spares id entry (drops_settled r) = r.id ≡ id → is_prepared entry.phase ≡ true
Spares id entry (drops_stale r now) = r.id ≡ id → is_stale entry now ≡ false

admit-holds :
    (budget : SponsorBudget) (q : Request) (at : ℕ) (current others : Dict Entry) (id : String)
    (entry : Entry)
    → q.reservation.id ≢ id
    → lookup id current ≡ some entry
    → lookup id others ≡ some entry
    → lookup id (admit budget q at current others).0 ≡ some entry
unfolding admit
admit-holds budget q at current others id entry other c o =
    ground
      (arith, eq_iff q.reservation.id id, lookup-insert q.reservation.id id (entry_of q at) others)

put_or_remove-holds :
    (j id : String) (updated : Option Entry) (d : Dict Entry)
    → j ≢ id
    → lookup id (put_or_remove j updated d) ≡ lookup id d
put_or_remove-holds j id none d other = ground (arith, lookup-remove j id d, eq_iff j id)
put_or_remove-holds j id (some e) d other = ground (arith, lookup-insert j id e d, eq_iff j id)

reserve-holds :
    (budget : SponsorBudget) (q : Request) (now at : ℕ) (d : Dict Entry) (id : String)
    (entry : Entry)
    → (q.reservation.id ≡ id → is_stale entry now ≡ false)
    → lookup id d ≡ some entry
    → lookup id (reserve_change budget q now at d).0 ≡ some entry
reserve-holds budget q now at d id entry spared there =
    elim (Bool-cases (str_eq q.reservation.id id)) [
      | inl same ↦
          let here = (eq_iff q.reservation.id id).0 same in
          let found : lookup q.reservation.id d ≡ some entry = rw here there in
          rw (reserve_change-live budget q now at d entry found (spared here)) there
      | inr other ↦
          let apart : q.reservation.id ≢ id = ground (arith, eq_iff q.reservation.id id) in
          elim (Option-cases (lookup q.reservation.id d)) [
            | inl n ↦
                rw (reserve_change-absent budget q now at d n)
                  (admit-holds budget q at d d id entry apart there there)
            | inr (e, found) ↦ elim (Bool-cases (is_stale e now)) [
              | inr live ↦ rw (reserve_change-live budget q now at d e found live) there
              | inl stale ↦ rw (reserve_change-stale budget q now at d e found stale) (
                  admit-holds budget q at d (remove q.reservation.id d) id entry apart there
                    (put_or_remove-holds q.reservation.id id none d apart ∙ there))
            ]
          ]
    ]

mutate_owned-holds :
    (r : Reservation) (mutate : Entry → Option Entry) (unless : Entry → Bool) (d : Dict Entry)
    (id : String) (entry : Entry)
    → (r.id ≡ id → (not (str_eq entry.owner r.owner) || unless entry) ≡ true)
    → lookup id d ≡ some entry
    → lookup id (mutate_owned r mutate unless d).0 ≡ some entry
mutate_owned-holds r mutate unless d id entry spared there = elim (Bool-cases (str_eq r.id id)) [
  | inl same ↦
      let here = (eq_iff r.id id).0 same in
      rw (mutate_owned-kept r mutate unless d entry (rw here there) (spared here)) there
  | inr differs ↦
      let apart : r.id ≢ id = ground (arith, eq_iff r.id id) in
      elim (Option-cases (lookup r.id d)) [
        | inl n ↦ rw (mutate_owned-absent r mutate unless d n) there
        | inr (e, found) ↦ elim (Bool-cases (not (str_eq e.owner r.owner) || unless e)) [
          | inl kept ↦ rw (mutate_owned-kept r mutate unless d e found kept) there
          | inr changed ↦
              rw (mutate_owned-changed r mutate unless d e found changed)
                (put_or_remove-holds r.id id (mutate e) d apart ∙ there)
        ]
      ]
]

perform-holds :
    (budget : SponsorBudget) (d : Dict Entry) (op : Op) (id : String) (entry : Entry)
    → Spares id entry op
    → lookup id d ≡ some entry
    → lookup id (perform budget d op) ≡ some entry
unfolding perform transition release release_settled release_stale
perform-holds budget d (reserves q now at) id entry s there =
    reserve-holds budget q now at d id entry s there
perform-holds budget d (transitions r phase) id entry s there =
    mutate_owned-holds r (λ e. some (record e { phase = phase })) never d id entry
      (λ here. ground (arith, s here, eq_iff entry.owner r.owner)) there
perform-holds budget d (releases r) id entry s there =
    mutate_owned-holds r drop never d id entry
      (λ here. ground (arith, s here, eq_iff entry.owner r.owner)) there
perform-holds budget d (drops_settled r) id entry s there =
    mutate_owned-holds r drop (λ e. is_prepared e.phase) d id entry (λ here. ground (arith, s here))
      there
perform-holds budget d (drops_stale r now) id entry s there =
    mutate_owned-holds r drop (λ e. not (is_stale e now)) d id entry
      (λ here. ground (arith, s here)) there

-- A reservation is there unchanged after any updates by other owners, and by reconciliation and admission
-- while it is not stale, and receipts seen while it was only prepared: so its fee keeps counting.
pub run-holds :
    (budget : SponsorBudget) (d : Dict Entry) (ops : List Op) (id : String) (entry : Entry)
    → All (Spares id entry) ops
    → lookup id d ≡ some entry
    → lookup id (run budget d ops) ≡ some entry
unfolding run
run-holds budget d [] id entry spared there = there
run-holds budget d (op ∷ ops) id entry spared there =
    run-holds budget (perform budget d op) ops id entry spared.1
      (perform-holds budget d op id entry spared.0 there)
