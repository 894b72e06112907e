-- ===== src/SponsorBudget/Entered.antt =====
-- What a reservation that `reserve` returns stands for.
use pympp.Prelude.{
  ℕ, ◌≤◌, ◌<◌, ◌≡◌, ◌⊎◌, refl, ◌∙◌, sym, ap, inl, inr, Bool, true, false, none, some, List, [], ◌∷◌,
  arith, leb, ltb, Bool-cases, Option-cases,
}
use pympp.Prelude.Dict.{Dict, lookup, remove, lookup-insert_self}
use pympp.SponsorBudget.{
  SponsorBudget, Entry, Reservation, Request, Stored, Admission, invalid, duplicate, wait, reserved,
  Poll, holds, entry_of, admit, reserve_change, reserve_stored, reserve_loop, reserve, is_stale,
}
use pympp.SponsorBudget.Bounds.{reserve_change-absent, reserve_change-live, reserve_change-stale}

abbrev pub Among : Poll → List Poll → Type 0
Among p [] = ⊥
Among p (x ∷ xs) = (p ≡ x) ⊎ Among p xs

-- The stored reservations have the entry of a request: one of the polls, before `wait_until`, wrote it
-- into what others left stored.
pub record Reserved (budget : SponsorBudget) (q : Request) (wait_until : ℕ) (polls : List Poll)
    (stored : Stored) : Type 0 where
  pub reservations : Dict Entry
  pub poll : Poll
  pub before : Stored
  pub given : Among poll polls
  pub written :
      reserve_stored budget q poll.checked_at poll.written_at (poll.others before)
      ≡ (stored, reserved)
  pub readable : stored ≡ some reservations
  pub entered : lookup q.reservation.id reservations ≡ some (entry_of q poll.written_at)
  pub in_time : poll.now < wait_until

admit-entered :
    (budget : SponsorBudget) (q : Request) (at : ℕ) (current others : Dict Entry)
    → (admit budget q at current others).1 ≡ reserved
    → lookup q.reservation.id (admit budget q at current others).0 ≡ some (entry_of q at)
unfolding admit
admit-entered budget q at current others e =
    ground (arith, lookup-insert_self q.reservation.id (entry_of q at) others)

reserve_change-entered :
    (budget : SponsorBudget) (q : Request) (now at : ℕ) (d : Dict Entry)
    → (reserve_change budget q now at d).1 ≡ reserved
    → lookup q.reservation.id (reserve_change budget q now at d).0 ≡ some (entry_of q at)
reserve_change-entered budget q now at d e = elim (Option-cases (lookup q.reservation.id d)) [
  | inl n ↦
      let same = reserve_change-absent budget q now at d n in
      rw same (admit-entered budget q at d d (sym (ap (λ p. p.1) same) ∙ e))
  | inr (old, found) ↦ elim (Bool-cases (is_stale old now)) [
    | inr live ↦
        let same = reserve_change-live budget q now at d old found live in
        let no_entry : duplicate ≡ reserved = sym (ap (λ p. p.1) same) ∙ e in absurd (ground arith)
    | inl stale ↦
        let same = reserve_change-stale budget q now at d old found stale in
        rw same
          (admit-entered budget q at d (remove q.reservation.id d) (sym (ap (λ p. p.1) same) ∙ e))
  ]
]

-- What a poll that reserves leaves stored.
reserve_stored-entered :
    (budget : SponsorBudget) (q : Request) (checked_at written_at : ℕ) (s : Stored)
    → (reserve_stored budget q checked_at written_at s).1 ≡ reserved
    → (d : Dict Entry) × ((reserve_stored budget q checked_at written_at s).0 ≡ some d)
      × (lookup q.reservation.id d ≡ some (entry_of q written_at))
unfolding reserve_stored
reserve_stored-entered budget q checked_at written_at none e = absurd (ground arith)
reserve_stored-entered budget q checked_at written_at (some d) e =
    (_, refl, reserve_change-entered budget q checked_at written_at d e)

reserved-Reserved :
    (budget : SponsorBudget) (q : Request) (p : Poll) (rest : List Poll) (wait_until : ℕ)
    (s s' : Stored)
    → p.now < wait_until
    → reserve_stored budget q p.checked_at p.written_at (p.others s) ≡ (s', reserved)
    → Reserved budget q wait_until (p ∷ rest) s'
reserved-Reserved budget q p rest wait_until s s' early e =
    let (d, readable, entered) =
      reserve_stored-entered budget q p.checked_at p.written_at (p.others s) (ap (λ x. x.1) e) in
    record {
      reservations = d;
      poll = p;
      before = s;
      given = inl refl;
      written = e;
      readable = sym (ap (λ x. x.0) e) ∙ readable;
      entered = entered;
      in_time = early;
    }

Reserved-more :
    (budget : SponsorBudget) (q : Request) (wait_until : ℕ) (p : Poll) (rest : List Poll)
    (s : Stored)
    → Reserved budget q wait_until rest s
    → Reserved budget q wait_until (p ∷ rest) s
Reserved-more budget q wait_until p rest s r = record {
  reservations = r.reservations;
  poll = r.poll;
  before = r.before;
  given = inr r.given;
  written = r.written;
  readable = r.readable;
  entered = r.entered;
  in_time = r.in_time;
}

Admission-cases :
    (a : Admission) → (a ≡ reserved) ⊎ ((a ≡ wait) ⊎ ((a ≡ invalid) ⊎ (a ≡ duplicate)))
Admission-cases reserved = inl refl
Admission-cases wait = inr (inl refl)
Admission-cases invalid = inr (inr (inl refl))
Admission-cases duplicate = inr (inr (inr refl))

reserve_loop-Reserved :
    (budget : SponsorBudget) (q : Request) (wait_until : ℕ) (waited : Bool) (polls : List Poll)
    (s s' : Stored) (r : Reservation) (w : Bool)
    → reserve_loop budget q wait_until waited polls s ≡ (s', holds r w)
    → (r ≡ q.reservation) × Reserved budget q wait_until polls s'
unfolding reserve_loop
reserve_loop-Reserved budget q wait_until waited [] s s' r w e = absurd (ground arith)
reserve_loop-Reserved budget q wait_until waited (p ∷ rest) s s' r w e =
    let step = reserve_stored budget q p.checked_at p.written_at (p.others s) in
    elim (Bool-cases (leb wait_until p.now)) [
      | inl late ↦ absurd (ground (arith, late))
      | inr early ↦ elim (Admission-cases step.1) [
        | inl got ↦
            let same : step.0 ≡ s' = ground (arith, early, got) in
            let both : step ≡ (s', reserved) = λ i. (same i, got i) in
            (
              ground (arith, early, got),
              reserved-Reserved budget q p rest wait_until s s' (ground (arith, early)) both,
            )
        | inr (inl again) ↦
            let later =
              reserve_loop-Reserved budget q wait_until true rest step.0 s' r w
                (ground (arith, early, again)) in
            (later.0, Reserved-more budget q wait_until p rest s' later.1)
        | inr (inr (inl bad)) ↦ absurd (ground (arith, early, bad))
        | inr (inr (inr bad)) ↦ absurd (ground (arith, early, bad))
      ]
    ]

-- A reservation that `reserve` returns is the request's, of a fee that the budget allows: one of the
-- polls given, made before `wait_until`, was admitted to what others had left stored, and what is stored
-- afterwards is what that poll wrote, with the entry of the request.
pub reserve-Reserved :
    (budget : SponsorBudget) (q : Request) (wait_until : ℕ) (polls : List Poll) (s s' : Stored)
    (r : Reservation) (w : Bool)
    → reserve budget q wait_until polls s ≡ (s', holds r w)
    → (r ≡ q.reservation)
      × (q.fee ≤ budget.max_in_flight_total_fee)
      × Reserved budget q wait_until polls s'
unfolding reserve
reserve-Reserved budget q wait_until polls s s' r w e =
    elim (Bool-cases (ltb budget.max_in_flight_total_fee q.fee)) [
      | inl dear ↦ absurd (ground (arith, dear))
      | inr cheap ↦
          let done =
            reserve_loop-Reserved budget q wait_until false polls s s' r w
              (ground (arith, cheap)) in
          (done.0, ground (arith, cheap), done.1)
    ]
