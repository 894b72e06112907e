-- ===== src/Session/Custody/Safety.antt =====
-- In every reachable state of the server and the escrow, no more is captured than is spent.
use Prim.Native.Nat.{max}
use pympp.Prelude.{
  ℕ, ◌≤◌, ◌<◌, ◌≡◌, inl, inr, Bool, true, not, ◌&&◌, Option, some, List, [], ◌∷◌, arith, ◌==◌,
  String, All, select, Option-cases, Bool-cases,
}
use pympp.Prelude.Result.{ok}
use pympp.Session.State.{
  ChannelState, OnChainChannelState, SignedVoucher, RetainedVoucher, PendingSettlement,
}
use pympp.Session.Merge.{accept_voucher_state_update}
use pympp.Session.Vouchers.{accepted_vouchers, resolve_settleable_voucher}
use pympp.Session.Vouchers.Settleable.{resolve_settleable_voucher_lem}
use pympp.Session.Credit.{settling, plan_credit, credit_decline_reason}
use pympp.Session.Ledger.{
  LedgerOp, charge, charge_keyed, credit, perform, credit_allowed, perform-SameFunds,
}
use pympp.Session.Settlement.{choose_settlement, release_settlement, record_settlement}
use pympp.Session.Custody.{
  System, Among, AskedAt, Move, settles, lands, fails, records, asks, accepts, passes, Recorded,
  Reserved, Inv, captured-le-spent, History, here, next,
}

-- From the reservations of one state to those of another.
module _ (c c' : ChannelState) (now now' : ℕ)
    (keep : (tx : PendingSettlement) → Reserved c now tx → Reserved c' now' tx) where
  All-Reserved :
      (txs : List PendingSettlement)
      → All (λ tx. Reserved c now tx) txs
      → All (λ tx. Reserved c' now' tx) txs
  All-Reserved [] a = tt
  All-Reserved (tx ∷ txs) a = (keep tx a.0, All-Reserved txs a.1)

-- The same, of the settlements that a failed one leaves.
module _ (c c' : ChannelState) (now : ℕ) (p : PendingSettlement → Bool)
    (keep : (tx : PendingSettlement) → p tx ≡ true → Reserved c now tx → Reserved c' now tx) where
  All-Reserved-select :
      (txs : List PendingSettlement)
      → All (λ tx. Reserved c now tx) txs
      → All (λ tx. Reserved c' now tx) (select p txs)
  All-Reserved-select [] a = tt
  All-Reserved-select (tx ∷ txs) a =
      let rest = All-Reserved-select txs a.1 in
      elim (Bool-cases (p tx)) [ inl e ↦ rw e (keep tx e a.0, rest) | inr e ↦ rw e rest ]

Among-Reserved :
    (c : ChannelState) (now : ℕ) (tx : PendingSettlement) (txs : List PendingSettlement)
    → Among tx txs
    → All (λ t. Reserved c now t) txs
    → Reserved c now tx
Among-Reserved c now tx [] m a = absurd m
Among-Reserved c now tx (x ∷ xs) (inl e) a = rw e a.0
Among-Reserved c now tx (x ∷ xs) (inr m) a = Among-Reserved c now tx xs m a.1

trivially : (v : RetainedVoucher) (vs : List RetainedVoucher) → All (λ w. Unit {0}) (v ∷ vs)
trivially v [] = (tt, tt)
trivially v (w ∷ vs) = (tt, trivially w vs)

All-unit : (vs : List RetainedVoucher) → All (λ w. Unit {0}) vs
All-unit [] = tt
All-unit (v ∷ vs) = trivially v vs

settleable_bounds :
    (c : ChannelState) (v : SignedVoucher)
    → resolve_settleable_voucher c ≡ some v
    → (c.settled_on_chain < v.cumulative_amount) × (v.cumulative_amount ≤ c.spent)
settleable_bounds c v e =
    let found =
      rw e at (resolve_settleable_voucher_lem (λ w. Unit {0}) c (All-unit (accepted_vouchers c))) in
    found.1

settles-Inv :
    (s : System) (expires_at : ℕ) (v : SignedVoucher) (c : ChannelState)
    → choose_settlement s.now expires_at (some s.channel) ≡ ok (some c, some v)
    → Inv s
    → Inv (record s {
      channel = c;
      sent = record { amount = v.cumulative_amount; expires_at = expires_at } ∷ s.sent;
    })
unfolding choose_settlement settling
settles-Inv s expires_at v c e i = elim (Option-cases (resolve_settleable_voucher s.channel)) [
  | inl n ↦ absurd (ground (arith, n))
  | inr (w, n) ↦
      let b = settleable_bounds s.channel w n in
      record {
        recorded = ground (arith, n);
        covered = ground (arith, n);
        floor = ground (arith, n);
        reserved = (
          ground (arith, n),
          All-Reserved s.channel c s.now s.now (λ tx h. ground (arith, n)) s.sent i.reserved,
        );
      }
]

lands-Inv :
    (s : System) (tx : PendingSettlement)
    → Among tx s.sent
    → s.now < tx.expires_at
    → Inv s
    → Inv (record s { chain_settled = max s.chain_settled tx.amount })
unfolding settling
lands-Inv s tx m b i =
    let r = Among-Reserved s.channel s.now tx s.sent m i.reserved in
    record { recorded = ground arith; covered = i.covered; floor = i.floor; reserved = i.reserved }

fails-Inv :
    (s : System) (amount expires_at : ℕ) (c : ChannelState)
    → s.chain_settled < amount
    → release_settlement amount expires_at (some s.channel) ≡ some c
    → Inv s
    → Inv (record s {
      channel = c;
      sent = select (λ tx. not (tx.amount == amount && tx.expires_at == expires_at)) s.sent;
    })
unfolding release_settlement settling
fails-Inv s amount expires_at c b e i = record {
  recorded = ground arith;
  covered = ground arith;
  floor = ground arith;
  reserved =
      All-Reserved-select s.channel c s.now
        (λ tx. not (tx.amount == amount && tx.expires_at == expires_at)) (λ tx k h. ground arith)
        s.sent i.reserved;
}

records-Inv :
    (s : System) (amount new_settled units : ℕ) (at : String) (c : ChannelState)
    → new_settled ≤ s.chain_settled
    → record_settlement amount new_settled units at (some s.channel) ≡ some c
    → Inv s
    → Inv (record s { channel = c })
unfolding record_settlement settling
records-Inv s amount new_settled units at c b e i =
    let safe = captured-le-spent i in
    record {
      recorded = ground arith;
      covered = ground arith;
      floor = ground arith;
      reserved = All-Reserved s.channel c s.now s.now (λ tx h. ground arith) s.sent i.reserved;
    }

perform_floor :
    (c : ChannelState) (op : LedgerOp) (now : ℕ)
    → AskedAt now op
    → c.settled_on_chain ≤ c.spent
    → settling c.pending_settlement now ≤ c.spent
    → ((perform c op).settled_on_chain ≤ (perform c op).spent)
      × (settling (perform c op).pending_settlement now ≤ (perform c op).spent)
unfolding perform plan_credit
perform_floor c (charge amount) now a k f = (ground arith, ground arith)
perform_floor c (charge_keyed amount key expires_at at) now a k f = (ground arith, ground arith)
perform_floor c (credit t) now a k f =
    elim (Option-cases (credit_decline_reason c t.amount t.now)) [
      | inl n ↦
          let allowed = credit_allowed c t.amount t.now n in (ground (arith, n), ground (arith, n))
      | inr (why, n) ↦ (ground (arith, n), ground (arith, n))
    ]

asks-Inv :
    (s : System) (op : LedgerOp)
    → AskedAt s.now op
    → Inv s
    → Inv (record s { channel = perform s.channel op })
asks-Inv s op a i =
    let same = perform-SameFunds s.channel op in
    let f = perform_floor s.channel op s.now a i.covered i.floor in
    record {
      recorded = rw (same.settled, same.pending) i.recorded;
      covered = f.0;
      floor = f.1;
      reserved =
          All-Reserved s.channel (perform s.channel op) s.now s.now
            (λ tx h. rw (same.settled, same.pending) h) s.sent i.reserved;
    }

accepts-Inv :
    (s : System) (state : OnChainChannelState) (v : SignedVoucher) (at : Option ℕ)
    (c : ChannelState)
    → state.settled ≤ s.chain_settled
    → accept_voucher_state_update state (some s.channel) v at ≡ ok c
    → Inv s
    → Inv (record s { channel = c })
unfolding accept_voucher_state_update
accepts-Inv s state v at c b e i =
    let safe = captured-le-spent i in
    record {
      recorded = ground arith;
      covered = ground arith;
      floor = ground arith;
      reserved = All-Reserved s.channel c s.now s.now (λ tx h. ground arith) s.sent i.reserved;
    }

passes-Inv :
    (s : System) (t : ℕ)
    → s.now ≤ t
    → Recorded s.channel t s.chain_settled
    → Inv s
    → Inv (record s { now = t })
unfolding settling
passes-Inv s t le r i = record {
  recorded = r;
  covered = i.covered;
  floor = ground arith;
  reserved = All-Reserved s.channel s.channel s.now t (λ tx h. ground arith) s.sent i.reserved;
}

Move-Inv : {s s' : System} → Move s s' → Inv s → Inv s'
Move-Inv {s} (settles expires_at v c e q) i = rw q (settles-Inv s expires_at v c e i)
Move-Inv {s} (lands tx m b q) i = rw q (lands-Inv s tx m b i)
Move-Inv {s} (fails amount expires_at c b e q) i = rw q (fails-Inv s amount expires_at c b e i)
Move-Inv {s} (records amount new_settled units at c b e q) i =
    rw q (records-Inv s amount new_settled units at c b e i)
Move-Inv {s} (asks op a q) i = rw q (asks-Inv s op a i)
Move-Inv {s} (accepts state v at c b e q) i = rw q (accepts-Inv s state v at c b e i)
Move-Inv {s} (passes t le r q) i = rw q (passes-Inv s t le r i)

History-Inv : {s s' : System} → Inv s → History s s' → Inv s'
History-Inv i here = i
History-Inv i (next h m) = Move-Inv m (History-Inv i h)

-- From a state in which settled amounts and reservations are covered by what is spent, however charges,
-- credits, vouchers, settlements, their landing, failing and recording, and time interleave, the
-- escrow never captures more than the channel's spent amount.
pub never_overcaptured :
    {s s' : System} → Inv s → History s s' → s'.chain_settled ≤ s'.channel.spent
never_overcaptured i h = captured-le-spent (History-Inv i h)
