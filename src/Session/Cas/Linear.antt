-- ===== src/Session/Cas/Linear.antt =====
-- The compare-and-set loop is one atomic update, and it ends when it is left alone for a round.
use pympp.Prelude.{
  ◌≡◌, ◌≢◌, refl, ◌∙◌, sym, ap, ◌⊎◌, inl, inr, String, Option, none, some, List, [], ◌∷◌, arith,
  eq_iff, str_eq, if◌then◌else◌, Bool-cases,
}
use pympp.Prelude.Result.{Result, ok, Result-cases}
use pympp.Session.State.{ChannelState}
use pympp.Session.Change.{StoreChange, set, delete, noop, change_result}
use pympp.Session.Cas.{
  CasStore, Codec, Turn, Round, returns, raises, retries, decode_stored, written_value,
  change_round, round, update_cas, swap_round,
}

Round-cases :
    {W E R : Type 0} (o : Round W E R)
    → ((w : W) × (r : R) × (o ≡ returns w r))
      ⊎ (((w : W) × (x : E) × (o ≡ raises w x)) ⊎ ((w : W) × (o ≡ retries w)))
Round-cases (returns w r) = inl (w, r, refl)
Round-cases (raises w x) = inr (inl (w, x, refl))
Round-cases (retries w) = inr (inr (w, refl))

module _ (store : CasStore) {E R : Type 0} (codec : Codec store E) (key : String)
    (fn : Option ChannelState → Result E (StoreChange R)) where
  open store use {World, Value, read, cas, cas_written, cas_refused}

  -- The worlds that a run of the loop meets: at its reads, and when it swaps.
  pub data Seen : World → List (Turn World) → World → Type 0 where
    at_read :
        {w : World} {turn : Turn World} {rest : List (Turn World)}
        → Seen w (turn ∷ rest) (turn.before_read w)
    at_swap :
        {w : World} {turn : Turn World} {rest : List (Turn World)}
        → Seen w (turn ∷ rest) (turn.before_swap (turn.before_read w))
    later :
        {w w' t : World} {turn : Turn World} {rest : List (Turn World)}
        → ((j : String) → read w' j ≡ read (turn.before_swap (turn.before_read w)) j)
        → Seen w' rest t
        → Seen w (turn ∷ rest) t

  abbrev pub next_value : StoreChange R → Option Value → Option Value
  next_value (set r c) raw = some (written_value store codec key c)
  next_value (delete r) raw = none
  next_value (noop r) raw = raw

  -- One atomic update of world `t`: `fn` of the channel there, its result, and its change of the key
  -- and of no other.
  pub record Atomic (t w' : World) (r : R) : Type 0 where
    pub current : Option ChannelState
    pub change : StoreChange R
    pub decoded : decode_stored store codec key (read t key) ≡ ok current
    pub answered : fn current ≡ ok change
    pub result : r ≡ change_result change
    pub written :
        (j : String)
        → read w' j ≡ (if str_eq key j then next_value change (read t key) else read t j)

  unchanged : (w : World) (j : String) → read w j ≡ (if str_eq key j then read w key else read w j)
  unchanged w j = elim (Bool-cases (str_eq key j)) [
    | inl e ↦ rw e (ap (read w) (sym ((eq_iff key j).0 e)))
    | inr e ↦ rw e
  ]

  -- A swap that is written replaced the value that was read.
  swapped :
      (w w' : World) (raw value : Option Value) (r r' : R)
      → swap_round store codec key w raw value r ≡ returns w' r'
      → (r' ≡ r)
        × (read w key ≡ raw)
        × ((j : String) → read w' j ≡ (if str_eq key j then value else read w j))
  swapped w w' raw value r r' e = elim (Bool-cases (cas w key raw value).1) [
    | inl agrees ↦
        let done = cas_written w key raw value agrees in
        (ground (arith, agrees), done.0, λ j. (ground (arith, agrees, done.1 j)))
    | inr refused ↦ absurd (ground (arith, refused))
  ]

  swapped-Atomic :
      (w w' : World) (others : World → World) (value : Option Value) (r r' : R)
      (current : Option ChannelState) (change : StoreChange R)
      → decode_stored store codec key (read w key) ≡ ok current
      → fn current ≡ ok change
      → r ≡ change_result change
      → next_value change (read w key) ≡ value
      → swap_round store codec key (others w) (read w key) value r ≡ returns w' r'
      → Atomic (others w) w' r'
  swapped-Atomic w w' others value r r' current change d a q n e =
      let s = swapped (others w) w' (read w key) value r r' e in
      record {
        current = current;
        change = change;
        decoded = rw (s.1) d;
        answered = a;
        result = s.0 ∙ q;
        written = λ j. rw (s.1) (rw n (s.2 j));
      }

  -- A round that writes nothing was an update at its read.
  quiet-Atomic :
      (w w' : World) (r r' : R) (current : Option ChannelState) (change : StoreChange R)
      → decode_stored store codec key (read w key) ≡ ok current
      → fn current ≡ ok change
      → r ≡ change_result change
      → next_value change (read w key) ≡ read w key
      → ◌≡◌ {A = Round World E R} (returns w r) (returns w' r')
      → Atomic w w' r'
  quiet-Atomic w w' r r' current change d a q n e =
      let same_world : w ≡ w' = ground arith in
      let same_result : r ≡ r' = ground arith in
      record {
        current = current;
        change = change;
        decoded = d;
        answered = a;
        result = sym same_result ∙ q;
        written = λ j. rw (sym same_world) (rw n (unchanged w j));
      }

  -- A round that returns was an update at its read, which changed nothing, or at its swap.
  change_round-Atomic :
      (w w' : World) (others : World → World) (r' : R) (current : Option ChannelState)
      (change : StoreChange R) (raw : Option Value)
      → read w key ≡ raw
      → decode_stored store codec key (read w key) ≡ ok current
      → fn current ≡ ok change
      → change_round store codec key w others raw change ≡ returns w' r'
      → (Atomic w w' r') ⊎ (Atomic (others w) w' r')
  unfolding change_round
  change_round-Atomic w w' others r' current (noop r) raw p d a e =
      inl (quiet-Atomic w w' r r' current (noop r) d a refl refl e)
  change_round-Atomic w w' others r' current (set r c) raw p d a e = inr (
      swapped-Atomic w w' others (some (written_value store codec key c)) r r' current (set r c) d a
        refl refl (rw p e))
  change_round-Atomic w w' others r' current (delete r) none p d a e =
      inl (quiet-Atomic w w' r r' current (delete r) d a refl (sym p) e)
  change_round-Atomic w w' others r' current (delete r) (some v) p d a e =
      inr (swapped-Atomic w w' others none r r' current (delete r) d a refl refl (rw p e))

  round-Atomic :
      (w w' : World) (others : World → World) (r' : R)
      → round store codec key fn w others ≡ returns w' r'
      → (Atomic w w' r') ⊎ (Atomic (others w) w' r')
  unfolding round
  round-Atomic w w' others r' e = elim (Result-cases (decode_stored store codec key (read w key))) [
    | inr (x, d) ↦ absurd (ground (arith, d))
    | inl (current, d) ↦ elim (Result-cases (fn current)) [
      | inr (x, a) ↦ absurd (ground (arith, d, a))
      | inl (change, a) ↦
          change_round-Atomic w w' others r' current change (read w key) refl d a
            (ground (arith, d, a))
    ]
  ]

  -- A refused swap leaves what every key holds.
  refused :
      (w w' : World) (raw value : Option Value) (r : R)
      → swap_round store codec key w raw value r ≡ retries w'
      → (read w key ≢ raw) × ((j : String) → read w' j ≡ read w j)
  refused w w' raw value r e = elim (Bool-cases (cas w key raw value).1) [
    | inl agrees ↦ absurd (ground (arith, agrees))
    | inr refusal ↦
        let kept = cas_refused w key raw value refusal in
        let same_world : (cas w key raw value).0 ≡ w' = ground (arith, refusal) in
        (kept.0, λ j. rw (sym same_world) (kept.1 j))
  ]

  change_round-refused :
      (w w' : World) (others : World → World) (raw : Option Value) (change : StoreChange R)
      → change_round store codec key w others raw change ≡ retries w'
      → (read (others w) key ≢ raw) × ((j : String) → read w' j ≡ read (others w) j)
  unfolding change_round
  change_round-refused w w' others raw (noop r) e = absurd (ground arith)
  change_round-refused w w' others raw (set r c) e =
      refused (others w) w' raw (some (written_value store codec key c)) r e
  change_round-refused w w' others none (delete r) e = absurd (ground arith)
  change_round-refused w w' others (some v) (delete r) e = refused (others w) w' (some v) none r e

  -- A round is refused only when others changed the key, and it changes nothing.
  round-refused :
      (w w' : World) (others : World → World)
      → round store codec key fn w others ≡ retries w'
      → (read (others w) key ≢ read w key) × ((j : String) → read w' j ≡ read (others w) j)
  unfolding round
  round-refused w w' others e = elim (Result-cases (decode_stored store codec key (read w key))) [
    | inr (x, d) ↦ absurd (ground (arith, d))
    | inl (current, d) ↦ elim (Result-cases (fn current)) [
      | inr (x, a) ↦ absurd (ground (arith, d, a))
      | inl (change, a) ↦
          change_round-refused w w' others (read w key) change (ground (arith, d, a))
    ]
  ]

  -- `_update_cas`, however others act between its steps: a run that returns is one atomic update, of
  -- the channel that the store holds at one moment of the run, with that update's result.
  pub update_cas-Atomic :
      (w w' : World) (es : List (Turn World)) (r : R)
      → update_cas store codec key fn w es ≡ returns w' r
      → (t : World) × (Seen w es t) × (Atomic t w' r)
  unfolding update_cas
  update_cas-Atomic w w' [] r e = absurd (ground arith)
  update_cas-Atomic w w' (turn ∷ rest) r e =
      let begun = turn.before_read w in
      let others = turn.before_swap in
      elim (Round-cases (round store codec key fn begun others)) [
        | inl (w1, r1, q) ↦
            let e1 : ◌≡◌ {A = Round World E R} (returns w1 r1) (returns w' r) = ground (arith, q) in
            elim (round-Atomic begun w' others r (q ∙ e1)) [
              | inl a ↦ (begun, at_read, a)
              | inr a ↦ (others begun, at_swap, a)
            ]
        | inr (inl (w1, x, q)) ↦ absurd (ground (arith, q))
        | inr (inr (w1, q)) ↦
            let (t, seen, a) = update_cas-Atomic w1 w' rest r (ground (arith, q)) in
            (t, later ((round-refused begun w1 others q).1) seen, a)
      ]

  -- Other processes change the key between the read and the swap of each round.
  pub data Contended : World → List (Turn World) → Type 0 where
    ended : {w : World} → Contended w []
    contended :
        {w w' : World} {turn : Turn World} {rest : List (Turn World)}
        → (read (turn.before_swap (turn.before_read w)) key ≢ read (turn.before_read w) key)
        → ((j : String) → read w' j ≡ read (turn.before_swap (turn.before_read w)) j)
        → Contended w' rest
        → Contended w (turn ∷ rest)

  -- `_update_cas` goes around again only while every one of its rounds so far was disturbed: a run
  -- that has not ended after its rounds had another process change the key in each of them.
  pub update_cas-Contended :
      (w w' : World) (es : List (Turn World))
      → update_cas store codec key fn w es ≡ retries w'
      → Contended w es
  unfolding update_cas
  update_cas-Contended w w' [] e = ended
  update_cas-Contended w w' (turn ∷ rest) e =
      let begun = turn.before_read w in
      let others = turn.before_swap in
      elim (Round-cases (round store codec key fn begun others)) [
        | inl (w1, r1, q) ↦ absurd (ground (arith, q))
        | inr (inl (w1, x, q)) ↦ absurd (ground (arith, q))
        | inr (inr (w1, q)) ↦
            let kept = round-refused begun w1 others q in
            contended (kept.0) (kept.1) (update_cas-Contended w1 w' rest (ground (arith, q)))
      ]
