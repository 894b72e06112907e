-- ===== src/Session/Schedule/Due.antt =====
-- When a scheduled settlement is due, in terms of what was spent, counted and of the time.
use pympp.Prelude.{
  ℕ, ◌+◌, ◌≤◌, ◌<◌, ◌≡◌, ◌≢◌, ◌⊎◌, ◌↔◌, refl, inl, inr, String, Bool, true, false, Option, none,
  some, arith, or_else, ltb, not, ◌&&◌, if◌then◌else◌,
}
use pympp.Prelude.Int.{ℤ, pos, sub_ℕ, at_least, at_least-sub_ℕ}
use pympp.Session.State.{ChannelState}
use pympp.Session.Vouchers.{resolve_settleable_voucher}
use pympp.Session.Schedule.{
  ResolvedSettlementSchedule, is_precompile_state, resolve_settlement_progress, text_or, reached,
  is_settlement_due,
}

-- A threshold that is set, and crossed since a boundary.
abbrev pub Crossed : Option ℕ → ℕ → ℕ → Type 0
Crossed none boundary value = ⊥
Crossed (some threshold) boundary value = boundary + threshold ≤ value

-- An interval that has passed since a boundary; without a readable one, no time has passed.
abbrev pub Passed : Option ℕ → Option ℕ → ℕ → Type 0
Passed none boundary now = ⊥
Passed (some interval) none now = interval ≡ 0
Passed (some interval) (some boundary) now = boundary + interval ≤ now

reached_iff :
    (threshold : Option ℕ) (value boundary : ℕ)
    → (reached threshold (sub_ℕ value boundary) ≡ true) ↔ Crossed threshold boundary value
reached_iff none value boundary = (λ e. ground arith, λ h. absurd h)
reached_iff (some n) value boundary = (
  λ e. ground (arith, at_least-sub_ℕ n value boundary),
  λ h. ground (arith, at_least-sub_ℕ n value boundary),
)

any_iff {ℓ} :
    {P Q R S : Type ℓ} (a b c d : Bool)
    → (a ≡ true) ↔ P
    → (b ≡ true) ↔ Q
    → (c ≡ true) ↔ R
    → (d ≡ true) ↔ S
    → ((if a then true else if b then true else if c then true else d) ≡ true) ↔ (P ⊎ (Q ⊎ (R ⊎ S)))
any_iff true b c d p q r s = (λ e. inl (p.0 refl), λ h. refl)
any_iff false true c d p q r s = (λ e. inr (inl (q.0 refl)), λ h. refl)
any_iff false false true d p q r s = (λ e. inr (inr (inl (r.0 refl))), λ h. refl)
any_iff false false false d p q r s = (
  λ e. inr (inr (inr (s.0 e))),
  λ h. elim h [
    | inl x ↦ absurd (ground (arith, p.1 x))
    | inr (inl x) ↦ absurd (ground (arith, q.1 x))
    | inr (inr (inl x)) ↦ absurd (ground (arith, r.1 x))
    | inr (inr (inr x)) ↦ s.1 x
  ],
)

closing_iff :
    (c : ChannelState)
    → ((not c.finalized && ltb 0 c.close_requested_at) ≡ true)
      ↔ ((c.finalized ≡ false) × (0 < c.close_requested_at))
closing_iff c = (λ e. (ground arith, ground arith), λ h. ground arith)

abbrev pub elapsed : Option ℕ → ℕ → Option ℤ
elapsed boundary now = elim boundary [ none ↦ none | some b ↦ some (sub_ℕ now b) ]

interval_iff :
    (interval boundary : Option ℕ) (now : ℕ)
    → (reached interval (or_else (elapsed boundary now) (pos 0)) ≡ true)
      ↔ Passed interval boundary now
unfolding at_least
interval_iff none boundary now = (λ e. ground arith, λ h. absurd h)
interval_iff (some n) none now = (λ e. ground arith, λ h. ground arith)
interval_iff (some n) (some b) now =
    (λ e. ground (arith, at_least-sub_ℕ n now b), λ h. ground (arith, at_least-sub_ℕ n now b))

module _ (parse_iso_ms : String → Option ℕ) where
  -- A channel that can be settled, and whose close was requested or that crossed a threshold.
  pub record IsDue (c : ChannelState) (s : ResolvedSettlementSchedule) (now : ℕ) : Type 0 where
    pub precompile : is_precompile_state c ≡ true
    pub settleable : resolve_settleable_voucher c ≢ none
    pub crossed :
        ((c.finalized ≡ false) × (0 < c.close_requested_at))
        ⊎ (Crossed s.units (or_else c.last_settlement_units 0) c.units
            ⊎ (Crossed s.amount (or_else c.last_settlement_spent c.settled_on_chain) c.spent
                ⊎ Passed s.interval_ms
                    (parse_iso_ms (text_or c.last_settlement_at c.created_at))
                    now))

  -- A settlement is due exactly for a precompile channel with a voucher to settle, whose close was requested
  -- or which crossed a threshold of the schedule: units or spend since the last settlement, or time.
  pub is_settlement_due_lem :
      (c : ChannelState) (s : ResolvedSettlementSchedule) (now : ℕ)
      → (is_settlement_due parse_iso_ms c (some s) now ≡ true) ↔ IsDue c s now
  unfolding is_settlement_due resolve_settlement_progress
  is_settlement_due_lem c s now =
      let boundary = parse_iso_ms (text_or c.last_settlement_at c.created_at) in
      let spent = sub_ℕ c.spent (or_else c.last_settlement_spent c.settled_on_chain) in
      let units = sub_ℕ c.units (or_else c.last_settlement_units 0) in
      let due =
        any_iff (not c.finalized && ltb 0 c.close_requested_at) (reached s.units units)
          (reached s.amount spent) (reached s.interval_ms (or_else (elapsed boundary now) (pos 0)))
          (closing_iff c) (reached_iff s.units c.units (or_else c.last_settlement_units 0))
          (reached_iff s.amount c.spent (or_else c.last_settlement_spent c.settled_on_chain))
          (interval_iff s.interval_ms boundary now) in
      (
        λ e. record {
          precompile = ground arith;
          settleable = λ q. absurd (ground arith);
          crossed = due.0 (ground (arith, e));
        },
        λ d. ground (arith, due.1 d.crossed, d.precompile, d.settleable),
      )
