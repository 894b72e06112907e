-- ===== src/Session/Ledger.antt =====
-- A channel's money: what charges and credits do to `spent`, over any sequence of them.
use pympp.Prelude.{
  ℕ, ◌+◌, ◌-◌, ◌≤◌, ◌≡◌, ◌∙◌, refl, String, Option, none, some, List, [], ◌∷◌, arith, if◌then◌else◌,
  Option-cases, inl, inr,
}
use pympp.Session.State.{ChannelState}
use pympp.Session.Change.{StoreChange, set, delete, noop, change_result}
use pympp.Session.Charge.{
  DeductResult, KeyedResult, conflict, result, plan_deduction, plan_keyed_deduction,
}
use pympp.Session.Credit
use pympp.Session.Credit.{
  CreditOutcome, CreditTerms, was_credited, was_declined, plan_credit, credit_key, settling,
  credit_decline_reason, credit_markers, credit_marker,
}

-- The operations that a client asks of a channel.
pub data LedgerOp : Type 0 where
  charge : ℕ → LedgerOp
  charge_keyed : ℕ → String → ℕ → ℕ → LedgerOp
  credit : CreditTerms → LedgerOp

abbrev stored {ℓ} : {R : Type ℓ} → ChannelState → StoreChange R → ChannelState
stored c (set r value) = value
stored c (delete r) = c
stored c (noop r) = c

unfoldable pub perform : ChannelState → LedgerOp → ChannelState
unfolding plan_deduction plan_keyed_deduction
perform c (charge amount) = stored c (plan_deduction (some c) amount)
perform c (charge_keyed amount key expires_at now) =
    stored c (plan_keyed_deduction (some c) amount key expires_at now)
perform c (credit t) = stored c (plan_credit (some c) t)

abbrev paid_by : ℕ → Option DeductResult → ℕ
paid_by amount none = 0
paid_by amount (some r) = if r.ok then (if r.replayed then 0 else amount) else 0

abbrev paid_keyed : ℕ → Option KeyedResult → ℕ
paid_keyed amount none = 0
paid_keyed amount (some conflict) = 0
paid_keyed amount (some (result r)) = paid_by amount (some r)

-- What an operation charged, by the answer that its caller got: a fresh success counts, a replay does
-- not.
unfoldable pub charged_by : ChannelState → LedgerOp → ℕ
unfolding plan_deduction plan_keyed_deduction
charged_by c (charge amount) = paid_by amount (change_result (plan_deduction (some c) amount))
charged_by c (charge_keyed amount key expires_at now) =
    paid_keyed amount (change_result (plan_keyed_deduction (some c) amount key expires_at now))
charged_by c (credit t) = 0

abbrev returned : ℕ → Option CreditOutcome → ℕ
returned amount none = 0
returned amount (some Credit.conflict) = 0
returned amount (some Credit.capacity) = 0
returned amount (some (was_credited d replayed)) = if replayed then 0 else amount
returned amount (some (was_declined d replayed reason)) = 0

-- What an operation credited, by the answer that its caller got.
unfoldable pub credited_by : ChannelState → LedgerOp → ℕ
credited_by c (charge amount) = 0
credited_by c (charge_keyed amount key expires_at now) = 0
credited_by c (credit t) = returned t.amount (change_result (plan_credit (some c) t))

unfoldable pub run : ChannelState → List LedgerOp → ChannelState
run c [] = c
run c (op ∷ ops) = run (perform c op) ops

unfoldable pub total_charged : ChannelState → List LedgerOp → ℕ
total_charged c [] = 0
total_charged c (op ∷ ops) = charged_by c op + total_charged (perform c op) ops

unfoldable pub total_credited : ChannelState → List LedgerOp → ℕ
total_credited c [] = 0
total_credited c (op ∷ ops) = credited_by c op + total_credited (perform c op) ops

-- What settled on the chain is spent, and what is spent is authorized by vouchers.
pub record IsSolvent (c : ChannelState) : Type 0 where
  pub covered : c.settled_on_chain ≤ c.spent
  pub authorized : c.spent ≤ c.highest_voucher_amount

-- The fields that only vouchers and the chain move.
pub record SameFunds (c c' : ChannelState) : Type 0 where
  pub highest : c'.highest_voucher_amount ≡ c.highest_voucher_amount
  pub settled : c'.settled_on_chain ≡ c.settled_on_chain
  pub deposit : c'.deposit ≡ c.deposit
  pub pending : c'.pending_settlement ≡ c.pending_settlement

abbrev Balanced : ChannelState → ChannelState → ℕ → ℕ → Type 0
Balanced c c' paid back =
    (c'.spent + back ≡ c.spent + paid) × SameFunds c c' × (IsSolvent c → IsSolvent c')

-- What a credit that is not declined leaves spent.
pub credit_allowed :
    (c : ChannelState) (amount now : ℕ)
    → credit_decline_reason c amount now ≡ none
    → (amount ≤ c.spent)
      × (c.settled_on_chain ≤ c.spent - amount)
      × (settling c.pending_settlement now ≤ c.spent - amount)
unfolding credit_decline_reason
credit_allowed c amount now h = (ground arith, ground arith, ground arith)

perform_credit-Balanced :
    (c : ChannelState) (t : CreditTerms)
    → Balanced c (perform c (credit t)) 0 (credited_by c (credit t))
unfolding perform credited_by plan_credit
perform_credit-Balanced c t = elim (Option-cases (credit_decline_reason c t.amount t.now)) [
  | inl n ↦
      let a = credit_allowed c t.amount t.now n in
      (ground (arith, n, a), ground (arith, n, a), λ s. ground (arith, n, a))
  | inr (why, n) ↦ (ground (arith, n), ground (arith, n), λ s. ground (arith, n))
]

perform-Balanced :
    (c : ChannelState) (op : LedgerOp)
    → Balanced c (perform c op) (charged_by c op) (credited_by c op)
unfolding perform charged_by credited_by
perform-Balanced c (charge amount) = (ground arith, ground arith, λ s. ground arith)
perform-Balanced c (charge_keyed amount key expires_at now) =
    (ground arith, ground arith, λ s. ground arith)
perform-Balanced c (credit t) = perform_credit-Balanced c t

pub perform-SameFunds : (c : ChannelState) (op : LedgerOp) → SameFunds c (perform c op)
perform-SameFunds c op = (perform-Balanced c op).1

SameFunds-trans : {a b c : ChannelState} → SameFunds a b → SameFunds b c → SameFunds a c
SameFunds-trans p q = record {
  highest = q.highest ∙ p.highest;
  settled = q.settled ∙ p.settled;
  deposit = q.deposit ∙ p.deposit;
  pending = q.pending ∙ p.pending;
}

-- Over any sequence of charges, keyed charges and credits, `spent` rises by what callers were told
-- was charged and falls by what they were told was credited, replays not counted; the vouchers, the
-- settled amount, the deposit and the pending settlement stay as they were.
pub run_balanced :
    (c : ChannelState) (ops : List LedgerOp)
    → ((run c ops).spent + total_credited c ops ≡ c.spent + total_charged c ops)
      × SameFunds c (run c ops)
unfolding run total_charged total_credited
run_balanced c [] =
    (refl, record { highest = refl; settled = refl; deposit = refl; pending = refl })
run_balanced c (op ∷ ops) =
    let first = perform-Balanced c op in
    let rest = run_balanced (perform c op) ops in (omega arith, SameFunds-trans first.1 rest.1)

-- If at first what settled is at most what is spent, and that at most the highest voucher amount, then
-- so after any sequence of charges, keyed charges and credits.
pub run-IsSolvent : (c : ChannelState) (ops : List LedgerOp) → IsSolvent c → IsSolvent (run c ops)
unfolding run
run-IsSolvent c [] s = s
run-IsSolvent c (op ∷ ops) s = run-IsSolvent (perform c op) ops ((perform-Balanced c op).2 s)
