-- ===== src/Headers/Params/Fuel.antt =====
-- Every round of the parameters' loop takes a character at least.
use pympp.Prelude.{
  ℕ, zero, suc, ◌+◌, ◌≤◌, ◌<◌, ◌≡◌, inl, inr, refl, ap, Bool, true, false, [], ◌∷◌, ◌++◌, arith,
  ◌==◌, length, Bool-cases,
}
use pympp.Prelude.Result.{Result, ok, raise}
use pympp.Headers.{Text, HeaderError, parse_error, lstrip}
use pympp.Headers.Quoted.{backslash, quote, unescape_quoted}
use pympp.Headers.Params.{
  Params, param, skip_separators, key_of, after_key, lower, consed, quoted_from,
  read_quoted_auth_param, after_token, read_value, ParamRound, stopped, failed, found, valued,
  unless, read_assigned, read_keyed, read_param, params_from,
}

-- What is left behind a value is not longer than the text.
abbrev Leaves : ℕ → Result HeaderError (Text × Text) → Type 0
Leaves n (ok (v, rest)) = length rest ≤ n
Leaves n (raise e) = Unit

abbrev Shrinks : ℕ → ParamRound → Type 0
Shrinks n stopped = Unit
Shrinks n (failed e) = Unit
Shrinks n (found k v rest) = length rest < n

length-lstrip : (s : Text) → length (lstrip s) ≤ length s
unfolding lstrip
length-lstrip [] = omega arith
length-lstrip (c ∷ s) = ground (arith, length-lstrip s)

length-skip_separators : (s : Text) → length (skip_separators s) ≤ length s
unfolding skip_separators
length-skip_separators [] = omega arith
length-skip_separators (c ∷ s) = ground (arith, length-skip_separators s)

length-after_token : (s : Text) → length (after_token s) ≤ length s
unfolding after_token
length-after_token [] = omega arith
length-after_token (c ∷ s) = ground (arith, length-after_token s)

length-after_key : (s : Text) → length (key_of s) + length (after_key s) ≡ length s
unfolding key_of after_key
length-after_key [] = refl
length-after_key (c ∷ s) = ground (arith, length-after_key s)

consed-Leaves :
    (n c : ℕ) (r : Result HeaderError (Text × Text)) → Leaves n r → Leaves (suc n) (consed c r)
consed-Leaves n c (ok (raw, rest)) h = omega (arith, h)
consed-Leaves n c (raise e) h = tt

quoted_from-Leaves : (b : Bool) (s : Text) → Leaves (length s) (quoted_from b s)
unfolding quoted_from
quoted_from-Leaves b [] = tt
quoted_from-Leaves true (c ∷ s) = consed-Leaves _ c _ (quoted_from-Leaves false s)
quoted_from-Leaves false (c ∷ s) = elim (Bool-cases (c == backslash)) [
  | inl h ↦ rw h (consed-Leaves _ c _ (quoted_from-Leaves true s))
  | inr h ↦ elim (Bool-cases (c == quote)) [
    | inl k ↦ rw (h, k) (omega arith)
    | inr k ↦ rw (h, k) (consed-Leaves _ c _ (quoted_from-Leaves false s))
  ]
]

read_quoted_auth_param-Leaves : (s : Text) → Leaves (length s) (read_quoted_auth_param s)
unfolding read_quoted_auth_param
read_quoted_auth_param-Leaves s = go (quoted_from false s) (quoted_from-Leaves false s)
  where
    go :
        (r : Result HeaderError (Text × Text))
        → Leaves (length s) r
        → Leaves
            (length s)
            (elim r [ ok (raw, rest) ↦ ok (unescape_quoted raw, rest) | raise e ↦ raise e ])
    go (ok (raw, rest)) h = h
    go (raise e) h = tt

Leaves-mono : (n m : ℕ) (r : Result HeaderError (Text × Text)) → n ≤ m → Leaves n r → Leaves m r
Leaves-mono n m (ok (v, rest)) l h = omega (arith, l, h)
Leaves-mono n m (raise e) l h = tt

read_value-Leaves : (s : Text) → Leaves (length s) (read_value s)
unfolding read_value after_token
read_value-Leaves [] = omega arith
read_value-Leaves (c ∷ s) = elim (Bool-cases (c == quote)) [
  | inl h ↦
      rw h
        (Leaves-mono _ _ (read_quoted_auth_param s) (omega arith) (read_quoted_auth_param-Leaves s))
  | inr h ↦ rw h (length-after_token (c ∷ s))
]

valued-Shrinks :
    (n m : ℕ) (k : Text) (r : Result HeaderError (Text × Text))
    → n < m
    → Leaves n r
    → Shrinks m (valued k r)
valued-Shrinks n m k (ok (v, rest)) l h = omega (arith, l, h)
valued-Shrinks n m k (raise e) l h = tt

read_assigned-Shrinks : (k s : Text) → Shrinks (length s) (read_assigned k s)
unfolding read_assigned
read_assigned-Shrinks k [] = tt
read_assigned-Shrinks k (c ∷ s) = elim (Bool-cases (c == b'=')) [
  | inl h ↦ rw h (
      valued-Shrinks (length (lstrip s)) _ k (read_value (lstrip s))
        (omega (arith, length-lstrip s)) (read_value-Leaves (lstrip s)))
  | inr h ↦ rw h tt
]

Shrinks-mono : (n m : ℕ) (r : ParamRound) → n ≤ m → Shrinks n r → Shrinks m r
Shrinks-mono n m stopped l h = tt
Shrinks-mono n m (failed e) l h = tt
Shrinks-mono n m (found k v rest) l h = omega (arith, l, h)

read_keyed-Shrinks : (s : Text) → Shrinks (length s) (read_keyed s)
unfolding read_keyed
read_keyed-Shrinks s = go (key_of s) (omega (arith, length-after_key s))
  where
    go :
        (key : Text)
        → length key + length (after_key s) ≤ length s
        → Shrinks (length s) (elim key [
          | [] ↦ failed parse_error
          | c ∷ k ↦ read_assigned (lower (c ∷ k)) (lstrip (after_key s))
        ])
    go [] l = tt
    go (c ∷ k) l =
        Shrinks-mono _ _ (read_assigned (lower (c ∷ k)) (lstrip (after_key s)))
          (omega (arith, length-lstrip (after_key s), l))
          (read_assigned-Shrinks (lower (c ∷ k)) (lstrip (after_key s)))

pub read_param-Shrinks : (s : Text) → Shrinks (length s) (read_param s)
unfolding read_param
read_param-Shrinks s = go (skip_separators s) (length-skip_separators s)
  where
    go :
        (t : Text)
        → length t ≤ length s
        → Shrinks (length s) (elim t [ [] ↦ stopped | c ∷ u ↦ read_keyed (c ∷ u) ])
    go [] l = tt
    go (c ∷ u) l = Shrinks-mono _ _ (read_keyed (c ∷ u)) l (read_keyed-Shrinks (c ∷ u))

-- A round leaves a shorter text, so that any two fuels that are at least the text's length give the same
-- parameters, or the same error.
pub params_from-fuel :
    (f g : ℕ) (params : Params) (s : Text)
    → length s ≤ f
    → length s ≤ g
    → params_from f params s ≡ params_from g params s
unfolding params_from read_param skip_separators
params_from-fuel zero zero params s hf hg = refl
params_from-fuel zero (suc g) params [] hf hg = refl
params_from-fuel (suc f) zero params [] hf hg = refl
params_from-fuel zero (suc g) params (c ∷ s) hf hg = ground arith
params_from-fuel (suc f) zero params (c ∷ s) hf hg = ground arith
params_from-fuel (suc f) (suc g) params s hf hg =
    go (λ ps rest l. params_from-fuel f g ps rest (omega (arith, l, hf)) (omega (arith, l, hg)))
      (read_param s) (read_param-Shrinks s)
  where
    after : ℕ → ParamRound → Result HeaderError Params
    after n stopped = ok params
    after n (failed e) = raise e
    after n (found k v rest) =
        unless (param k params) (params_from n (params ++ ((k, v) ∷ [])) rest)

    go :
        ((ps : Params) (rest : Text)
          → length rest < length s
          → params_from f ps rest ≡ params_from g ps rest)
        → (r : ParamRound) → Shrinks (length s) r
        → after f r ≡ after g r
    go ih stopped h = refl
    go ih (failed e) h = refl
    go ih (found k v rest) h = ap (unless (param k params)) (ih (params ++ ((k, v) ∷ [])) rest h)
