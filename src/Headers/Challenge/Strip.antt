-- ===== src/Headers/Challenge/Strip.antt =====
-- Stripping leaves the parameters as they were written: they start with a name and end with a quote.
use mathlib.Core.List.{append_assoc}
use pympp.Prelude.{ℕ, ◌≡◌, ◌∙◌, refl, sym, ap, false, [], ◌∷◌, ◌++◌, arith, map}
use pympp.Headers.{Text, is_space, lstrip, rstrip, is_blank, strip}
use pympp.Headers.Quoted.{quote}
use pympp.Headers.Params.{Params, auth_param, joined}

is_blank-quoted : (s : Text) → is_blank (s ++ (quote ∷ [])) ≡ false
unfolding is_blank is_space
is_blank-quoted [] = refl
is_blank-quoted (c ∷ s) = ground (arith, is_blank-quoted s)

rstrip-quoted : (s : Text) → rstrip (s ++ (quote ∷ [])) ≡ s ++ (quote ∷ [])
unfolding rstrip is_blank is_space
rstrip-quoted [] = refl
rstrip-quoted (c ∷ s) = rw (is_blank-quoted (c ∷ s)) (ap (λ t. c ∷ t) (rstrip-quoted s))

pub strip-quoted :
    (c : ℕ) (s : Text) → is_space c ≡ false → strip (c ∷ s ++ (quote ∷ [])) ≡ c ∷ s ++ (quote ∷ [])
unfolding strip lstrip
strip-quoted c s h = rw h (rstrip-quoted (c ∷ s))

-- The last part ends with its closing quote.
pub joined-quoted :
    (p : Text × Text) (ps : Params)
    → (s : Text) × (joined (map auth_param (p ∷ ps)) ≡ s ++ (quote ∷ []))
unfolding joined auth_param
joined-quoted p [] =
    (p.0 ++ (b'=' ∷ quote ∷ p.1), sym (append_assoc p.0 (b'=' ∷ quote ∷ p.1) (quote ∷ [])))
joined-quoted p (q ∷ ps) =
    let (s, e) = joined-quoted q ps in
    (
      auth_param p ++ (b',' ∷ b' ' ∷ s),
      ap (λ t. auth_param p ++ (b',' ∷ b' ' ∷ t)) e
          ∙ sym (append_assoc (auth_param p) (b',' ∷ b' ' ∷ s) (quote ∷ [])),
    )

pub strip-joined :
    (c : ℕ) (k raw : Text) (ps : Params)
    → is_space c ≡ false
    → strip (joined (map auth_param ((c ∷ k, raw) ∷ ps)))
      ≡ joined (map auth_param ((c ∷ k, raw) ∷ ps))
unfolding joined auth_param
strip-joined c k raw [] h =
    let e = append_assoc k (b'=' ∷ quote ∷ raw) (quote ∷ []) in
    ap strip (ap (λ t. c ∷ t) (sym e)) ∙ strip-quoted c _ h ∙ ap (λ t. c ∷ t) e
strip-joined c k raw (q ∷ ps) h =
    let (s, e) = joined-quoted q ps in
    let front : Text = k ++ (b'=' ∷ quote ∷ (raw ++ (quote ∷ []))) in
    let whole =
      ap (λ t. c ∷ front ++ (b',' ∷ b' ' ∷ t)) e
      ∙ ap (λ t. c ∷ t) (sym (append_assoc front (b',' ∷ b' ' ∷ s) (quote ∷ []))) in
    ap strip whole ∙ strip-quoted c _ h ∙ sym whole

pub strip-scheme :
    (c : ℕ) (scheme : Text) (p : Text × Text) (ps : Params)
    → is_space c ≡ false
    → strip (c ∷ scheme ++ joined (map auth_param (p ∷ ps)))
      ≡ c ∷ scheme ++ joined (map auth_param (p ∷ ps))
strip-scheme c scheme p ps h =
    let (s, e) = joined-quoted p ps in
    let whole =
      ap (λ t. c ∷ scheme ++ t) e ∙ ap (λ t. c ∷ t) (sym (append_assoc scheme s (quote ∷ []))) in
    ap strip whole ∙ strip-quoted c _ h ∙ sym whole
