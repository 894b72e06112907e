-- ===== src/Headers/Params/RoundTrip.antt =====
-- Parsing the parameters that were formatted.
use pympp.Prelude.{
  ℕ, zero, suc, ◌≤◌, ◌≡◌, ◌∙◌, refl, sym, ap, Bool, true, false, ◌&&◌, none, [], ◌∷◌, ◌++◌, arith,
  ◌==◌, length, map, All,
}
use mathlib.Core.List.{append-nil, append_assoc}
use pympp.Prelude.Result.{ok}
use pympp.Headers.{Text, is_space, lstrip}
use pympp.Headers.Quoted.{quote, unescape_quoted}
use pympp.Headers.Params.{
  Params, param, is_key_char, skip_separators, key_of, after_key, lower, lower_char, quoted_from,
  read_quoted_auth_param, read_value, found, unless, read_assigned, read_keyed, read_param,
  params_from, auth_param, joined,
}

-- A character that a parameter's name keeps as it is.
abbrev pub IsLowerKeyChar : ℕ → Type 0
IsLowerKeyChar c = (is_key_char c ≡ true) × (lower_char c ≡ c)

-- The quoted string `raw` ends at its closing quote.
abbrev pub IsClosed : Text → Type 0
IsClosed raw = (t : Text) → quoted_from false (raw ++ (quote ∷ t)) ≡ ok (raw, t)

lower-key : (k : Text) → All IsLowerKeyChar k → lower k ≡ k
lower-key [] h = refl
lower-key (c ∷ k) h = rw (h.0.1, lower-key k h.1) refl

key_of-key : (k t : Text) → All IsLowerKeyChar k → key_of (k ++ (b'=' ∷ t)) ≡ k
unfolding key_of
key_of-key [] t h = refl
key_of-key (c ∷ k) t h = rw (h.0.0) (ap (λ x. c ∷ x) (key_of-key k t h.1))

after_key-key : (k t : Text) → All IsLowerKeyChar k → after_key (k ++ (b'=' ∷ t)) ≡ b'=' ∷ t
unfolding after_key
after_key-key [] t h = refl
after_key-key (c ∷ k) t h = rw (h.0.0) (after_key-key k t h.1)

skip_separators-key : (c : ℕ) (t : Text) → is_key_char c ≡ true → skip_separators (c ∷ t) ≡ c ∷ t
unfolding skip_separators is_space
skip_separators-key c t h = ground arith

-- A quoted value.
read_value-closed :
    (raw t : Text)
    → IsClosed raw
    → read_value (quote ∷ (raw ++ (quote ∷ t))) ≡ ok (unescape_quoted raw, t)
unfolding read_value read_quoted_auth_param
read_value-closed raw t h = rw (read_value, read_quoted_auth_param, h t) refl

read_keyed-key_of :
    (s : Text) (c : ℕ) (k : Text)
    → key_of s ≡ c ∷ k
    → read_keyed s ≡ read_assigned (lower (c ∷ k)) (lstrip (after_key s))
unfolding read_keyed
read_keyed-key_of s c k e = rw (read_keyed, e) refl

read_assigned-closed :
    (k raw t : Text)
    → IsClosed raw
    → read_assigned k (lstrip (b'=' ∷ quote ∷ (raw ++ (quote ∷ t))))
      ≡ found k (unescape_quoted raw) t
unfolding read_assigned lstrip is_space
read_assigned-closed k raw t closed = rw (read_value-closed raw t closed) refl

read_keyed-auth_param :
    (c : ℕ) (k raw t : Text)
    → All IsLowerKeyChar (c ∷ k)
    → IsClosed raw
    → read_keyed ((c ∷ k) ++ (b'=' ∷ quote ∷ (raw ++ (quote ∷ t))))
      ≡ found (c ∷ k) (unescape_quoted raw) t
read_keyed-auth_param c k raw t h closed =
    read_keyed-key_of _ c k (key_of-key (c ∷ k) _ h)
    ∙ rw (after_key-key (c ∷ k) (quote ∷ (raw ++ (quote ∷ t))) h, lower-key (c ∷ k) h)
        (read_assigned-closed (c ∷ k) raw t closed)

-- A name that the parser finds again.
abbrev pub IsKey : Text → Type 0
IsKey [] = ⊥
IsKey (c ∷ k) = All IsLowerKeyChar (c ∷ k)

abbrev pub is_lower_key : Text → Bool
is_lower_key [] = true
is_lower_key (c ∷ k) = (is_key_char c && lower_char c == c) && is_lower_key k

All-is_lower_key : (k : Text) → is_lower_key k ≡ true → All IsLowerKeyChar k
All-is_lower_key [] h = tt
All-is_lower_key (c ∷ k) h = ((ground arith, ground arith), All-is_lower_key k (ground arith))

pub IsKey-is_lower_key : (c : ℕ) (k : Text) → is_lower_key (c ∷ k) ≡ true → IsKey (c ∷ k)
IsKey-is_lower_key c k h = All-is_lower_key (c ∷ k) h

read_param-auth_param :
    (k raw t : Text)
    → IsKey k
    → IsClosed raw
    → read_param (k ++ (b'=' ∷ quote ∷ (raw ++ (quote ∷ t)))) ≡ found k (unescape_quoted raw) t
unfolding read_param
read_param-auth_param [] raw t h closed = elim h [ ]
read_param-auth_param (c ∷ k) raw t h closed =
    rw (read_param, skip_separators-key c (k ++ (b'=' ∷ quote ∷ (raw ++ (quote ∷ t)))) h.0.0)
      (read_keyed-auth_param c k raw t h closed)

pub read_param-param :
    (p : Text × Text) (t : Text)
    → IsKey p.0
    → IsClosed p.1
    → read_param (auth_param p ++ t) ≡ found p.0 (unescape_quoted p.1) t
unfolding auth_param
read_param-param (k, raw) t h closed =
    ap read_param
      (append_assoc k _ t ∙ ap (λ x. k ++ (b'=' ∷ quote ∷ x)) (append_assoc raw (quote ∷ []) t))
    ∙ read_param-auth_param k raw t h closed

-- A parameter as the parser returns it
abbrev pub decode_param : Text × Text → Text × Text
decode_param p = (p.0, unescape_quoted p.1)

abbrev pub IsItem : Text × Text → Type 0
IsItem p = IsKey p.0 × IsClosed p.1

-- No name stands among the parameters read before it.
abbrev pub Fresh : Params → Params → Type 0
Fresh acc [] = Unit
Fresh acc (p ∷ ps) = (param p.0 acc ≡ none) × Fresh (acc ++ (decode_param p ∷ [])) ps

-- The text of the further parameters
unfoldable pub tail_text : Params → Text
tail_text [] = []
tail_text (p ∷ ps) = b',' ∷ b' ' ∷ (auth_param p ++ tail_text ps)

params_from-nil : (f : ℕ) (acc : Params) → params_from f acc [] ≡ ok acc
unfolding params_from read_param skip_separators
params_from-nil zero acc = refl
params_from-nil (suc f) acc = refl

-- A round that finds a new name continues behind it.
pub params_from-found :
    (f : ℕ) (acc : Params) (s k v rest : Text)
    → read_param s ≡ found k v rest
    → param k acc ≡ none
    → params_from (suc f) acc s ≡ params_from f (acc ++ ((k, v) ∷ [])) rest
unfolding params_from
params_from-found f acc s k v rest e fresh =
    rw (params_from, e) (ap (λ o. unless o (params_from f (acc ++ ((k, v) ∷ [])) rest)) fresh)

read_param-separated : (s : Text) → read_param (b',' ∷ b' ' ∷ s) ≡ read_param s
unfolding read_param skip_separators is_space
read_param-separated s = refl

pub params_from-tail_text :
    (f : ℕ) (acc ps : Params)
    → All IsItem ps
    → Fresh acc ps
    → length ps ≤ f
    → params_from f acc (tail_text ps) ≡ ok (acc ++ map decode_param ps)
unfolding tail_text
params_from-tail_text f acc [] items fresh l = params_from-nil f acc ∙ ap ok (sym (append-nil acc))
params_from-tail_text zero acc (p ∷ ps) items fresh l = ground arith
params_from-tail_text (suc f) acc (p ∷ ps) items fresh l =
    params_from-found f acc _ p.0 (unescape_quoted p.1) (tail_text ps)
      (read_param-separated (auth_param p ++ tail_text ps)
        ∙ read_param-param p (tail_text ps) items.0.0 items.0.1)
      fresh.0
    ∙ params_from-tail_text f (acc ++ (decode_param p ∷ [])) ps items.1 fresh.1 (omega (arith, l))
    ∙ ap ok (append_assoc acc (decode_param p ∷ []) (map decode_param ps))

pub joined-tail_text :
    (p : Text × Text) (ps : Params)
    → joined (map auth_param (p ∷ ps)) ≡ auth_param p ++ tail_text ps
unfolding joined tail_text
joined-tail_text p [] = sym (append-nil (auth_param p))
joined-tail_text p (q ∷ ps) = ap (λ x. auth_param p ++ (b',' ∷ b' ' ∷ x)) (joined-tail_text q ps)
