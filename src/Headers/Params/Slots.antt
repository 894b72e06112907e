-- ===== src/Headers/Params/Slots.antt =====
-- The parameters that a format writes: each name once, each value present or not.
use pympp.Prelude.{
  suc, ◌+◌, ◌≤◌, ◌≡◌, ◌∙◌, inl, inr, refl, ap, Bool, true, false, not, ◌&&◌, Option, none, some,
  List, [], ◌∷◌, ◌++◌, arith, ltb, if◌then◌else◌, length, Bool-cases, map, All,
}
use pympp.Prelude.Result.{ok}
use pympp.Headers.{Text, text_eq}
use pympp.Headers.Quoted.{unescape_quoted}
use pympp.Headers.Params.{
  Params, param, read_param, params_from, parse_auth_params, auth_param, joined, present,
  max_authorization_size,
}
use pympp.Headers.Params.Fuel.{params_from-fuel}
use pympp.Headers.Params.RoundTrip.{
  IsItem, IsKey, IsClosed, Fresh, decode_param, params_from-found, params_from-tail_text,
  joined-tail_text, read_param-param, tail_text,
}

abbrev pub Slots : Type 0
Slots = List (Text × Option Text)

abbrev differs : Text → Slots → Bool
differs k [] = true
differs k (s ∷ slots) = not (text_eq s.0 k) && differs k slots

-- Every name stands once.
abbrev pub distinct : Slots → Bool
distinct [] = true
distinct (s ∷ slots) = differs s.0 slots && distinct slots

-- The value that a format writes under a name
abbrev pub slot : Text → Slots → Option Text
slot k [] = none
slot k (s ∷ slots) = if text_eq k s.0 then s.1 else slot k slots

abbrev Absent : Params → Slots → Type 0
Absent acc slots = All (λ s. param s.0 acc ≡ none) slots

param-append :
    (j k v : Text) (acc : Params)
    → param j acc ≡ none
    → text_eq j k ≡ false
    → param j (acc ++ ((k, v) ∷ [])) ≡ none
param-append j k v [] h d = rw d refl
param-append j k v ((i, w) ∷ acc) h d = ground (arith, param-append j k v acc)

Absent-append :
    (k v : Text) (acc : Params) (slots : Slots)
    → differs k slots ≡ true
    → Absent acc slots
    → Absent (acc ++ ((k, v) ∷ [])) slots
Absent-append k v acc [] d h = tt
Absent-append k v acc (s ∷ slots) d h =
    (param-append s.0 k v acc h.0 (ground arith), Absent-append k v acc slots (ground arith) h.1)

Fresh-present :
    (acc : Params) (slots : Slots)
    → distinct slots ≡ true
    → Absent acc slots
    → Fresh acc (present slots)
Fresh-present acc [] d h = tt
Fresh-present acc ((k, none) ∷ slots) d h = Fresh-present acc slots (ground arith) h.1
Fresh-present acc ((k, some raw) ∷ slots) d h = (
  h.0,
  Fresh-present (acc ++ ((k, unescape_quoted raw) ∷ [])) slots (ground arith)
      (Absent-append k (unescape_quoted raw) acc slots (ground arith) h.1),
)

Absent-nil : (slots : Slots) → Absent [] slots
Absent-nil [] = tt
Absent-nil (s ∷ slots) = (refl, Absent-nil slots)

parse_auth_params-joined :
    (ps : Params)
    → All IsItem ps
    → Fresh [] ps
    → length (joined (map auth_param ps)) ≤ max_authorization_size
    → parse_auth_params (joined (map auth_param ps)) ≡ ok (map decode_param ps)
unfolding parse_auth_params params_from joined
parse_auth_params-joined [] items fresh l = refl
parse_auth_params-joined (p ∷ ps) items fresh l =
    let text = joined (map auth_param (p ∷ ps)) in
    let short : ltb max_authorization_size (length text) ≡ false = ground (arith, l) in
    rw (parse_auth_params, short)
      (params_from-fuel (length text) (suc (length text + length ps)) [] text (omega arith)
          (omega arith)
        ∙ params_from-found (length text + length ps) [] text p.0 (unescape_quoted p.1)
            (tail_text ps)
            (ap read_param (joined-tail_text p ps)
              ∙ read_param-param p (tail_text ps) items.0.0 items.0.1)
            refl
        ∙ params_from-tail_text (length text + length ps) (decode_param p ∷ []) ps items.1 fresh.1
            (omega arith))

pub text_eq_sound : (s t : Text) → text_eq s t ≡ true → s ≡ t
text_eq_sound [] [] h = refl
text_eq_sound [] (d ∷ t) h = ground arith
text_eq_sound (c ∷ s) [] h = ground arith
text_eq_sound (c ∷ s) (d ∷ t) h =
    let e : c ≡ d = ground arith in rw e (ap (λ x. d ∷ x) (text_eq_sound s t (ground arith)))

text_eq_comm : (s t : Text) → text_eq s t ≡ text_eq t s
text_eq_comm [] [] = refl
text_eq_comm [] (d ∷ t) = refl
text_eq_comm (c ∷ s) [] = refl
text_eq_comm (c ∷ s) (d ∷ t) = ground (arith, text_eq_comm s t)

abbrev pub option_map : (Text → Text) → Option Text → Option Text
option_map f none = none
option_map f (some t) = some (f t)

param-differs :
    (k : Text) (slots : Slots)
    → differs k slots ≡ true
    → param k (map decode_param (present slots)) ≡ none
param-differs k [] d = refl
param-differs k ((j, none) ∷ slots) d = param-differs k slots (ground arith)
param-differs k ((j, some raw) ∷ slots) d =
    let other : text_eq k j ≡ false = text_eq_comm k j ∙ ground arith in
    rw other (param-differs k slots (ground arith))

pub param-slot :
    (k : Text) (slots : Slots)
    → distinct slots ≡ true
    → param k (map decode_param (present slots)) ≡ option_map unescape_quoted (slot k slots)
param-slot k [] d = refl
param-slot k ((j, none) ∷ slots) d = elim (Bool-cases (text_eq k j)) [
  | inl h ↦ rw (h, text_eq_sound k j h) (param-differs j slots (ground arith))
  | inr h ↦ rw h (param-slot k slots (ground arith))
]
param-slot k ((j, some raw) ∷ slots) d = elim (Bool-cases (text_eq k j)) [
  | inl h ↦ rw h refl
  | inr h ↦ rw h (param-slot k slots (ground arith))
]

abbrev pub IsSlot : Text × Option Text → Type 0
IsSlot (k, none) = Unit
IsSlot (k, some raw) = IsKey k × IsClosed raw

IsItem-present : (slots : Slots) → All IsSlot slots → All IsItem (present slots)
IsItem-present [] h = tt
IsItem-present ((k, none) ∷ slots) h = IsItem-present slots h.1
IsItem-present ((k, some raw) ∷ slots) h = (h.0, IsItem-present slots h.1)

pub parse_auth_params-present :
    (slots : Slots)
    → All IsSlot slots
    → distinct slots ≡ true
    → length (joined (map auth_param (present slots))) ≤ max_authorization_size
    → parse_auth_params (joined (map auth_param (present slots)))
      ≡ ok (map decode_param (present slots))
parse_auth_params-present slots h d l =
    parse_auth_params-joined (present slots) (IsItem-present slots h)
      (Fresh-present [] slots d (Absent-nil slots)) l
