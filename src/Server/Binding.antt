-- ===== src/Server/Binding.antt =====
-- src/mpp/__init__.py: what the identifier of a challenge is computed from determines its parameters.
use pympp.Prelude.{
  ℕ, ◌≡◌, ◌∙◌, refl, sym, ap, arith, Bool, true, false, not, Option, none, some, [], ◌∷◌, ◌++◌,
  ◌==◌,
}
use pympp.Headers.{Text}
use pympp.Headers.Grammar.{every}
use pympp.Headers.Challenge.{filled}
use pympp.Server.Issue.{or_empty, piped, last_slots, hmac_parts}

abbrev pub no_pipe : Text → Bool
no_pipe s = every (λ c. not (c == b'|')) s

differ : true ≡ false → ⊥
differ h = ground arith

cons_eq : (c d : ℕ) (s t : Text) → ◌≡◌ {A = Text} (c ∷ s) (d ∷ t) → (c ≡ d) × (s ≡ t)
cons_eq c d s t h = (cc h, cc h)

-- A text with a pipe in it is none without.
with_pipe : (s t : Text) → no_pipe (s ++ (b'|' ∷ t)) ≡ false
with_pipe [] t = refl
with_pipe (c ∷ s) t = ground (arith, with_pipe s t)

-- The first pipe ends the same text.
split_first :
    (a b x y : Text)
    → no_pipe a ≡ true
    → no_pipe b ≡ true
    → a ++ (b'|' ∷ x) ≡ b ++ (b'|' ∷ y)
    → (a ≡ b) × (x ≡ y)
split_first [] [] x y ha hb h = (refl, (cons_eq _ _ _ _ h).1)
split_first [] (d ∷ b) x y ha hb h = ground (arith, hb, (cons_eq _ _ _ _ h).0)
split_first (c ∷ a) [] x y ha hb h = ground (arith, ha, (cons_eq _ _ _ _ h).0)
split_first (c ∷ a) (d ∷ b) x y ha hb h =
    let (e, rest) = cons_eq _ _ _ _ h in
    let (same, tail) = split_first a b x y (ground (arith, ha)) (ground (arith, hb)) rest in
    (cc (e, same), tail)

-- The last pipe starts the same text.
split_last :
    (a b x y : Text)
    → no_pipe x ≡ true
    → no_pipe y ≡ true
    → a ++ (b'|' ∷ x) ≡ b ++ (b'|' ∷ y)
    → (a ≡ b) × (x ≡ y)
split_last [] [] x y hx hy h = (refl, (cons_eq _ _ _ _ h).1)
split_last [] (d ∷ b) x y hx hy h =
    let e : x ≡ b ++ (b'|' ∷ y) = (cons_eq _ _ _ _ h).1 in
    absurd (differ (sym hx ∙ ap no_pipe e ∙ with_pipe b y))
split_last (c ∷ a) [] x y hx hy h =
    let e : a ++ (b'|' ∷ x) ≡ y = (cons_eq _ _ _ _ h).1 in
    absurd (differ (sym hy ∙ ap no_pipe (sym e) ∙ with_pipe a x))
split_last (c ∷ a) (d ∷ b) x y hx hy h =
    let (e, rest) = cons_eq _ _ _ _ h in
    let (same, tail) = split_last a b x y hx hy rest in (cc (e, same), tail)

-- The parameters that a challenge's identifier is computed from
pub record Parameters : Type 0 where
  pub realm : Text
  pub method : Text
  pub intent : Text
  pub request_b64 : Text
  pub expires : Option Text
  pub digest : Option Text
  pub header : Option Text
  pub opaque_b64 : Text

abbrev pub hmac_input : Parameters → Text
hmac_input p =
    piped
      (hmac_parts p.realm p.method p.intent p.request_b64 p.expires p.digest p.header p.opaque_b64)

-- Every parameter but the header is without a pipe.
abbrev pub IsPipeless : Parameters → Type 0
IsPipeless p =
    (no_pipe p.realm ≡ true)
    × (no_pipe p.method ≡ true)
    × (no_pipe p.intent ≡ true)
    × (no_pipe p.request_b64 ≡ true)
    × (no_pipe (or_empty p.expires) ≡ true)
    × (no_pipe (or_empty p.digest) ≡ true)
    × (no_pipe p.opaque_b64 ≡ true)

last_slots_eq :
    (d e : Text) (h k : Option Text) (o p : Text)
    → no_pipe d ≡ true
    → no_pipe e ≡ true
    → no_pipe o ≡ true
    → no_pipe p ≡ true
    → piped (d ∷ last_slots h o) ≡ piped (e ∷ last_slots k p)
    → (d ≡ e) × (h ≡ k) × (o ≡ p)
unfolding piped
last_slots_eq d e none none o p hd he ho hp eq =
    let (same, rest) = split_first d e o p hd he eq in (same, refl, rest)
last_slots_eq d e none (some k) o p hd he ho hp eq =
    let (same, rest) = split_first d e o (k ++ (b'|' ∷ p)) hd he eq in
    absurd (differ (sym ho ∙ ap no_pipe rest ∙ with_pipe k p))
last_slots_eq d e (some h) none o p hd he ho hp eq =
    let (same, rest) = split_first d e (h ++ (b'|' ∷ o)) p hd he eq in
    absurd (differ (sym hp ∙ ap no_pipe (sym rest) ∙ with_pipe h o))
last_slots_eq d e (some h) (some k) o p hd he ho hp eq =
    let (same, rest) = split_first d e (h ++ (b'|' ∷ o)) (k ++ (b'|' ∷ p)) hd he eq in
    let (header, opaque) = split_last h k o p ho hp rest in (same, ap some header, opaque)

-- Two lists of parameters, none with a pipe in another field than the header, have the same HMAC input only when they
-- agree in every field, where a missing expiry or digest is the empty text and an empty header is a missing one.
pub hmac_input_injective :
    (p q : Parameters)
    → IsPipeless p
    → IsPipeless q
    → hmac_input p ≡ hmac_input q
    → (p.realm ≡ q.realm)
      × (p.method ≡ q.method)
      × (p.intent ≡ q.intent)
      × (p.request_b64 ≡ q.request_b64)
      × (or_empty p.expires ≡ or_empty q.expires)
      × (or_empty p.digest ≡ or_empty q.digest)
      × (filled p.header ≡ filled q.header)
      × (p.opaque_b64 ≡ q.opaque_b64)
unfolding piped hmac_parts
hmac_input_injective p q hp hq eq =
    let (realm, h1) = split_first p.realm q.realm _ _ hp.0 hq.0 eq in
    let (method, h2) = split_first p.method q.method _ _ hp.1 hq.1 h1 in
    let (intent, h3) = split_first p.intent q.intent _ _ hp.2 hq.2 h2 in
    let (request, h4) = split_first p.request_b64 q.request_b64 _ _ hp.3 hq.3 h3 in
    let (expires, h5) = split_first (or_empty p.expires) (or_empty q.expires) _ _ hp.4 hq.4 h4 in
    let (digest, header, opaque) =
      last_slots_eq (or_empty p.digest) (or_empty q.digest) (filled p.header) (filled q.header)
        p.opaque_b64 q.opaque_b64 hp.5 hq.5 hp.6 hq.6 h5 in
    (realm, method, intent, request, expires, digest, header, opaque)
