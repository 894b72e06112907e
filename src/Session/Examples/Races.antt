-- ===== src/Session/Examples/Races.antt =====
-- The compare-and-set loop over a store of one slot, with another process in between.
use pympp.Prelude.{
  ℕ, ◌+◌, Bool-cases, inl, inr, ◌≡◌, ◌≢◌, refl, String, Bool, true, false, Option, none, some, List,
  [], ◌∷◌, arith, if◌then◌else◌, str_eq,
}
use pympp.Prelude.Dict.{Dict, lookup, insert, remove, lookup-insert, lookup-remove}
use pympp.Prelude.Eq.{same, same_iff, nat_eq}
use pympp.Prelude.Result.{Result, ok}
use pympp.Session.State.{ChannelState, SessionError}
use pympp.Session.Change.{StoreChange, set}
use pympp.Session.Cas.{CasStore, Codec, Turn, Round, returns, retries, update_cas}
use pympp.Session.Cas.Linear.{Seen, Atomic, Contended, update_cas-Atomic, update_cas-Contended}
use pympp.Session.Examples.{channel}

-- A dict whose values stand for what is spent.
abbrev dict_put : String → Option ℕ → Dict ℕ → Dict ℕ
dict_put k none d = remove k d
dict_put k (some v) d = insert k v d

dict_put_lem :
    (k j : String) (value : Option ℕ) (d : Dict ℕ)
    → lookup j (dict_put k value d) ≡ (if str_eq k j then value else lookup j d)
dict_put_lem k j none d = lookup-remove k j d
dict_put_lem k j (some v) d = lookup-insert k j v d

abbrev dict_cas : Dict ℕ → String → Option ℕ → Option ℕ → Dict ℕ × Bool
dict_cas d k expected value =
    if same (lookup k d) expected then (dict_put k value d, true) else (d, false)

dict_cas_written :
    (d : Dict ℕ) (k : String) (expected value : Option ℕ)
    → (dict_cas d k expected value).1 ≡ true
    → (lookup k d ≡ expected)
      × ((j : String)
          → lookup j (dict_cas d k expected value).0 ≡ (if str_eq k j then value else lookup j d))
dict_cas_written d k expected value e = elim (Bool-cases (same (lookup k d) expected)) [
  | inl agrees ↦
      rw agrees ((same_iff (lookup k d) expected).0 agrees, λ j. dict_put_lem k j value d)
  | inr differs ↦ absurd (ground (arith, differs))
]

dict_cas_refused :
    (d : Dict ℕ) (k : String) (expected value : Option ℕ)
    → (dict_cas d k expected value).1 ≡ false
    → (lookup k d ≢ expected)
      × ((j : String) → lookup j (dict_cas d k expected value).0 ≡ lookup j d)
dict_cas_refused d k expected value e = elim (Bool-cases (same (lookup k d) expected)) [
  | inl agrees ↦ absurd (ground (arith, agrees))
  | inr differs ↦
      rw differs
        (λ q. absurd (ground (arith, differs, (same_iff (lookup k d) expected).1 q)), λ j. refl)
]

abbrev dict_store : CasStore
dict_store = record {
  World = Dict ℕ;
  Value = ℕ;
  read = λ d k. lookup k d;
  cas = dict_cas;
  cas_written = dict_cas_written;
  cas_refused = dict_cas_refused;
}

abbrev dict_codec : Codec dict_store SessionError
dict_codec = record { encode = λ c. c.spent; decode = λ n. ok (record channel { spent = n }) }

-- Spends 5 of the channel.
abbrev spend : Option ChannelState → Result SessionError (StoreChange ℕ)
spend none = ok (set 0 (record channel { spent = 5 }))
spend (some c) = ok (set c.spent (record c { spent = c.spent + 5 }))

abbrev held : Dict ℕ
held = ("ch", 20) ∷ []

-- Another process spends 7 before the first swap and 3 before the second read.
abbrev races : List (Turn (Dict ℕ))
races =
    record { before_read = λ d. d; before_swap = λ d. insert "ch" 27 d }
    ∷ record { before_read = λ d. insert "ch" 30 d; before_swap = λ d. d }
    ∷ []

abbrev disturbed : List (Turn (Dict ℕ))
disturbed = record { before_read = λ d. d; before_swap = λ d. insert "ch" 27 d } ∷ []

update_cas-Atomic_example :
    (t : Dict ℕ) × (Seen dict_store dict_codec "ch" spend held races t)
    × (Atomic dict_store dict_codec "ch" spend t (("ch", 35) ∷ []) 30)
unfolding update_cas pympp.Session.Cas.round lookup insert
update_cas-Atomic_example =
    update_cas-Atomic dict_store dict_codec "ch" spend held (("ch", 35) ∷ []) races 30 refl

update_cas-Contended_example : Contended dict_store dict_codec "ch" spend held disturbed
unfolding update_cas pympp.Session.Cas.round lookup insert
update_cas-Contended_example =
    update_cas-Contended dict_store dict_codec "ch" spend held (("ch", 27) ∷ []) disturbed refl
