-- ===== src/Json.antt =====
-- JSON values as `json.loads` gives them to the program, and the `dict` of an object. A number is a natural
-- number, or a float with its value if that is whole and not negative.
use pympp.Prelude.{
  ℕ, ◌≡◌, refl, String, Bool, true, false, not, ◌&&◌, Option, none, some, List, [], ◌∷◌, arith,
  str_eq, eq_iff, if◌then◌else◌, ◌==◌,
}

mutual
  pub data Json : Type 0 where
    null : Json
    boolean : Bool → Json
    number : ℕ → Json
    float : Option ℕ → Json
    text : String → Json
    array : Items → Json
    object : Fields → Json

  pub data Items : Type 0 where
    nil : Items
    item : Json → Items → Items

  pub data Fields : Type 0 where
    end : Fields
    field : String → Json → Fields → Fields

-- `data.get(key)`, where a key that is missing gives `None`; a present null is `some null`
unfoldable pub get : String → Fields → Option Json
get k end = none
get k (field j v fs) = if str_eq j k then some v else get k fs

-- The value that `data.get(key)` is when it is not `None`: JSON's null is `None` too.
abbrev pub non_null : Option Json → Option Json
non_null none = none
non_null (some null) = none
non_null (some v) = some v

-- `bool(value)`
unfoldable pub truthy : Json → Bool
truthy null = false
truthy (boolean b) = b
truthy (number n) = not (n == 0)
truthy (float none) = true
truthy (float (some n)) = not (n == 0)
truthy (text s) = not (str_eq s "")
truthy (array nil) = false
truthy (array (item v vs)) = true
truthy (object end) = false
truthy (object (field k v fs)) = true

-- The items of a dict that is written with some of its keys only when they have a value. The keys
-- differ, so each that is set is a new last item.
unfoldable pub present : List (String × Option Json) → Fields
present [] = end
present ((k, none) ∷ es) = present es
present ((k, some v) ∷ es) = field k v (present es)

abbrev pub entry : String → List (String × Option Json) → Option Json
entry k [] = none
entry k ((j, o) ∷ es) = if str_eq j k then o else entry k es

abbrev pub has_key : String → List (String × Option Json) → Bool
has_key k [] = false
has_key k ((j, o) ∷ es) = if str_eq j k then true else has_key k es

abbrev pub distinct : List (String × Option Json) → Bool
distinct [] = true
distinct ((j, o) ∷ es) = not (has_key j es) && distinct es

get-present_absent :
    (k : String) (es : List (String × Option Json))
    → has_key k es ≡ false
    → get k (present es) ≡ none
unfolding get present
get-present_absent k [] h = refl
get-present_absent k ((j, none) ∷ es) h = ground (arith, get-present_absent k es)
get-present_absent k ((j, some v) ∷ es) h = ground (arith, get-present_absent k es)

-- Reading such a dict gives each key's entry.
pub get-present :
    (k : String) (es : List (String × Option Json))
    → distinct es ≡ true
    → get k (present es) ≡ entry k es
unfolding get present
get-present k [] d = refl
get-present k ((j, none) ∷ es) d =
    ground (arith, get-present k es, eq_iff j k, get-present_absent j es)
get-present k ((j, some v) ∷ es) d = ground (arith, get-present k es)
