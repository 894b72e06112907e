-- ===== src/Session/Change.antt =====
-- _store.py: `StoreChange`, what an update callback asks of the store, with a result to return.
use pympp.Prelude.{Option, none, some}
use pympp.Session.State.{ChannelState}

-- `StoreChange("set", result, value)`, `StoreChange("delete", result)`, `StoreChange("noop", result)`
pub data StoreChange {ℓ} (R : Type ℓ) : Type ℓ where
  set : R → ChannelState → StoreChange R
  delete noop : R → StoreChange R

module _ {ℓ} {R : Type ℓ} where
  abbrev pub change_result : StoreChange R → R
  change_result (set r value) = r
  change_result (delete r) = r
  change_result (noop r) = r

  -- The channel that the store holds once the change is made.
  abbrev pub apply_change : Option ChannelState → StoreChange R → Option ChannelState
  apply_change current (set r value) = some value
  apply_change current (delete r) = none
  apply_change current (noop r) = current
