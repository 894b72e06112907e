-- ===== src/Session/Cas.antt =====
-- _store.py: `StoreChannelStore` over a store with compare-and-set. Other processes act on the store
-- before the read of a round and between its read and its compare-and-set; each round of the loop is
-- given what they do.
pub mod Linear
use pympp.Prelude.{
  ℕ, ◌≡◌, ◌≢◌, refl, ◌∙◌, sym, ap, ◌⊎◌, inl, inr, String, Bool, true, false, not, ◌&&◌, Option,
  none, some, List, [], ◌∷◌, arith, eq_iff, str_eq, if◌then◌else◌, Bool-cases, Option-cases,
}
use pympp.Prelude.Result.{Result, ok, raise}
use pympp.Session.State.{ChannelState}
use pympp.Session.Change.{StoreChange, set, delete, noop, change_result, apply_change}

-- A store shared between processes, as `CompareAndSetStore` documents it: `read` and `cas` are
-- atomic, and `cas` writes only while the current value is the expected one.
pub record CasStore : Type 1 where
  pub World : Type 0
  pub Value : Type 0
  pub read : World → String → Option Value
  pub cas : World → String → Option Value → Option Value → World × Bool
  pub cas_written :
      (w : World) (k : String) (expected value : Option Value)
      → (cas w k expected value).1 ≡ true
      → (read w k ≡ expected)
        × ((j : String)
            → read (cas w k expected value).0 j ≡ (if str_eq k j then value else read w j))
  pub cas_refused :
      (w : World) (k : String) (expected value : Option Value)
      → (cas w k expected value).1 ≡ false
      → (read w k ≢ expected) × ((j : String) → read (cas w k expected value).0 j ≡ read w j)

-- What other processes do in a round: before its read, and before its swap.
pub record Turn (W : Type 0) : Type 0 where
  pub before_read : W → W
  pub before_swap : W → W

-- How a round ends: with a result, an exception, or a compare-and-set that was refused.
pub data Round (W E R : Type 0) : Type 0 where
  returns : W → R → Round W E R
  raises : W → E → Round W E R
  retries : W → Round W E R

-- `_normalize_state`
unfoldable pub normalize_state : String → ChannelState → ChannelState
normalize_state channel_id state =
    if str_eq state.channel_id channel_id then state else record state { channel_id = channel_id }

module _ (store : CasStore) where
  open store use {World, Value, read, cas, cas_written, cas_refused}

  -- How channels are stored: `encode_channel_state` and `decode_channel_state`.
  pub record Codec (E : Type 0) : Type 0 where
    pub encode : ChannelState → Value
    pub decode : Value → Result E ChannelState

  module _ {E : Type 0} (codec : Codec E) (key : String) where
    open codec use {encode, decode}

    -- `_decode_stored`
    unfoldable pub decode_stored : Option Value → Result E (Option ChannelState)
    unfolding normalize_state
    decode_stored none = ok none
    decode_stored (some raw) = elim (decode raw) [
      | ok c ↦ ok (some (normalize_state key c))
      | raise e ↦ raise e
    ]

    -- What a change writes: the encoding of a normalized state, or nothing.
    unfoldable pub written_value : ChannelState → Value
    unfolding normalize_state
    written_value c = encode (normalize_state key c)

    abbrev pub swap_round : {R : Type 0} → World → Option Value → Option Value → R → Round World E R
    swap_round w raw value r =
        let (w', written) = cas w key raw value in if written then returns w' r else retries w'

    -- A round after `fn` has answered. `others` is what other processes do before the swap.
    unfoldable pub change_round :
        {R : Type 0} → World → (World → World) → Option Value → StoreChange R → Round World E R
    unfolding written_value
    change_round w others raw (noop r) = returns w r
    change_round w others raw (set r c) = swap_round (others w) raw (some (written_value c)) r
    change_round w others none (delete r) = returns w r
    change_round w others (some v) (delete r) = swap_round (others w) (some v) none r

    module _ {R : Type 0} (fn : Option ChannelState → Result E (StoreChange R)) where
      unfoldable pub round : World → (World → World) → Round World E R
      unfolding decode_stored change_round
      round w others = elim (decode_stored (read w key)) [
        | raise e ↦ raises w e
        | ok current ↦ elim (fn current) [
          | raise e ↦ raises w e
          | ok change ↦ change_round w others (read w key) change
        ]
      ]

      -- `_update_cas` with as many rounds as there are entries: `retries` at the end means that each
      -- was refused.
      unfoldable pub update_cas : World → List (Turn World) → Round World E R
      update_cas w [] = retries w
      update_cas w (turn ∷ rest) = elim (round (turn.before_read w) turn.before_swap) [
        | returns w' r ↦ returns w' r
        | raises w' e ↦ raises w' e
        | retries w' ↦ update_cas w' rest
      ]
