-- ===== src/Store/Claims.antt =====
-- Replay protection: a claim that `put_if_absent` made is never forgotten unless it is deleted.
use pympp.Prelude.{
  ℕ, ◌≡◌, ◌≢◌, String, true, false, none, some, List, [], ◌∷◌, arith, eq_iff, is_some,
}
use pympp.Prelude.Dict.{lookup, lookup-insert, lookup-insert_self, lookup-remove}
use pympp.Prelude.Eq.{Eq}
use pympp.Prelude.Result.{ok}
use pympp.Store.{MemoryStore, prune_expired, put_if_absent}
use pympp.Store.View.{IsValid, prune_undated, prune-IsValid}
use pympp.Store.Calls.{
  Call, gets, puts, deletes, claims, claims_until, swaps, perform, run, perform-IsValid,
  run-IsValid, claim-IsValid,
}

module _ {ℓ} {V : Type ℓ} where
  -- The key is there with no deadline.
  abbrev pub IsClaimed : String → MemoryStore V → Type 0
  IsClaimed k s = (is_some (lookup k s.items) ≡ true) × (lookup k s.expiry_deadlines ≡ none)

  -- The calls that do not delete a key.
  abbrev pub Spares : String → Call V → Type 0
  Spares k (gets now j) = Unit
  Spares k (puts now j v) = Unit
  Spares k (deletes j) = j ≢ k
  Spares k (claims now checked_at j v) = Unit
  Spares k (claims_until validated_at now checked_at j v d) = Unit
  Spares k (swaps now checked_at j expected none) = j ≢ k
  Spares k (swaps now checked_at j expected (some v)) = Unit

  abbrev pub AllSpare : String → List (Call V) → Type 0
  AllSpare k [] = Unit
  AllSpare k (c ∷ cs) = Spares k c × AllSpare k cs

  prune-IsClaimed :
      (k : String) (now : ℕ) (s : MemoryStore V)
      → IsValid s
      → IsClaimed k s
      → IsClaimed k (prune_expired now s)
  prune-IsClaimed k now s i h = let p = prune_undated now s k i h.1 in (rw p.0 h.0, p.1)

module _ {ℓ} {V : Type ℓ} ⦃e : Eq V⦄ where
  perform-IsClaimed :
      (k : String) (s : MemoryStore V) (c : Call V)
      → IsValid s
      → Spares k c
      → IsClaimed k s
      → IsClaimed k (perform s c)
  unfolding perform
  perform-IsClaimed k s (gets now j) i f h = prune-IsClaimed k now s i h
  perform-IsClaimed k s (puts now j v) i f h =
      let s' = prune_expired now s in
      let p = prune-IsClaimed k now s i h in
      ground (arith, lookup-insert j k v s'.items, lookup-remove j k s'.expiry_deadlines)
  perform-IsClaimed k s (deletes j) i f h =
      ground (arith, lookup-remove j k s.items, lookup-remove j k s.expiry_deadlines, eq_iff j k)
  perform-IsClaimed k s (claims now checked_at j v) i f h =
      let s' = prune_expired now s in
      let p = prune-IsClaimed k now s i h in
      let checked = prune_expired checked_at s' in
      let q = prune-IsClaimed k checked_at s' (prune-IsValid now s i) p in
      ground (arith, lookup-insert j k v checked.items)
  perform-IsClaimed k s (claims_until validated_at now checked_at j v d) i f h =
      let s' = prune_expired now s in
      let p = prune-IsClaimed k now s i h in
      let checked = prune_expired checked_at s' in
      let q = prune-IsClaimed k checked_at s' (prune-IsValid now s i) p in
      ground (
        arith,
        lookup-insert j k v checked.items,
        lookup-insert j k d checked.expiry_deadlines,
        eq_iff j k,
      )
  perform-IsClaimed k s (swaps now checked_at j expected none) i f h =
      let s' = prune_expired now s in
      let p = prune-IsClaimed k now s i h in
      ground (arith, lookup-remove j k s'.items, lookup-remove j k s'.expiry_deadlines, eq_iff j k)
  perform-IsClaimed k s (swaps now checked_at j expected (some v)) i f h =
      let s' = prune_expired now s in
      let p = prune-IsClaimed k now s i h in
      let checked = prune_expired checked_at s' in
      let q = prune-IsClaimed k checked_at s' (prune-IsValid now s i) p in
      ground (arith, lookup-insert j k v checked.items)

  run-IsClaimed :
      (k : String) (s : MemoryStore V) (cs : List (Call V))
      → IsValid s
      → AllSpare k cs
      → IsClaimed k s
      → IsClaimed k (run s cs)
  unfolding run
  run-IsClaimed k s [] i f h = h
  run-IsClaimed k s (c ∷ cs) i f h =
      run-IsClaimed k (perform s c) cs (perform-IsValid s c i) f.1 (perform-IsClaimed k s c i f.0 h)

  claimed :
      (now checked_at : ℕ) (k : String) (v : V) (s : MemoryStore V)
      → IsValid s
      → (put_if_absent now checked_at k v s).0 ≡ ok true
      → IsClaimed k (put_if_absent now checked_at k v s).1
  unfolding put_if_absent
  claimed now checked_at k v s i h =
      let s' = prune_expired now s in
      let valid = prune-IsValid now s i in
      let undated : lookup k s'.expiry_deadlines ≡ none = ground (arith, valid.keyed k) in
      let kept = prune_undated checked_at s' k valid undated in
      ground (arith, lookup-insert_self k v (prune_expired checked_at s').items)

  refused :
      (now checked_at : ℕ) (k : String) (v : V) (s : MemoryStore V)
      → IsValid s
      → IsClaimed k s
      → (put_if_absent now checked_at k v s).0 ≡ ok false
  unfolding put_if_absent
  refused now checked_at k v s i h = let p = prune-IsClaimed k now s i h in ground arith

  -- After a `put_if_absent` that wrote a key, and any calls that do not delete the key, at whatever
  -- times, a `put_if_absent` of the key returns false: a claim does not expire and is not evicted.
  pub claim_refuses_replay :
      (now checked_at later later_checked : ℕ) (k : String) (v w : V) (s : MemoryStore V)
      (cs : List (Call V))
      → IsValid s
      → (put_if_absent now checked_at k v s).0 ≡ ok true
      → AllSpare k cs
      → (put_if_absent later later_checked k w (run (put_if_absent now checked_at k v s).1 cs)).0
        ≡ ok false
  claim_refuses_replay now checked_at later later_checked k v w s cs i h f =
      let valid = claim-IsValid now checked_at k v s i in
      refused later later_checked k w _
        (run-IsValid (put_if_absent now checked_at k v s).1 cs valid)
        (run-IsClaimed k (put_if_absent now checked_at k v s).1 cs valid f
          (claimed now checked_at k v s i h))
