-- ===== src/Consul/Refine/Cas.antt =====
-- consul_client.hpp: `cas`, over a service that keeps its contract.
use liboffkv.Base.{
  ℕ, ◌<◌, ◌≡◌, ◌≢◌, refl, ap, true, false, ◌==◌, ==_iff, Bool-cases, ◌⊎◌, inl, inr, Bytes, List, [],
  ◌∷◌, ◌++◌, Option, none, some, arith, All,
}
use liboffkv.Errors.{Outcome, ok, throw, no_entry, entry_exists}
use liboffkv.Key.Segments.{IsSegment, of_segments}
use liboffkv.Client.{Int64, CasResult}
use liboffkv.Client.IfNew.{if_there, Creates-CreatesIfNew}
use liboffkv.Client.Spec.{IsServiceFailure, Swaps, Compares}
use liboffkv.Consul.Service.{
  TxnOperation, KeyValue, Reply, done, fail, aborted, bad_status, other_error, Ppconsul,
}
use liboffkv.Consul.Naming.Laws.{name_of}
use liboffkv.Consul.Commit.{back_index}
use liboffkv.Consul.Replies.{compared, rethrow}
use liboffkv.Consul.Session.{State}
use liboffkv.Consul.Methods.{create, cas, compare_and_set}
use liboffkv.Consul.Contract.{Contract, Agrees, run, all_done, failed_at}
use liboffkv.Consul.Contract.Store.{lookup, upsert}
use liboffkv.Consul.Refine.Tree.{
  tree_of, IsKey, shown, shown-none_iff, Written-upsert, Unchanged-same, IsKey-snoc,
}
use liboffkv.Consul.Refine.Calls.{named}
use liboffkv.Consul.Refine.Create.{create-Creates}

abbrev cas_txn : Bytes → Bytes → ℕ → List TxnOperation
cas_txn key value version = TxnOperation.get key ∷ TxnOperation.compare_set key version value ∷ []

module _ (key value : Bytes) (version : ℕ) (before after : List KeyValue) where
  abbrev StoreSwaps : Outcome CasResult → Type 0
  StoreSwaps (ok r) =
      ((kv : KeyValue) × (lookup key before ≡ some kv)
        × (kv.modify_index ≡ version)
        × (0 < r.version)
        × (after
            ≡ upsert (record { key = key; value = value; modify_index = r.version; session = [] })
                before))
      ⊎ ((kv : KeyValue) × (lookup key before ≡ some kv)
          × (kv.modify_index ≢ version)
          × (r.version ≡ 0)
          × (after ≡ before))
  StoreSwaps (throw no_entry) = (lookup key before ≡ none) × (after ≡ before)
  StoreSwaps (throw e) = IsServiceFailure e

compared_done :
    (key value : Bytes) (version : ℕ) (before after results : List KeyValue) (n : ℕ)
    → 0 < n
    → version ≢ 0
    → (o : Option KeyValue) → lookup key before ≡ o
    → run n 0 (cas_txn key value version) before ≡ all_done after results
    → StoreSwaps key value version before after (compared (done results))
unfolding run back_index compared
compared_done key value version before after results n pos nz none e h =
    absurd (ground (arith, e, h))
compared_done key value version before after results n pos nz (some kv) e h =
    elim (Bool-cases (kv.modify_index == version)) [
      | inr other ↦ absurd (ground (arith, e, h, other, nz))
      | inl same ↦
          let new : KeyValue = record { key = key; value = []; modify_index = n; session = [] } in
          let out : results ≡ kv ∷ new ∷ [] = ground (arith, e, h, same, nz) in
          rw out (inl (kv, e, (==_iff _ _).0 same, pos, ground (arith, e, h, same, nz)))
    ]

compared_aborted :
    (key value what : Bytes) (version : ℕ) (before after : List KeyValue) (n first : ℕ)
    (more : List ℕ)
    → version ≢ 0
    → (o : Option KeyValue) → lookup key before ≡ o
    → run n 0 (cas_txn key value version) before ≡ failed_at first
    → after ≡ before
    → StoreSwaps key value version before after (compared (fail (aborted what first more)))
unfolding run compared
compared_aborted key value what version before after n first more nz none e h same =
    let at : first ≡ 0 = ground (arith, e, h) in rw at (e, same)
compared_aborted key value what version before after n first more nz (some kv) e h same =
    elim (Bool-cases (kv.modify_index == version)) [
      | inl it ↦ absurd (ground (arith, e, h, it, nz))
      | inr other ↦
          let at : first ≡ 1 = ground (arith, e, h, other, nz) in
          rw at (inr (kv, e, ground (arith, other), refl, same))
    ]

-- The answer to the transaction, read by the handlers.
compared_lem :
    (key value : Bytes) (version : ℕ) (before after : List KeyValue) (reply : Reply (List KeyValue))
    → version ≢ 0
    → Agrees (cas_txn key value version) before reply after
    → StoreSwaps key value version before after (compared reply)
compared_lem key value version before after (done results) nz (n, pos, h) =
    compared_done key value version before after results n pos nz (lookup key before) refl h
compared_lem key value version before after (fail (aborted what first more)) nz (n, h, same) =
    compared_aborted key value what version before after n first more nz (lookup key before) refl h
      same
compared_lem key value version before after (fail (bad_status what)) nz _ =
    unfold compared rethrow in tt
compared_lem key value version before after (fail (other_error what)) nz _ =
    unfold compared rethrow in tt

-- The same, of the tree.
StoreSwaps-Swaps :
    (ps k : List Bytes) (value : Bytes) (version : ℕ) (before after : List KeyValue)
    → All IsSegment ps
    → IsKey k
    → (o : Outcome CasResult) → StoreSwaps (name_of (ps ++ k)) value version before after o
    → Swaps (tree_of ps before) (tree_of ps after) k value version o
StoreSwaps-Swaps ps k value version before after v key (ok r) (inl (kv, e, same, pos, new)) =
    inl ((kv.value, rw (e, same) refl), omega arith, Written-upsert ps before k _ v key refl new)
StoreSwaps-Swaps ps k value version before after v key (ok r) (inr (kv, e, other, nil, same)) =
    inr (((kv.value, kv.modify_index), ap shown e, other), nil, Unchanged-same ps same)
StoreSwaps-Swaps ps k value version before after v key (throw no_entry) (absent, same) =
    ((shown-none_iff _).1 absent, Unchanged-same ps same)
StoreSwaps-Swaps ps k value version before after v key (throw _) h = h

module _ (p : Ppconsul) (s : State p) (ps up : List Bytes) (last value : Bytes)
    (v : All IsSegment ps) (w : All IsSegment (up ++ last ∷ []))
    (prefix : s.client.prefix ≡ of_segments ps) where
  abbrev sent : ℕ → List TxnOperation
  sent version = cas_txn (name_of (ps ++ (up ++ last ∷ []))) value version

  compare_and_set-eq :
      (version : ℕ)
      → compare_and_set p (of_segments (up ++ last ∷ [])) value version s ≡ (
        compared (p.commit (sent version) s.world).0,
        record s { world = (p.commit (sent version) s.world).1 },
      )
  unfolding compare_and_set
  compare_and_set-eq version = rw (named p s ps v prefix (up ++ last ∷ []) w)

  compare_and_set-Swaps :
      (version : ℕ) (c : Contract p)
      → version ≢ 0
      → let r = compare_and_set p (of_segments (up ++ last ∷ [])) value version s in
        Swaps
          (tree_of ps (c.view s.world))
          (tree_of ps (c.view r.1.world))
          (up ++ last ∷ [])
          value
          version
          r.0
  compare_and_set-Swaps version c nz = rw (compare_and_set-eq version) (
      StoreSwaps-Swaps ps (up ++ last ∷ []) value version _ _ v (IsKey-snoc up last w) _
        (compared_lem _ value version _ _ _ nz (c.commits (sent version) s.world (tt, (tt, tt)))))

  create_or_zero :
      (version : ℕ) (r : Outcome Int64 × State p)
      → (version == 0) ≡ true
      → create p (of_segments (up ++ last ∷ [])) value false s ≡ r
      → cas p (of_segments (up ++ last ∷ [])) value version s ≡ (if_there r.0, r.1)
  unfolding cas if_there
  create_or_zero version (ok n, t) zero e = rw (zero, e)
  create_or_zero version (throw entry_exists, t) zero e = rw (zero, e)
  create_or_zero version (throw no_entry, t) zero e = rw (zero, e)
  create_or_zero version (throw _, t) zero e = rw (zero, e)

  swap_otherwise :
      (version : ℕ)
      → (version == 0) ≡ false
      → cas p (of_segments (up ++ last ∷ [])) value version s
        ≡ compare_and_set p (of_segments (up ++ last ∷ [])) value version s
  unfolding cas
  swap_otherwise version nz = rw nz

  -- For a prefix and a key of valid segments and a Consul that keeps its contract, `cas` meets
  -- `Compares` on the tree of entries below the prefix. With the version 0 it creates the key, as
  -- `create` does, or returns 0 if the key is there, with nothing changed, or throws `NoEntry` if the
  -- parent is missing. With another version it writes the key alone and returns its new version if
  -- the key's entry has that version, returns 0 if the entry has another one, and throws `NoEntry`
  -- if there is no entry, both with nothing changed. Any other exception reports the service.
  pub cas-Compares :
      (version : ℕ) (c : Contract p)
      → let r = cas p (of_segments (up ++ last ∷ [])) value version s in
        Compares
          (tree_of ps (c.view s.world))
          (tree_of ps (c.view r.1.world))
          up
          last
          value
          version
          r.0
  cas-Compares version c = elim (Bool-cases (version == 0)) [
    | inl zero ↦ rw (create_or_zero version _ zero refl) (
        inl (
          (==_iff version 0).0 zero,
          Creates-CreatesIfNew (tree_of ps (c.view s.world))
              (tree_of ps (c.view (create p (of_segments (up ++ last ∷ [])) value false s).1.world))
              up last value _ (create-Creates p s ps up last value v w prefix c),
        ))
    | inr nz ↦
        let other : version ≢ 0 = ground (arith, nz) in
        rw (swap_otherwise version nz) (inr (other, compare_and_set-Swaps version c other))
  ]
