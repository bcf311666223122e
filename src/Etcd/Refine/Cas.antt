-- ===== src/Etcd/Refine/Cas.antt =====
-- etcd_client.hpp: `cas`, over a service that keeps its contract.
use liboffkv.Base.{
  ℕ, ◌≡◌, ◌≢◌, refl, true, false, ◌==◌, ==_iff, Bool-cases, inl, inr, Bytes, List, [], ◌∷◌, ◌++◌,
  arith, All,
}
use liboffkv.Errors.{Outcome, ok, throw, no_entry, entry_exists}
use liboffkv.Key.Segments.{IsSegment, of_segments}
use liboffkv.Client.{Int64}
use liboffkv.Client.IfNew.{if_there, Creates-CreatesIfNew}
use liboffkv.Client.Spec.{Swaps, Compares}
use liboffkv.Etcd.Service.{TxnRequest, TxnResponse, Reply, answered, refused, Etcd}
use liboffkv.Etcd.Naming.Laws.{key_of}
use liboffkv.Etcd.Session.{State, commit_txn}
use liboffkv.Etcd.Methods.{create, cas, compare_and_set}
use liboffkv.Etcd.Contract.{Contract}
use liboffkv.Etcd.Refine.Tree.{tree_of, IsKey-snoc, named}
use liboffkv.Etcd.Refine.Create.{etcd_create-Creates}
use liboffkv.Etcd.Refine.Swaps.{
  cas_txn, cas_builder-eq, read_cas, read_cas-StoreSwaps, StoreSwaps-Swaps,
}

module _ (p : Etcd) (s : State p) (ps up : List Bytes) (last value : Bytes) (v : All IsSegment ps)
    (w : All IsSegment (up ++ last ∷ [])) (prefix : s.client.prefix ≡ of_segments ps) where
  abbrev sent : ℕ → TxnRequest
  sent version = cas_txn (key_of ps (up ++ last ∷ [])) value version

  compare_and_set-eq :
      (version : ℕ) (r : Reply TxnResponse × p.World)
      → p.txn (sent version) s.world ≡ r
      → compare_and_set p (of_segments (up ++ last ∷ [])) value version s
        ≡ (read_cas r.0, record s { world = r.1 })
  unfolding compare_and_set commit_txn
  compare_and_set-eq version (answered r, u) e = rw (
    named p s ps prefix (up ++ last ∷ []) (IsKey-snoc up last w),
    cas_builder-eq (key_of ps (up ++ last ∷ [])) value version,
    e,
  )
  compare_and_set-eq version (refused code message, u) e = rw (
    named p s ps prefix (up ++ last ∷ []) (IsKey-snoc up last w),
    cas_builder-eq (key_of ps (up ++ last ∷ [])) value version,
    e,
  )

  compare_and_set-Swaps :
      (version : ℕ) (c : Contract p)
      → version ≢ 0
      → let r = compare_and_set p (of_segments (up ++ last ∷ [])) value version s in
        Swaps
          (tree_of ps (c.view s.world))
          (tree_of ps (c.view r.1.world))
          (up ++ last ∷ [])
          value
          version
          r.0
  compare_and_set-Swaps version c nz =
      rw (compare_and_set-eq version (p.txn (sent version) s.world) refl) (
        StoreSwaps-Swaps ps (up ++ last ∷ []) value version _ _ v (IsKey-snoc up last w) _ (
          read_cas-StoreSwaps c.Excessive _ value version _ _ _ nz
            (c.transactions (sent version) s.world (tt, tt))))

  create_or_zero :
      (version : ℕ) (r : Outcome Int64 × State p)
      → (version == 0) ≡ true
      → create p (of_segments (up ++ last ∷ [])) value false s ≡ r
      → cas p (of_segments (up ++ last ∷ [])) value version s ≡ (if_there r.0, r.1)
  unfolding cas if_there
  create_or_zero version (ok n, t) zero e = rw (zero, e)
  create_or_zero version (throw entry_exists, t) zero e = rw (zero, e)
  create_or_zero version (throw no_entry, t) zero e = rw (zero, e)
  create_or_zero version (throw _, t) zero e = rw (zero, e)

  swap_otherwise :
      (version : ℕ)
      → (version == 0) ≡ false
      → cas p (of_segments (up ++ last ∷ [])) value version s
        ≡ compare_and_set p (of_segments (up ++ last ∷ [])) value version s
  unfolding cas
  swap_otherwise version nz = rw nz

  -- For a prefix and a key of valid segments and an etcd that keeps its contract, `cas` meets
  -- `Compares` on the tree of entries below the prefix. With the version 0 it creates the key, as
  -- `create` does, or returns 0 if the key is there, with nothing changed, or throws `NoEntry` if the
  -- parent is missing. With another version it writes the key alone and returns its new version if
  -- the key's entry has that version, returns 0 if the entry has another one, and throws `NoEntry`
  -- if there is no entry, both with nothing changed. Any other exception reports the service.
  pub etcd_cas-Compares :
      (version : ℕ) (c : Contract p)
      → let r = cas p (of_segments (up ++ last ∷ [])) value version s in
        Compares
          (tree_of ps (c.view s.world))
          (tree_of ps (c.view r.1.world))
          up
          last
          value
          version
          r.0
  etcd_cas-Compares version c = elim (Bool-cases (version == 0)) [
    | inl zero ↦ rw (create_or_zero version _ zero refl) (
        inl (
          (==_iff version 0).0 zero,
          Creates-CreatesIfNew (tree_of ps (c.view s.world))
              (tree_of ps (c.view (create p (of_segments (up ++ last ∷ [])) value false s).1.world))
              up last value _ (etcd_create-Creates p s ps up last value v w prefix c),
        ))
    | inr nz ↦
        let other : version ≢ 0 = ground (arith, nz) in
        rw (swap_otherwise version nz) (inr (other, compare_and_set-Swaps version c other))
  ]
