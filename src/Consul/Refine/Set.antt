-- ===== src/Consul/Refine/Set.antt =====
-- consul_client.hpp: `set`, over a service that keeps its contract.
use liboffkv.Base.{
  ℕ, ◌<◌, ◌≡◌, refl, Bytes, List, [], ◌∷◌, ◌++◌, Option, none, some, arith, All, All-left,
}
use liboffkv.Errors.{Outcome, ok, throw, no_entry}
use liboffkv.Key.Segments.{IsSegment, of_segments}
use liboffkv.Key.Parent.{parent-snoc}
use liboffkv.Client.{Int64}
use liboffkv.Client.Spec.{IsServiceFailure, Sets}
use liboffkv.Consul.Service.{
  TxnOperation, KeyValue, Reply, done, fail, aborted, bad_status, other_error, Ppconsul,
}
use liboffkv.Consul.Naming.Laws.{name_of}
use liboffkv.Consul.Commit.{back_index}
use liboffkv.Consul.Replies.{was_set, rethrow}
use liboffkv.Consul.Session.{State}
use liboffkv.Consul.Methods.{set}
use liboffkv.Consul.Contract.{LockFree, Contract, Agrees, run, all_done, failed_at}
use liboffkv.Consul.Contract.Store.{upsert}
use liboffkv.Consul.Refine.Tree.{
  tree_of, ParentIn, ParentIn-iff, parent_name, Written-upsert, Unchanged-same, IsKey-snoc,
}
use liboffkv.Consul.Refine.Calls.{named, parent_check_lem, reads}

abbrev set_txn : Option Bytes → Bytes → Bytes → List TxnOperation
set_txn up key value = reads up ++ TxnOperation.set key value ∷ []

module _ (up : Option Bytes) (key value : Bytes) (before after : List KeyValue) where
  abbrev StoreSets : Outcome Int64 → Type 0
  StoreSets (ok n) =
      ParentIn up before
      × (0 < n)
      × (after
          ≡ upsert (record { key = key; value = value; modify_index = n; session = [] }) before)
  StoreSets (throw no_entry) = ¬ ParentIn up before × (after ≡ before)
  StoreSets (throw e) = IsServiceFailure e

was_set_done :
    (up : Option Bytes) (key value : Bytes) (before after results : List KeyValue) (n : ℕ)
    → 0 < n
    → run n 0 (set_txn up key value) before ≡ all_done after results
    → StoreSets up key value before after (back_index results)
unfolding run back_index
was_set_done none key value before after results n pos h = ground arith
was_set_done (some up) key value before after results n pos h = ground arith

was_set_aborted :
    (up : Option Bytes) (key value what : Bytes) (before after : List KeyValue) (n first : ℕ)
    (more : List ℕ)
    → run n 0 (set_txn up key value) before ≡ failed_at first
    → after ≡ before
    → StoreSets up key value before after (was_set (fail (aborted what first more)))
unfolding run was_set
was_set_aborted none key value what before after n first more h same = ground arith
was_set_aborted (some up) key value what before after n first more h same = ground arith

set_txn-LockFree : (up : Option Bytes) (key value : Bytes) → All LockFree (set_txn up key value)
set_txn-LockFree none key value = (tt, tt)
set_txn-LockFree (some up) key value = (tt, (tt, tt))

-- The answer to the transaction of `set`, read by its handlers.
was_set_lem :
    (up : Option Bytes) (key value : Bytes) (before after : List KeyValue)
    (reply : Reply (List KeyValue))
    → Agrees (set_txn up key value) before reply after
    → StoreSets up key value before after (was_set reply)
was_set_lem up key value before after (done results) (n, pos, h) =
    unfold was_set in was_set_done up key value before after results n pos h
was_set_lem up key value before after (fail (aborted what first more)) (n, h, same) =
    was_set_aborted up key value what before after n first more h same
was_set_lem up key value before after (fail (bad_status what)) _ = unfold was_set rethrow in tt
was_set_lem up key value before after (fail (other_error what)) _ = unfold was_set rethrow in tt

-- The same, of the tree.
StoreSets-Sets :
    (ps up : List Bytes) (last value : Bytes) (before after : List KeyValue)
    → All IsSegment ps
    → All IsSegment (up ++ last ∷ [])
    → (o : Outcome Int64)
    → StoreSets (parent_name ps up) (name_of (ps ++ (up ++ last ∷ []))) value before after o
    → Sets (tree_of ps before) (tree_of ps after) up last value o
StoreSets-Sets ps up last value before after v w (ok n) (par, pos, e) = (
  (ParentIn-iff ps up before).0 par,
  omega arith,
  Written-upsert ps before (up ++ last ∷ []) _ v (IsKey-snoc up last w) refl e,
)
StoreSets-Sets ps up last value before after v w (throw no_entry) (orphan, same) =
    (λ h. orphan ((ParentIn-iff ps up before).1 h), Unchanged-same ps same)
StoreSets-Sets ps up last value before after v w (throw _) h = h

module _ (p : Ppconsul) (s : State p) (ps up : List Bytes) (last value : Bytes)
    (v : All IsSegment ps) (w : All IsSegment (up ++ last ∷ []))
    (prefix : s.client.prefix ≡ of_segments ps) where
  abbrev sent : List TxnOperation
  sent = set_txn (parent_name ps up) (name_of (ps ++ (up ++ last ∷ []))) value

  set-eq :
      set p (of_segments (up ++ last ∷ [])) value s
      ≡ (was_set (p.commit sent s.world).0, record s { world = (p.commit sent s.world).1 })
  unfolding set
  set-eq = rw (
    parent-snoc up last w,
    parent_check_lem p s ps v prefix up (All-left IsSegment up (last ∷ []) w),
    named p s ps v prefix (up ++ last ∷ []) w,
  )

  -- For a prefix and a key of valid segments and a Consul that keeps its contract, `set` meets `Sets`
  -- on the tree of entries below the prefix: a version is returned if the parent is the root or an
  -- entry, and then the key alone is written, whether it was there or not; `NoEntry` means that the
  -- parent is missing, with nothing changed; any other exception reports the service.
  pub set-Sets :
      (c : Contract p)
      → let r = set p (of_segments (up ++ last ∷ [])) value s in
        Sets (tree_of ps (c.view s.world)) (tree_of ps (c.view r.1.world)) up last value r.0
  set-Sets c = rw set-eq (
      StoreSets-Sets ps up last value _ _ v w _ (
        was_set_lem (parent_name ps up) _ value _ _ _
          (c.commits sent s.world (set_txn-LockFree (parent_name ps up) _ value))))
