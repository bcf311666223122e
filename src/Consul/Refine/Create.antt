-- ===== src/Consul/Refine/Create.antt =====
-- consul_client.hpp: `create`, over a service that keeps its contract.
use liboffkv.Base.{
  ℕ, ◌<◌, ◌≡◌, ◌≢◌, refl, false, Bytes, List, [], ◌∷◌, ◌++◌, Option, none, some, arith, All,
}
use liboffkv.Errors.{Outcome, ok, throw, no_entry, entry_exists}
use liboffkv.Client.{Int64}
use liboffkv.Client.Spec.{IsServiceFailure}
use liboffkv.Consul.Service.{
  TxnOperation, KeyValue, Reply, done, fail, aborted, bad_status, other_error,
}
use liboffkv.Base.{All-left}
use liboffkv.Key.Segments.{IsSegment, of_segments}
use liboffkv.Key.Parent.{parent-snoc}
use liboffkv.Consul.Service.{Ppconsul}
use liboffkv.Consul.Naming.Laws.{name_of}
use liboffkv.Consul.Session.{State}
use liboffkv.Consul.Methods.{create, put_op}
use liboffkv.Client.Spec.{Creates, IsCreateAnswer}
use liboffkv.Consul.Contract.{LockFree, Contract, IsAnswered}
use liboffkv.Consul.Refine.Tree.{
  tree_of, ParentIn, ParentIn-iff, parent_name, shown-none_iff, Written-upsert, Unchanged-same,
  IsKey-snoc,
}
use liboffkv.Consul.Refine.Calls.{has-parent, named, parent_check_lem, reads, has}
use liboffkv.Consul.Commit.{back_index}
use liboffkv.Consul.Replies.{created, rethrow}
use liboffkv.Consul.Contract.{Agrees, run, all_done, failed_at}
use liboffkv.Consul.Contract.Store.{lookup, upsert}

abbrev pub create_txn : Option Bytes → Bytes → Bytes → List TxnOperation
create_txn up key value =
    reads up ++ TxnOperation.check_not_exists key ∷ TxnOperation.set key value ∷ []

module _ (up : Option Bytes) (key value : Bytes) (before after : List KeyValue) where
  abbrev pub StoreCreates : Outcome Int64 → Type 0
  StoreCreates (ok n) =
      ParentIn up before
      × (lookup key before ≡ none)
      × (0 < n)
      × (after
          ≡ upsert (record { key = key; value = value; modify_index = n; session = [] }) before)
  StoreCreates (throw no_entry) = ¬ ParentIn up before × (after ≡ before)
  StoreCreates (throw entry_exists) = (lookup key before ≢ none) × (after ≡ before)
  StoreCreates (throw e) = IsServiceFailure e

created_done :
    (up : Option Bytes) (key value : Bytes) (before after results : List KeyValue) (n : ℕ)
    → 0 < n
    → run n 0 (create_txn up key value) before ≡ all_done after results
    → StoreCreates up key value before after (back_index results)
unfolding run back_index
created_done none key value before after results n pos h = ground arith
created_done (some up) key value before after results n pos h = ground arith

created_aborted :
    (up : Option Bytes) (key value what : Bytes) (before after : List KeyValue) (n first : ℕ)
    (more : List ℕ)
    → run n 0 (create_txn up key value) before ≡ failed_at first
    → after ≡ before
    → StoreCreates up key value before after (created (has up) (fail (aborted what first more)))
unfolding run created
created_aborted none key value what before after n first more h same = ground arith
created_aborted (some up) key value what before after n first more h same = ground arith

create_txn-LockFree :
    (up : Option Bytes) (key value : Bytes) → All LockFree (create_txn up key value)
create_txn-LockFree none key value = (tt, (tt, tt))
create_txn-LockFree (some up) key value = (tt, (tt, (tt, tt)))

IsCreateAnswer-done :
    (up : Option Bytes) (key value : Bytes) (before after results : List KeyValue) (n : ℕ)
    → run n 0 (create_txn up key value) before ≡ all_done after results
    → IsCreateAnswer (back_index results)
unfolding run back_index
IsCreateAnswer-done none key value before after results n h = ground arith
IsCreateAnswer-done (some up) key value before after results n h = ground arith

IsCreateAnswer-aborted :
    (up : Option Bytes) (key value what : Bytes) (before : List KeyValue) (n first : ℕ)
    (more : List ℕ)
    → run n 0 (create_txn up key value) before ≡ failed_at first
    → IsCreateAnswer (created (has up) (fail (aborted what first more)))
unfolding run created
IsCreateAnswer-aborted none key value what before n first more h = ground arith
IsCreateAnswer-aborted (some up) key value what before n first more h = ground arith

IsCreateAnswer-created :
    (up : Option Bytes) (key value : Bytes) (before after : List KeyValue)
    (reply : Reply (List KeyValue))
    → Agrees (create_txn up key value) before reply after
    → IsAnswered reply
    → IsCreateAnswer (created (has up) reply)
IsCreateAnswer-created up key value before after (done results) (n, pos, h) _ =
    unfold created in IsCreateAnswer-done up key value before after results n h
IsCreateAnswer-created up key value before after (fail (aborted what first more)) (n, h, same) _ =
    IsCreateAnswer-aborted up key value what before n first more h
IsCreateAnswer-created up key value before after (fail (bad_status what)) _ h = absurd h
IsCreateAnswer-created up key value before after (fail (other_error what)) _ h = absurd h

-- The answer to the transaction of `create`, read by its handlers.
created_lem :
    (up : Option Bytes) (key value : Bytes) (before after : List KeyValue)
    (reply : Reply (List KeyValue))
    → Agrees (create_txn up key value) before reply after
    → StoreCreates up key value before after (created (has up) reply)
created_lem up key value before after (done results) (n, pos, h) =
    unfold created in created_done up key value before after results n pos h
created_lem up key value before after (fail (aborted what first more)) (n, h, same) =
    created_aborted up key value what before after n first more h same
created_lem up key value before after (fail (bad_status what)) _ = unfold created rethrow in tt
created_lem up key value before after (fail (other_error what)) _ = unfold created rethrow in tt

-- The same, of the tree.
StoreCreates-Creates :
    (ps up : List Bytes) (last value : Bytes) (before after : List KeyValue)
    → All IsSegment ps
    → All IsSegment (up ++ last ∷ [])
    → (o : Outcome Int64)
    → StoreCreates (parent_name ps up) (name_of (ps ++ (up ++ last ∷ []))) value before after o
    → Creates (tree_of ps before) (tree_of ps after) up last value o
StoreCreates-Creates ps up last value before after v w (ok n) (par, absent, pos, e) = (
  (ParentIn-iff ps up before).0 par,
  (shown-none_iff _).1 absent,
  omega arith,
  Written-upsert ps before (up ++ last ∷ []) _ v (IsKey-snoc up last w) refl e,
)
StoreCreates-Creates ps up last value before after v w (throw no_entry) (orphan, same) =
    (λ h. orphan ((ParentIn-iff ps up before).1 h), Unchanged-same ps same)
StoreCreates-Creates ps up last value before after v w (throw entry_exists) (there, same) =
    (λ e. there ((shown-none_iff _).0 e), Unchanged-same ps same)
StoreCreates-Creates ps up last value before after v w (throw _) h = h

module _ (p : Ppconsul) (s : State p) (ps up : List Bytes) (last value : Bytes)
    (v : All IsSegment ps) (w : All IsSegment (up ++ last ∷ []))
    (prefix : s.client.prefix ≡ of_segments ps) where
  abbrev pub sent : List TxnOperation
  sent = create_txn (parent_name ps up) (name_of (ps ++ (up ++ last ∷ []))) value

  -- `create` is one transaction, read by its handlers.
  pub create-eq : create p (of_segments (up ++ last ∷ [])) value false s ≡ (
    created (has (parent_name ps up)) (p.commit sent s.world).0,
    record s { world = (p.commit sent s.world).1 },
  )
  unfolding create put_op
  create-eq = rw (
    parent-snoc up last w,
    parent_check_lem p s ps v prefix up (All-left IsSegment up (last ∷ []) w),
    named p s ps v prefix (up ++ last ∷ []) w,
    has-parent ps up,
  )

  -- For a prefix and a key of valid segments and a Consul that keeps its contract, `create` without
  -- a lease meets `Creates` on the tree of entries below the prefix: a version is returned if the
  -- parent is the root or an entry and the key was not there, and then the key alone is written;
  -- `NoEntry` means that the parent is missing and `EntryExists` that the key was there, both with
  -- nothing changed; any other exception reports the service.
  pub create-Creates :
      (c : Contract p)
      → let r = create p (of_segments (up ++ last ∷ [])) value false s in
        Creates (tree_of ps (c.view s.world)) (tree_of ps (c.view r.1.world)) up last value r.0
  create-Creates c = rw create-eq (
      StoreCreates-Creates ps up last value _ _ v w _ (
        created_lem (parent_name ps up) _ value _ _ _
          (c.commits sent s.world (create_txn-LockFree (parent_name ps up) _ value))))

  -- For a prefix and a key of valid segments and a Consul that keeps its contract: where Consul
  -- answers each transaction, or reports the operation at which it failed, `create` without a lease
  -- returns or throws `NoEntry` or `EntryExists`, and nothing else.
  pub create-answers :
      (c : Contract p)
      → ((txn : List TxnOperation) → IsAnswered (p.commit txn s.world).0)
      → IsCreateAnswer (create p (of_segments (up ++ last ∷ [])) value false s).0
  create-answers c answers = rw create-eq (
      IsCreateAnswer-created (parent_name ps up) _ value _ _ _
        (c.commits sent s.world (create_txn-LockFree (parent_name ps up) _ value)) (answers sent))
