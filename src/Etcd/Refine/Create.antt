-- ===== src/Etcd/Refine/Create.antt =====
-- etcd_client.hpp: `create`, over a service that keeps its contract.
use liboffkv.Base.{
  ◌≡◌, ◌≢◌, refl, ◌∙◌, true, false, Option-cases, ◌⊎◌, inl, inr, Bytes, List, [], ◌∷◌, ◌++◌, Option,
  none, some, arith, All, All-left,
}
use liboffkv.Errors.{Outcome, ok, throw, no_entry, entry_exists}
use liboffkv.Key.Segments.{IsSegment, of_segments}
use liboffkv.Client.{Int64}
use liboffkv.Client.Spec.{IsServiceFailure, Creates}
use liboffkv.Etcd.Service.{
  RequestOp, TxnRequest, KeyValue, TxnResponse, Reply, answered, refused, unavailable,
  invalid_argument, other_code, Etcd,
}
use liboffkv.Etcd.Naming.Laws.{key_of}
use liboffkv.Etcd.Builder.{
  make_compare, add_check_exists, add_check_not_exists, on_success, on_failure, push_request,
  add_put_request, add_range_request, failure,
}
use liboffkv.Etcd.Requests.{create_builder}
use liboffkv.Etcd.Replies.{created}
use liboffkv.Etcd.Session.{State, refusal, commit_txn, lease_if}
use liboffkv.Etcd.Methods.{create}
use liboffkv.Etcd.Contract.{ComparesPresence, Contract, Agrees, all_hold, run, one}
use liboffkv.Etcd.Contract.Store.{lookup, upsert}
use liboffkv.Etcd.Refine.Runs.{absent, probe, probed, run-probe, parent_present}
use liboffkv.Etcd.Refine.Tree.{
  tree_of, ParentIn, ParentIn-iff, parent_name, shown-none_iff, Written-upsert, Unchanged-same,
  IsKey-snoc, named, parent_path_lem,
}

abbrev pub create_txn : Option Bytes → Bytes → Bytes → TxnRequest
create_txn up key value = record {
  compare = parent_present up ++ absent key ∷ [];
  success =
      RequestOp.put (record { key = key; value = value; lease = 0; ignore_lease = false }) ∷ [];
  failure = probe key ∷ [];
}

create_builder-eq :
    (up : Option Bytes) (key value : Bytes)
    → create_builder up key value 0
      ≡ ok (record { txn = create_txn up key value; status = failure })
unfolding create_builder make_compare add_check_exists add_check_not_exists on_success on_failure
    push_request add_put_request add_range_request
create_builder-eq none key value = refl
create_builder-eq (some up) key value = refl

-- What the method makes of the reply to its one call.
abbrev pub read_create : Reply TxnResponse → Outcome Int64
read_create (answered r) = created r
read_create (refused code message) = throw (refusal code message)

module _ (up : Option Bytes) (key value : Bytes) (before after : List KeyValue) where
  abbrev StoreCreates : Outcome Int64 → Type 0
  StoreCreates (ok n) =
      ParentIn up before
      × (lookup key before ≡ none)
      × (n ≡ 1)
      × (after ≡ upsert (record { key = key; value = value; version = 1; lease = 0 }) before)
  StoreCreates (throw no_entry) = ¬ ParentIn up before × (after ≡ before)
  StoreCreates (throw entry_exists) = (lookup key before ≢ none) × (after ≡ before)
  StoreCreates (throw e) = IsServiceFailure e

-- The comparisons of `create` hold if the key is new and its parent is there.
create_decided :
    (up : Option Bytes) (key value : Bytes) (s : List KeyValue)
    → ((all_hold (create_txn up key value).compare s ≡ true)
        × (lookup key s ≡ none)
        × ParentIn up s)
      ⊎ ((all_hold (create_txn up key value).compare s ≡ false)
          × (lookup key s ≡ none → ¬ ParentIn up s))
unfolding all_hold
create_decided none key value s = elim (Option-cases (lookup key s)) [
  | inl e ↦ inl (rw e refl, e, tt)
  | inr (kv, e) ↦ inr (rw e refl, λ n. cc (e, n))
]
create_decided (some up) key value s = elim (Option-cases (lookup up s)) [
  | inl f ↦ inr (rw f refl, λ n there. there f)
  | inr (u, f) ↦ elim (Option-cases (lookup key s)) [
    | inl e ↦ inl (rw (f, e) refl, e, λ n. cc (f, n))
    | inr (kv, e) ↦ inr (rw (f, e) refl, λ n. cc (e, n))
  ]
]

created_otherwise :
    (up : Option Bytes) (key value : Bytes) (before after : List KeyValue) (r : TxnResponse)
    (o : Option KeyValue)
    → r.succeeded ≡ false
    → after ≡ before
    → r.responses ≡ probed r.revision o
    → lookup key before ≡ o
    → (lookup key before ≡ none → ¬ ParentIn up before)
    → StoreCreates up key value before after (created r)
unfolding created
created_otherwise up key value before after r none lost same out e orphan =
    rw (lost, out) (orphan e, same)
created_otherwise up key value before after r (some kv) lost same out e orphan =
    rw (lost, out) (λ n. cc (e, n), same)

created_new :
    (up : Option Bytes) (key value : Bytes) (before after : List KeyValue) (r : TxnResponse)
    → r.succeeded ≡ true
    → run r.revision (create_txn up key value).success before ≡ some (after, r.responses)
    → lookup key before ≡ none
    → ParentIn up before
    → StoreCreates up key value before after (created r)
unfolding run created
created_new up key value before after r won ran e par =
    rw won (par, e, refl, ground (arith, ran, e))

created_lem :
    (limits : TxnRequest → Type 0) (up : Option Bytes) (key value : Bytes)
    (before after : List KeyValue) (r : TxnResponse)
    → Agrees limits (create_txn up key value) before (answered r) after
    → StoreCreates up key value before after (created r)
created_lem limits up key value before after r (held, ran) =
    elim (create_decided up key value before) [
      | inl (holds, e, par) ↦
          let won : r.succeeded ≡ true = held ∙ holds in
          created_new up key value before after r won (rw won at ran) e par
      | inr (fails, orphan) ↦
          let lost : r.succeeded ≡ false = held ∙ fails in
          let (same, out) = run-probe r.revision key before after r.responses (rw lost at ran) in
          created_otherwise up key value before after r (lookup key before) lost same out refl
            orphan
    ]

read_create-StoreCreates :
    (limits : TxnRequest → Type 0) (up : Option Bytes) (key value : Bytes)
    (before after : List KeyValue) (reply : Reply TxnResponse)
    → Agrees limits (create_txn up key value) before reply after
    → StoreCreates up key value before after (read_create reply)
unfolding refusal
read_create-StoreCreates limits up key value before after (answered r) h =
    created_lem limits up key value before after r h
read_create-StoreCreates limits up key value before after (refused unavailable message) h = tt
read_create-StoreCreates limits up key value before after (refused invalid_argument message) h = tt
read_create-StoreCreates limits up key value before after (refused other_code message) h = tt

-- The same, of the tree.
StoreCreates-Creates :
    (ps up : List Bytes) (last value : Bytes) (before after : List KeyValue)
    → All IsSegment ps
    → All IsSegment (up ++ last ∷ [])
    → (o : Outcome Int64)
    → StoreCreates (parent_name ps up) (key_of ps (up ++ last ∷ [])) value before after o
    → Creates (tree_of ps before) (tree_of ps after) up last value o
StoreCreates-Creates ps up last value before after v w (ok n) (par, fresh, one, e) = (
  (ParentIn-iff ps up before).0 par,
  (shown-none_iff _).1 fresh,
  omega arith,
  rw one (Written-upsert ps v before (up ++ last ∷ []) _ (IsKey-snoc up last w) refl e),
)
StoreCreates-Creates ps up last value before after v w (throw no_entry) (orphan, same) =
    (λ h. orphan ((ParentIn-iff ps up before).1 h), Unchanged-same ps same)
StoreCreates-Creates ps up last value before after v w (throw entry_exists) (there, same) =
    (λ e. there ((shown-none_iff _).0 e), Unchanged-same ps same)
StoreCreates-Creates ps up last value before after v w (throw _) h = h

create_txn-ComparesPresence :
    (up : Option Bytes) (key value : Bytes) → All ComparesPresence (create_txn up key value).compare
create_txn-ComparesPresence none key value = (refl, tt)
create_txn-ComparesPresence (some up) key value = (refl, (refl, tt))

module _ (p : Etcd) (s : State p) (ps up : List Bytes) (last value : Bytes) (v : All IsSegment ps)
    (w : All IsSegment (up ++ last ∷ [])) (prefix : s.client.prefix ≡ of_segments ps) where
  abbrev pub sent : TxnRequest
  sent = create_txn (parent_name ps up) (key_of ps (up ++ last ∷ [])) value

  pub create-eq :
      (r : Reply TxnResponse × p.World)
      → p.txn sent s.world ≡ r
      → create p (of_segments (up ++ last ∷ [])) value false s
        ≡ (read_create r.0, record s { world = r.1 })
  unfolding create commit_txn lease_if
  create-eq (answered r, u) e = rw (
    named p s ps prefix (up ++ last ∷ []) (IsKey-snoc up last w),
    parent_path_lem p s ps prefix up last (All-left IsSegment up (last ∷ []) w) w,
    create_builder-eq (parent_name ps up) (key_of ps (up ++ last ∷ [])) value,
    e,
  )
  create-eq (refused code message, u) e = rw (
    named p s ps prefix (up ++ last ∷ []) (IsKey-snoc up last w),
    parent_path_lem p s ps prefix up last (All-left IsSegment up (last ∷ []) w) w,
    create_builder-eq (parent_name ps up) (key_of ps (up ++ last ∷ [])) value,
    e,
  )

  -- For a prefix and a key of valid segments and an etcd that keeps its contract, `create` without a
  -- lease meets `Creates` on the tree of entries below the prefix: a version is returned if the
  -- parent is the root or an entry and the key was not there, and then the key alone is written;
  -- `NoEntry` means that the parent is missing and `EntryExists` that the key was there, both with
  -- nothing changed; any other exception reports the service.
  pub etcd_create-Creates :
      (c : Contract p)
      → let r = create p (of_segments (up ++ last ∷ [])) value false s in
        Creates (tree_of ps (c.view s.world)) (tree_of ps (c.view r.1.world)) up last value r.0
  etcd_create-Creates c = rw (create-eq (p.txn sent s.world) refl) (
      StoreCreates-Creates ps up last value _ _ v w _ (
        read_create-StoreCreates c.Excessive (parent_name ps up) _ value _ _ _
          (c.transactions sent s.world (create_txn-ComparesPresence (parent_name ps up) _ value))))
