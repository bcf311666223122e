-- ===== src/Etcd/Contract.antt =====
-- What etcd documents of its key-value calls, as a hypothesis on the calls that etcd_client.hpp
-- makes. A comparison of create revisions is with 0 only, which tells whether the key is there.
pub mod Store
use liboffkv.Base.{
  ℕ, zero, suc, ◌≡◌, ◌⊎◌, Bool, true, false, not, ◌&&◌, ◌==◌, ltb, Bytes, List, [], ◌∷◌, Option,
  none, some, if◌then◌else◌, All, length, take, map,
}
use liboffkv.Errors.{Exception, Outcome, ok, throw}
use liboffkv.Client.{Int64}
use liboffkv.Client.Spec.{IsServiceFailure}
use liboffkv.Etcd.Service.{
  Target, create, version, lease, Relation, equal, greater, Compare, PutRequest, RangeRequest,
  RequestOp, TxnRequest, KeyValue, RangeResponse, ResponseOp, TxnResponse, Reply, answered, refused,
  StatusCode, unavailable, invalid_argument, other_code, WatchCreateRequest, Etcd,
}
use Store.{lookup, upsert, within, remove_within}

abbrev pub version_of : Option KeyValue → Int64
version_of none = 0
version_of (some kv) = kv.version

abbrev pub lease_of : Option KeyValue → Int64
lease_of none = 0
lease_of (some kv) = kv.lease

abbrev pub compared : Relation → ℕ → ℕ → Bool
compared equal a b = a == b
compared greater a b = ltb b a

-- An entry has a positive create revision.
abbrev pub is_there : Relation → Option KeyValue → Bool
is_there equal none = true
is_there equal (some kv) = false
is_there greater none = false
is_there greater (some kv) = true

-- A comparison with the entry of its key, if there is one; a key that is not there has the version
-- and the lease 0.
abbrev pub holds_of : Compare → Option KeyValue → Bool
holds_of c o = elim c.target [
  | create ↦ is_there c.result o
  | version ↦ compared c.result (version_of o) c.number
  | lease ↦ compared c.result (lease_of o) c.number
]

unfoldable pub all_hold : List Compare → List KeyValue → Bool
all_hold [] s = true
all_hold (c ∷ cs) s = holds_of c (lookup c.key s) && all_hold cs s

-- A put counts the version up; it takes over the lease, or keeps that of an entry, which must be
-- there then.
abbrev pub new_entry : PutRequest → Option KeyValue → Option KeyValue
new_entry q none =
    if q.ignore_lease
    then none
    else some (record { key = q.key; value = q.value; version = 1; lease = q.lease })
new_entry q (some kv) = some (record {
  key = q.key;
  value = q.value;
  version = suc kv.version;
  lease = if q.ignore_lease then kv.lease else q.lease;
})

abbrev pub one : Option KeyValue → List KeyValue
one none = []
one (some kv) = kv ∷ []

abbrev pub matching : Bytes → Bytes → List KeyValue → List KeyValue
matching begin [] s = one (lookup begin s)
matching begin (c ∷ end) s = within begin (c ∷ end) s

abbrev pub shorten : ℕ → List KeyValue → List KeyValue
shorten zero kvs = kvs
shorten (suc n) kvs = take (suc n) kvs

abbrev pub strip : Bool → KeyValue → KeyValue
strip keys_only kv = if keys_only then record kv { value = [] } else kv

-- The answer to a read, under a revision.
abbrev pub read : ℕ → RangeRequest → List KeyValue → RangeResponse
read n q s = record {
  kvs = map (strip q.keys_only) (shorten q.limit (matching q.key q.range_end s));
  count = length (matching q.key q.range_end s);
  revision = n;
}

-- The entries that a request leaves and its response; `none` if it is an invalid argument.
unfoldable pub apply : ℕ → RequestOp → List KeyValue → Option (List KeyValue × ResponseOp)
apply n (RequestOp.put q) s = elim (new_entry q (lookup q.key s)) [
  | none ↦ none
  | some kv ↦ some (upsert kv s, ResponseOp.put)
]
apply n (RequestOp.range q) s = some (s, ResponseOp.range (read n q s))
apply n (RequestOp.delete_range q) s =
    some (remove_within q.key q.range_end s, ResponseOp.delete_range)

unfoldable pub run : ℕ → List RequestOp → List KeyValue → Option (List KeyValue × List ResponseOp)
unfolding apply
run n [] s = some (s, [])
run n (op ∷ ops) s = elim (apply n op s) [
  | none ↦ none
  | some (s', r) ↦ elim (run n ops s') [ none ↦ none | some (s'', rs) ↦ some (s'', r ∷ rs) ]
]

abbrev pub branch : Bool → TxnRequest → List RequestOp
branch true t = t.success
branch false t = t.failure

abbrev pub ComparesPresence : Compare → Type 0
ComparesPresence c = elim c.target [ create ↦ c.number ≡ 0 | version ↦ Unit | lease ↦ Unit ]

-- A transaction that is answered has run as a whole the requests that its comparisons call for. One
-- that is refused as an invalid argument has changed nothing: either one of its requests is invalid
-- for the entries that are there, or it is outside the service's `limits`.
abbrev pub Agrees :
    (limits : TxnRequest → Type 0)
    → TxnRequest
    → List KeyValue
    → Reply TxnResponse
    → List KeyValue
    → Type 0
Agrees limits t before (answered r) after =
    (r.succeeded ≡ all_hold t.compare before)
    × (run r.revision (branch r.succeeded t) before ≡ some (after, r.responses))
Agrees limits t before (refused invalid_argument message) after =
    (((n : ℕ) × (run n (branch (all_hold t.compare before) t) before ≡ none)) ⊎ limits t)
    × (after ≡ before)
Agrees limits t before (refused code message) after = Unit

abbrev pub Shows : RangeRequest → List KeyValue → Reply RangeResponse → List KeyValue → Type 0
Shows q before (answered r) after = (r ≡ read r.revision q before) × (after ≡ before)
Shows q before (refused code message) after = Unit

-- A watch changes no entry, and fails only for the service.
abbrev pub IsSetUp : Outcome (Unit {0}) → Type 0
IsSetUp (ok _) = Unit
IsSetUp (throw e) = IsServiceFailure e

pub record Contract (p : Etcd) : Type 1 where
  pub view : p.World → List KeyValue
  -- The transactions that etcd refuses whatever is stored: those that are too large, have too many
  -- requests, or write a key twice.
  pub Excessive : TxnRequest → Type 0
  pub transactions :
      (t : TxnRequest) (w : p.World)
      → All ComparesPresence t.compare
      → Agrees Excessive t (view w) (p.txn t w).0 (view (p.txn t w).1)
  pub reads :
      (q : RangeRequest) (w : p.World) → Shows q (view w) (p.range q w).0 (view (p.range q w).1)
  pub watches :
      (q : WatchCreateRequest) (w : p.World)
      → IsSetUp (p.create_watch q w).0 × (view (p.create_watch q w).1 ≡ view w)
