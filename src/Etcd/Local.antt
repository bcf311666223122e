-- ===== src/Etcd/Local.antt =====
-- An etcd for the examples. It keeps the versions of the keys, answers reads of one key, and
-- refuses all else but transactions.
use liboffkv.Base.{
  suc, Bool, true, false, not, ◌&&◌, Bytes, bytes_eq, codes, List, [], ◌∷◌, Option, none, some,
  length, ◌==◌, if◌then◌else◌,
}
use liboffkv.Errors.{ok}
use liboffkv.Client.{Int64}
use liboffkv.Etcd.Service.{
  Compare, create, version, lease, equal, greater, RequestOp, ResponseOp, KeyValue, TxnResponse,
  Reply, answered, refused, other_code, Etcd,
}
use liboffkv.Etcd.Naming.Ranges.{in_range}
use liboffkv.Etcd.Refine.Requirements.{Versions, is_some}

abbrev version_or_zero : Option Int64 → Int64
version_or_zero none = 0
version_or_zero (some v) = v

abbrev pub holds : Versions → Compare → Bool
holds f c = elim c.target [
  | create ↦ elim c.result [ equal ↦ not (is_some (f c.key)) | greater ↦ is_some (f c.key) ]
  | version ↦ version_or_zero (f c.key) == c.number
  | lease ↦ true
]

abbrev pub all_hold : Versions → List Compare → Bool
all_hold f [] = true
all_hold f (c ∷ cs) = holds f c && all_hold f cs

abbrev kvs_of : Bytes → Option Int64 → List KeyValue
kvs_of key none = []
kvs_of key (some v) = record { key = key; value = []; version = v; lease = 0 } ∷ []

abbrev range_response : List KeyValue → ResponseOp
range_response kvs = ResponseOp.range (record { kvs = kvs; count = length kvs; revision = 1 })

-- An empty end means the one key.
abbrev erased_by : Bytes → Bytes → Bytes → Bool
erased_by begin [] k = bytes_eq k begin
erased_by begin (c ∷ end) k = in_range k (begin, c ∷ end)

abbrev step : RequestOp → Versions → Versions × ResponseOp
step (RequestOp.put q) f =
    (λ k. if bytes_eq k q.key then some (suc (version_or_zero (f k))) else f k, ResponseOp.put)
step (RequestOp.range q) f = (f, range_response (kvs_of q.key (f q.key)))
step (RequestOp.delete_range q) f =
    (λ k. if erased_by q.key q.range_end k then none else f k, ResponseOp.delete_range)

abbrev pub run : List RequestOp → Versions → Versions × List ResponseOp
run [] f = (f, [])
run (q ∷ qs) f = let (g, r) = step q f in let (h, rs) = run qs g in (h, r ∷ rs)

abbrev pub respond : Bool → Versions × List ResponseOp → Reply TxnResponse × Versions
respond succeeded (f, responses) =
    (answered (record { succeeded = succeeded; responses = responses; revision = 1 }), f)

abbrev pub etcd : Etcd
etcd = record {
  World = Versions;
  txn = λ t f.
      if all_hold f t.compare
      then respond true (run t.success f)
      else respond false (run t.failure f);
  range = λ q f. (refused other_code (codes "range"), f);
  lease_grant = λ id ttl f. (refused other_code (codes "lease"), f);
  keep_alive = λ id f. (none, f);
  create_watch = λ q f. (ok tt, f);
}
