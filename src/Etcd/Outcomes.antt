-- ===== src/Etcd/Outcomes.antt =====
-- etcd_client.hpp: how `commit` reads the response to its transaction.
use liboffkv.Base.{
  ℕ, ◌+◌, Bool, true, false, not, ltb, ◌==◌, if◌then◌else◌, codes, List, [], ◌∷◌, length,
}
use liboffkv.Errors.{Exception, Outcome, ok, throw, txn_failed, service_error, ◌>>=◌}
use liboffkv.Client.{Int64, TxnCheck, TxnOpResult, Kind}
use liboffkv.Etcd.Service.{KeyValue, ResponseOp, TxnResponse}
use liboffkv.Etcd.Plan.{Plan}
use liboffkv.Etcd.Replies.{range_at, is_present, version_at}

abbrev pub throw_if : Exception → Bool → Outcome (Unit {0})
throw_if e true = throw e
throw_if e false = ok tt

-- The test of the first loop; the second half is read only of a present key.
abbrev pub differs : Int64 → List KeyValue → Bool
differs version [] = true
differs version (kv ∷ kvs) = not (version == kv.version)

-- The loop over the checks, from the check `i` on.
unfoldable pub explain_checks : List ResponseOp → ℕ → List TxnCheck → Outcome (Unit {0})
explain_checks responses i [] = ok tt
explain_checks responses i (c ∷ cs) = do
  r ← range_at i responses
  checked ← throw_if (txn_failed i) (differs c.version r.kvs)
  explain_checks responses (i + 1) cs

abbrev pub xor : Bool → Bool → Bool
xor true b = not b
xor false b = b

-- The inner loop of the second: `j` is the next response. It gives the one after the last read.
unfoldable pub explain_op : List ResponseOp → ℕ → ℕ → List Bool → Outcome ℕ
explain_op responses i j [] = ok j
explain_op responses i j (should_exist ∷ rest) = do
  r ← range_at j responses
  checked ← throw_if (txn_failed i) (xor should_exist (is_present r.kvs))
  explain_op responses i (j + 1) rest

-- The loop over the operations, from the operation `i` on.
unfoldable pub explain_ops : List ResponseOp → ℕ → ℕ → List (List Bool) → Outcome (Unit {0})
explain_ops responses i j [] = ok tt
explain_ops responses i j (expected ∷ rest) = do
  j' ← explain_op responses i j expected
  explain_ops responses (i + 1) j' rest

unfoldable pub explain : List TxnCheck → Plan → List ResponseOp → Outcome (List TxnOpResult)
explain checks plan responses = do
  checked ← explain_checks responses 0 checks
  checked ← explain_ops responses (length checks) (length checks) plan.expected_existence
  throw (service_error (codes "we are sorry for your transaction"))

abbrev pub create_result : TxnOpResult
create_result = record { kind = Kind.create; version = 1 }

unfoldable pub set_result : List ResponseOp → ℕ → Outcome TxnOpResult
set_result responses i = do v ← version_at i responses; ok (record { kind = Kind.set; version = v })

abbrev pub prepend : TxnOpResult → Outcome (List TxnOpResult) → Outcome (List TxnOpResult)
prepend r rest = do rs ← rest; ok (r ∷ rs)

-- The loop that merges the results by their indices.
unfoldable pub merge : List ResponseOp → List ℕ → List ℕ → Outcome (List TxnOpResult)
merge responses [] [] = ok []
merge responses (c ∷ cs) [] = prepend create_result (merge responses cs [])
merge responses [] (s ∷ ss) = do r ← set_result responses s; prepend r (merge responses [] ss)
merge responses (c ∷ cs) (s ∷ ss) = elim (ltb c s) [
  | true ↦ prepend create_result (merge responses cs (s ∷ ss))
  | false ↦ (do r ← set_result responses s; prepend r (merge responses (c ∷ cs) ss))
]

unfoldable pub outcome : List TxnCheck → Plan → TxnResponse → Outcome (List TxnOpResult)
outcome checks plan response =
    if response.succeeded
    then merge response.responses plan.create_indices plan.set_indices
    else explain checks plan response.responses
