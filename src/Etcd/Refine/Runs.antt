-- ===== src/Etcd/Refine/Runs.antt =====
-- etcd_client.hpp: the requests that the methods share, and what a service that keeps its contract
-- makes of them.
use liboffkv.Base.{
  ℕ, ◌≡◌, refl, ap, true, Bool, Option-cases, inl, inr, Bytes, bytes_eq_self, List, [], ◌∷◌, Option,
  none, some, arith, length, map, ◌∙◌,
}
use liboffkv.Client.Spec.{IsServiceFailure}
use liboffkv.Etcd.Service.{
  Compare, Target, equal, greater, PutRequest, RequestOp, KeyValue, ResponseOp, StatusCode,
  unavailable, invalid_argument, other_code,
}
use liboffkv.Etcd.Session.{refusal}
use liboffkv.Etcd.Contract.{run, strip, one, new_entry}
use liboffkv.Etcd.Contract.Store.{lookup, upsert, lookup-upsert}

pub refusal-IsServiceFailure :
    (code : StatusCode) (message : Bytes) → IsServiceFailure (refusal code message)
unfolding refusal
refusal-IsServiceFailure unavailable message = tt
refusal-IsServiceFailure invalid_argument message = tt
refusal-IsServiceFailure other_code message = tt

-- The comparisons by which a key is there, or is not.
abbrev pub present : Bytes → Compare
present key = record { key = key; target = Target.create; result = greater; number = 0 }

abbrev pub absent : Bytes → Compare
absent key = record { key = key; target = Target.create; result = equal; number = 0 }

-- The read that tells why a transaction has failed.
abbrev pub probe : Bytes → RequestOp
probe key = RequestOp.range (record { key = key; range_end = []; limit = 1; keys_only = true })

abbrev pub parent_present : Option Bytes → List Compare
parent_present none = []
parent_present (some up) = present up ∷ []

-- The response to the read of a key.
abbrev pub probed : ℕ → Option KeyValue → List ResponseOp
probed n o =
    ResponseOp.range
      (record { kvs = map (strip true) (one o); count = length (one o); revision = n })
    ∷ []

pub run-probe :
    (n : ℕ) (key : Bytes) (s after : List KeyValue) (rs : List ResponseOp)
    → run n (probe key ∷ []) s ≡ some (after, rs)
    → (after ≡ s) × (rs ≡ probed n (lookup key s))
unfolding run
run-probe n key s after rs h = (
  ground (arith, h),
  elim (Option-cases (lookup key s)) [
    | inl e ↦ rw e (ground (arith, h, e))
    | inr (kv, e) ↦ rw e (ground (arith, h, e))
  ],
)

-- A read of the key.
abbrev pub query : Bytes → Bool → RequestOp
query key keys_only =
    RequestOp.range (record { key = key; range_end = []; limit = 1; keys_only = keys_only })

run-put :
    (n : ℕ) (q : PutRequest) (op : RequestOp) (s s' : List KeyValue) (kv : KeyValue)
    (r : ResponseOp)
    → new_entry q (lookup q.key s) ≡ some kv
    → run n (op ∷ []) (upsert kv s) ≡ some (s', r ∷ [])
    → run n (RequestOp.put q ∷ op ∷ []) s ≡ some (s', ResponseOp.put ∷ r ∷ [])
unfolding run
run-put n q op s s' kv r made rest = ground (arith, made, rest)

-- A put and the read of what it has put.
pub run-no_entry :
    (n : ℕ) (q : PutRequest) (ops : List RequestOp) (s : List KeyValue)
    → new_entry q (lookup q.key s) ≡ none
    → run n (RequestOp.put q ∷ ops) s ≡ none
unfolding run
run-no_entry n q ops s made = ground (arith, made)

pub run-put_read :
    (n : ℕ) (q : PutRequest) (keys_only : Bool) (s : List KeyValue) (o : Option KeyValue)
    (kv : KeyValue)
    → lookup q.key s ≡ o
    → new_entry q o ≡ some kv
    → kv.key ≡ q.key
    → run n (RequestOp.put q ∷ query q.key keys_only ∷ []) s
      ≡ some (
        upsert kv s,
        ResponseOp.put
            ∷ ResponseOp.range (record { kvs = strip keys_only kv ∷ []; count = 1; revision = n })
            ∷ [],
      )
unfolding run
run-put_read n q keys_only s o kv e made name =
    let there : lookup q.key (upsert kv s) ≡ some kv =
      lookup-upsert q.key kv s ∙ rw (name, bytes_eq_self q.key) refl in
    run-put n q (query q.key keys_only) s (upsert kv s) kv _ (ap (new_entry q) e ∙ made)
      (ground (arith, there))
