-- ===== src/Etcd/Refine/Swaps.antt =====
-- etcd_client.hpp: the transaction of `cas` and how its reply is read, over the stored keys.
use liboffkv.Base.{
  sym, ℕ, suc, ◌≡◌, ◌≢◌, refl, ap, ◌∙◌, true, false, ◌==◌, Bool-cases, Option-cases, ◌⊎◌, inl, inr,
  Bytes, List, [], ◌∷◌, Option, none, some, arith, All,
}
use liboffkv.Errors.{Outcome, ok, throw, no_entry}
use liboffkv.Key.Segments.{IsSegment}
use liboffkv.Client.{CasResult}
use liboffkv.Client.Spec.{IsServiceFailure, Swaps}
use liboffkv.Etcd.Service.{
  Target, equal, PutRequest, RequestOp, TxnRequest, KeyValue, ResponseOp, TxnResponse, Reply,
  answered, refused, unavailable, invalid_argument, other_code,
}
use liboffkv.Etcd.Naming.Laws.{key_of}
use liboffkv.Etcd.Builder.{
  make_compare, add_version_compare, on_success, on_failure, push_request, add_put_request,
  add_range_request, failure,
}
use liboffkv.Etcd.Requests.{cas_builder}
use liboffkv.Etcd.Replies.{compared, version_at}
use liboffkv.Etcd.Session.{refusal}
use liboffkv.Etcd.Contract.{Agrees, all_hold, run, version_of}
use liboffkv.Etcd.Contract.Store.{lookup, upsert}
use liboffkv.Etcd.Refine.Runs.{probe, probed, run-probe, query, run-put_read}
use liboffkv.Etcd.Refine.Tree.{
  tree_of, shown, shown-none_iff, Written-upsert, Unchanged-same, IsKey,
}

abbrev write : Bytes → Bytes → PutRequest
write key value = record { key = key; value = value; lease = 0; ignore_lease = true }

abbrev pub cas_txn : Bytes → Bytes → ℕ → TxnRequest
cas_txn key value version = record {
  compare = record { key = key; target = Target.version; result = equal; number = version } ∷ [];
  success = RequestOp.put (write key value) ∷ query key true ∷ [];
  failure = probe key ∷ [];
}

pub cas_builder-eq :
    (key value : Bytes) (version : ℕ)
    → cas_builder key value version
      ≡ ok (record { txn = cas_txn key value version; status = failure })
unfolding cas_builder make_compare add_version_compare on_success on_failure push_request
    add_put_request add_range_request
cas_builder-eq key value version = refl

abbrev pub read_cas : Reply TxnResponse → Outcome CasResult
read_cas (answered r) = compared r
read_cas (refused code message) = throw (refusal code message)

abbrev rewritten : Bytes → Bytes → KeyValue → KeyValue
rewritten key value kv = record {
  key = key;
  value = value;
  version = suc kv.version;
  lease = kv.lease;
}

module _ (key value : Bytes) (version : ℕ) (before after : List KeyValue) where
  abbrev StoreSwaps : Outcome CasResult → Type 0
  StoreSwaps (ok r) =
      ((kv : KeyValue) × (lookup key before ≡ some kv)
        × (kv.version ≡ version)
        × (r.version ≡ suc kv.version)
        × (after ≡ upsert (rewritten key value kv) before))
      ⊎ ((kv : KeyValue) × (lookup key before ≡ some kv)
          × (kv.version ≢ version)
          × (r.version ≡ 0)
          × (after ≡ before))
  StoreSwaps (throw no_entry) = (lookup key before ≡ none) × (after ≡ before)
  StoreSwaps (throw e) = IsServiceFailure e

  module _ (r : TxnResponse) where
    compared_swapped :
        (kv : KeyValue)
        → r.succeeded ≡ true
        → run r.revision (cas_txn key value version).success before ≡ some (after, r.responses)
        → lookup key before ≡ some kv
        → kv.version ≡ version
        → StoreSwaps (compared r)
    unfolding compared version_at
    compared_swapped kv won ran e same =
        let done =
          run-put_read r.revision (write key value) true before (some kv) (rewritten key value kv) e
            refl refl in
        let out : r.responses ≡ ResponseOp.put ∷ probed r.revision (some (rewritten key value kv)) =
          cc (done, ran) in
        rw (won, out) (inl (kv, e, same, refl, cc (done, ran)))

    compared_otherwise :
        (o : Option KeyValue)
        → r.succeeded ≡ false
        → after ≡ before
        → r.responses ≡ probed r.revision o
        → lookup key before ≡ o
        → version_of o ≢ version
        → StoreSwaps (compared r)
    unfolding compared
    compared_otherwise none lost same out e other = rw (lost, out) (e, same)
    compared_otherwise (some kv) lost same out e other =
        rw (lost, out) (inr (kv, e, other, refl, same))

-- The comparison holds for the key's version, which is not 0.
cas_decided :
    (key value : Bytes) (version : ℕ) (s : List KeyValue)
    → version ≢ 0
    → ((kv : KeyValue) × (all_hold (cas_txn key value version).compare s ≡ true)
        × (lookup key s ≡ some kv)
        × (kv.version ≡ version))
      ⊎ ((all_hold (cas_txn key value version).compare s ≡ false)
          × (version_of (lookup key s) ≢ version))
unfolding all_hold
cas_decided key value version s nz = elim (Option-cases (lookup key s)) [
  | inl e ↦ inr (rw e (ground (arith, nz)), rw e (λ z. nz (sym z)))
  | inr (kv, e) ↦ elim (Bool-cases (kv.version == version)) [
    | inl f ↦ inl (kv, rw e (ground (arith, f)), e, ground (arith, f))
    | inr f ↦ inr (rw e (ground (arith, f)), rw e (ground (arith, f)))
  ]
]

pub read_cas-StoreSwaps :
    (limits : TxnRequest → Type 0) (key value : Bytes) (version : ℕ) (before after : List KeyValue)
    (reply : Reply TxnResponse)
    → version ≢ 0
    → Agrees limits (cas_txn key value version) before reply after
    → StoreSwaps key value version before after (read_cas reply)
unfolding refusal
read_cas-StoreSwaps limits key value version before after (answered r) nz (held, ran) =
    elim (cas_decided key value version before nz) [
      | inl (kv, holds, e, same) ↦
          let won : r.succeeded ≡ true = held ∙ holds in
          compared_swapped key value version before after r kv won (rw won at ran) e same
      | inr (fails, other) ↦
          let lost : r.succeeded ≡ false = held ∙ fails in
          let (same, out) = run-probe r.revision key before after r.responses (rw lost at ran) in
          compared_otherwise key value version before after r (lookup key before) lost same out refl
            other
    ]
read_cas-StoreSwaps limits key value version before after (refused unavailable message) nz h = tt
read_cas-StoreSwaps limits key value version before after (refused invalid_argument message) nz h =
    tt
read_cas-StoreSwaps limits key value version before after (refused other_code message) nz h = tt

-- The same, of the tree.
pub StoreSwaps-Swaps :
    (ps k : List Bytes) (value : Bytes) (version : ℕ) (before after : List KeyValue)
    → All IsSegment ps
    → IsKey k
    → (o : Outcome CasResult) → StoreSwaps (key_of ps k) value version before after o
    → Swaps (tree_of ps before) (tree_of ps after) k value version o
StoreSwaps-Swaps ps k value version before after v key (ok r) (inl (kv, e, same, next, new)) = inl (
  (kv.value, rw (e, same) refl),
  λ zero. absurd (omega (arith, zero, next)),
  rw next (Written-upsert ps v before k (rewritten (key_of ps k) value kv) key refl new),
)
StoreSwaps-Swaps ps k value version before after v key (ok r) (inr (kv, e, other, nil, same)) =
    inr (((kv.value, kv.version), ap shown e, other), nil, Unchanged-same ps same)
StoreSwaps-Swaps ps k value version before after v key (throw no_entry) (gone, same) =
    ((shown-none_iff _).1 gone, Unchanged-same ps same)
StoreSwaps-Swaps ps k value version before after v key (throw _) h = h
