-- ===== src/Etcd/Refine/RemoveTxn.antt =====
-- etcd_client.hpp: the transaction of `erase`, over a service that keeps its contract.
use liboffkv.Base.{
  ℕ, ◌≡◌, ◌≢◌, refl, ◌∙◌, true, false, ◌==◌, ==_iff, Bool-cases, Option-cases, ◌⊎◌, inl, inr, Bytes,
  List, [], ◌∷◌, Option, none, some, if◌then◌else◌, arith,
}
use liboffkv.Errors.{Outcome, ok, throw, no_entry}
use liboffkv.Client.Spec.{IsServiceFailure}
use liboffkv.Etcd.Service.{
  Compare, Target, equal, RequestOp, TxnRequest, KeyValue, TxnResponse, Reply, answered, refused,
  unavailable, invalid_argument, other_code,
}
use liboffkv.Etcd.Builder.{
  make_compare, add_check_exists, add_version_compare, on_success, on_failure, push_request,
  add_delete_range_request, add_range_request, failure,
}
use liboffkv.Etcd.Requests.{erase_builder}
use liboffkv.Etcd.Replies.{erased}
use liboffkv.Etcd.Session.{refusal}
use liboffkv.Etcd.Contract.{Agrees, all_hold, run}
use liboffkv.Etcd.Contract.Store.{lookup, remove_within}
use liboffkv.Etcd.Refine.Runs.{present, probe, probed, run-probe}

-- The entry is there, and has the version, if that is not 0.
abbrev pub accepted : Bytes → ℕ → Compare
accepted key version =
    if version == 0
    then present key
    else record { key = key; target = Target.version; result = equal; number = version }

abbrev pub delete : Bytes → Bytes → RequestOp
delete key end = RequestOp.delete_range (record { key = key; range_end = end })

abbrev pub erase_txn : Bytes → Bytes × Bytes → ℕ → TxnRequest
erase_txn key range version = record {
  compare = accepted key version ∷ [];
  success = delete key [] ∷ delete range.0 range.1 ∷ [];
  failure = probe key ∷ [];
}

pub erase_builder-eq :
    (key : Bytes) (range : Bytes × Bytes) (version : ℕ)
    → erase_builder key range version
      ≡ ok (record { txn = erase_txn key range version; status = failure })
unfolding erase_builder make_compare add_check_exists add_version_compare on_success on_failure
    push_request add_delete_range_request add_range_request
erase_builder-eq key range version = elim (Bool-cases (version == 0)) [
  | inl e ↦ rw e refl
  | inr e ↦ rw e refl
]

abbrev pub read_erase : Reply TxnResponse → Outcome (Unit {0})
read_erase (answered r) = erased r
read_erase (refused code message) = throw (refusal code message)

module _ (key : Bytes) (range : Bytes × Bytes) (version : ℕ) (before after : List KeyValue) where
  abbrev pub StoreErases : Outcome (Unit {0}) → Type 0
  StoreErases (ok _) =
      ((kv : KeyValue) × (lookup key before ≡ some kv)
        × ((version ≡ 0) ⊎ (kv.version ≡ version))
        × (after ≡ remove_within range.0 range.1 (remove_within key [] before)))
      ⊎ ((kv : KeyValue) × (lookup key before ≡ some kv)
          × (version ≢ 0)
          × (kv.version ≢ version)
          × (after ≡ before))
  StoreErases (throw no_entry) = (lookup key before ≡ none) × (after ≡ before)
  StoreErases (throw e) = IsServiceFailure e

  -- Whether the comparison holds.
  erase_decided :
      ((kv : KeyValue) × (all_hold (accepted key version ∷ []) before ≡ true)
        × (lookup key before ≡ some kv)
        × ((version ≡ 0) ⊎ (kv.version ≡ version)))
      ⊎ ((all_hold (accepted key version ∷ []) before ≡ false)
          × ((kv : KeyValue)
              → lookup key before ≡ some kv
              → (version ≢ 0) × (kv.version ≢ version)))
  unfolding all_hold
  erase_decided = elim (Option-cases (lookup key before)) [
    | inl e ↦ inr (
      elim (Bool-cases (version == 0)) [
        | inl z ↦ rw (z, e) refl
        | inr z ↦ rw (z, e) (ground (arith, z))
      ],
      λ kv there. cc (e, there),
    )
    | inr (kv, e) ↦ elim (Bool-cases (version == 0)) [
      | inl z ↦ inl (kv, rw (z, e) refl, e, inl ((==_iff version 0).0 z))
      | inr z ↦ elim (Bool-cases (kv.version == version)) [
        | inl f ↦ inl (kv, rw (z, e) (ground (arith, f)), e, inr ((==_iff _ version).0 f))
        | inr f ↦ inr (
          rw (z, e) (ground (arith, f)),
          λ other there.
              let same : other ≡ kv = cc (e, there) in
              (ground (arith, z), rw same (ground (arith, f))),
        )
      ]
    ]
  ]

  erased_otherwise :
      (r : TxnResponse) (o : Option KeyValue)
      → r.succeeded ≡ false
      → after ≡ before
      → r.responses ≡ probed r.revision o
      → lookup key before ≡ o
      → ((kv : KeyValue) → lookup key before ≡ some kv → (version ≢ 0) × (kv.version ≢ version))
      → StoreErases (erased r)
  unfolding erased
  erased_otherwise r none lost same out e other = rw (lost, out) (e, same)
  erased_otherwise r (some kv) lost same out e other =
      rw (lost, out) (inr (kv, e, (other kv e).0, (other kv e).1, same))

  erased_done :
      (r : TxnResponse) (kv : KeyValue)
      → r.succeeded ≡ true
      → run r.revision (erase_txn key range version).success before ≡ some (after, r.responses)
      → lookup key before ≡ some kv
      → ((version ≡ 0) ⊎ (kv.version ≡ version))
      → StoreErases (erased r)
  unfolding erased run
  erased_done r kv won ran e fits = rw won (inl (kv, e, fits, ground (arith, ran)))

  pub read_erase-StoreErases :
      (limits : TxnRequest → Type 0) (reply : Reply TxnResponse)
      → Agrees limits (erase_txn key range version) before reply after
      → StoreErases (read_erase reply)
  unfolding refusal
  read_erase-StoreErases limits (answered r) (held, ran) = elim erase_decided [
    | inl (kv, holds, e, fits) ↦
        let won : r.succeeded ≡ true = held ∙ holds in erased_done r kv won (rw won at ran) e fits
    | inr (fails, other) ↦
        let lost : r.succeeded ≡ false = held ∙ fails in
        let (same, out) = run-probe r.revision key before after r.responses (rw lost at ran) in
        erased_otherwise r (lookup key before) lost same out refl other
  ]
  read_erase-StoreErases limits (refused unavailable message) h = tt
  read_erase-StoreErases limits (refused invalid_argument message) h = tt
  read_erase-StoreErases limits (refused other_code message) h = tt
