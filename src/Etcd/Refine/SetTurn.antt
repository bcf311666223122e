-- ===== src/Etcd/Refine/SetTurn.antt =====
-- etcd_client.hpp: one turn of the loop of `set`, over a service that keeps its contract.
use liboffkv.Base.{
  ℕ, ◌<◌, ◌≡◌, ◌≢◌, refl, ap, ◌∙◌, Bool, true, false, Bool-cases, Option-cases, ◌⊎◌, inl, inr, ◌==◌,
  Bytes, List, [], ◌∷◌, Option, none, some, arith,
}
use liboffkv.Errors.{Outcome, ok, throw, no_entry}
use liboffkv.Client.{Int64}
use liboffkv.Client.Spec.{IsServiceFailure}
use liboffkv.Etcd.Service.{
  TxnRequest, KeyValue, ResponseOp, TxnResponse, Reply, answered, refused, unavailable,
  invalid_argument, other_code,
}
use liboffkv.Etcd.Replies.{was_set, version_at}
use liboffkv.Etcd.Session.{refusal}
use liboffkv.Etcd.Contract.{Agrees, all_hold, run, new_entry}
use liboffkv.Etcd.Contract.Store.{lookup, upsert}
use liboffkv.Etcd.Refine.Runs.{probed, run-probe, run-put_read, run-no_entry, query}
use liboffkv.Etcd.Refine.Tree.{ParentIn}
use liboffkv.Etcd.Refine.SetTxn.{parent_probe, write, set_txn}

-- What one turn makes of the reply to its one call.
abbrev pub read_set : Reply TxnResponse → Outcome (Option Int64)
read_set (answered r) = was_set r
read_set (refused invalid_argument message) = ok none
read_set (refused code message) = throw (refusal code message)

module _ (up : Option Bytes) (key value : Bytes) (expect_lease : Bool)
    (before after : List KeyValue) (limits : TxnRequest → Type 0) where
  -- A turn writes, or throws, or changes nothing and is to be repeated: the key has a lease, which it
  -- did not expect, or it has no entry, whose lease was to be kept, or the service refuses the
  -- transaction whatever is stored.
  abbrev pub Turn : Outcome (Option Int64) → Type 0
  Turn (ok (some n)) =
      ParentIn up before
      × (0 < n)
      × ((lease : Int64) × (after
            ≡ upsert (record { key = key; value = value; version = n; lease = lease }) before))
  Turn (ok none) =
      (after ≡ before)
      × (((expect_lease ≡ false) × ((kv : KeyValue) × (lookup key before ≡ some kv)))
          ⊎ ((expect_lease ≡ true) × (lookup key before ≡ none))
          ⊎ limits (set_txn up key value expect_lease))
  Turn (throw no_entry) = ¬ ParentIn up before × (after ≡ before)
  Turn (throw e) = IsServiceFailure e

  abbrev entry : ℕ → Int64 → KeyValue
  entry n lease = record { key = key; value = value; version = n; lease = lease }

  -- The entry that the put makes; without an entry to keep the lease of, the put is refused.
  put_entry :
      (o : Option KeyValue)
      → ((expect_lease ≡ true) × (o ≡ none))
        ⊎ ((n : ℕ) × (lease : Int64) × (new_entry (write key value expect_lease) o
              ≡ some (entry n lease))
            × (0 < n))
  put_entry none = elim (Bool-cases expect_lease) [
    | inl x ↦ inl (x, refl)
    | inr x ↦ inr (1, 0, rw x refl, omega arith)
  ]
  put_entry (some kv) = inr (_, _, refl, omega arith)

  put_refused :
      (n : ℕ)
      → expect_lease ≡ true
      → lookup key before ≡ none
      → run n (set_txn up key value expect_lease).success before ≡ none
  put_refused n x gone =
      run-no_entry n (write key value expect_lease) (query key false ∷ []) before
        (rw (gone, x) refl)

  put_runs :
      (n m : ℕ) (lease : Int64)
      → new_entry (write key value expect_lease) (lookup key before) ≡ some (entry m lease)
      → run n (set_txn up key value expect_lease).success before ≢ none
  put_runs n m lease made refused_put =
      let done =
        run-put_read n (write key value expect_lease) false before (lookup key before)
          (entry m lease) refl made refl in
      cc (done, refused_put)

  set_done :
      (r : TxnResponse) (n : ℕ) (lease : Int64)
      → r.succeeded ≡ true
      → run r.revision (set_txn up key value expect_lease).success before
        ≡ some (after, r.responses)
      → ParentIn up before
      → new_entry (write key value expect_lease) (lookup key before) ≡ some (entry n lease)
      → 0 < n
      → Turn (was_set r)
  unfolding was_set version_at
  set_done r n lease won ran par made pos =
      let done =
        run-put_read r.revision (write key value expect_lease) false before (lookup key before)
          (entry n lease) refl made refl in
      let out : r.responses
          ≡ ResponseOp.put
            ∷ ResponseOp.range
                (record { kvs = entry n lease ∷ []; count = 1; revision = r.revision })
            ∷ [] =
        cc (done, ran) in
      rw (won, out) (par, pos, (lease, cc (done, ran)))

-- Why the comparisons of a turn fail, if they do.
set_decided :
    (up : Option Bytes) (key value : Bytes) (expect_lease : Bool) (s : List KeyValue)
    → ((all_hold (set_txn up key value expect_lease).compare s ≡ true) × ParentIn up s)
      ⊎ ((all_hold (set_txn up key value expect_lease).compare s ≡ false)
          × ((ParentIn up s
              → (expect_lease ≡ false) × ((kv : KeyValue) × (lookup key s ≡ some kv)))))
unfolding all_hold
set_decided none key value true s = inl (refl, tt)
set_decided (some up) key value true s = elim (Option-cases (lookup up s)) [
  | inl f ↦ inr (rw f refl, λ there. absurd (there f))
  | inr (u, f) ↦ inl (rw f refl, λ n. cc (f, n))
]
set_decided none key value false s = elim (Option-cases (lookup key s)) [
  | inl e ↦ inl (rw e refl, tt)
  | inr (kv, e) ↦ elim (Bool-cases (kv.lease == 0)) [
    | inl l ↦ inl (rw e (ground (arith, l)), tt)
    | inr l ↦ inr (rw e (ground (arith, l)), λ _. (refl, (kv, e)))
  ]
]
set_decided (some up) key value false s = elim (Option-cases (lookup up s)) [
  | inl f ↦ inr (rw f refl, λ there. absurd (there f))
  | inr (u, f) ↦ elim (Option-cases (lookup key s)) [
    | inl e ↦ inl (rw (f, e) refl, λ n. cc (f, n))
    | inr (kv, e) ↦ elim (Bool-cases (kv.lease == 0)) [
      | inl l ↦ inl (rw (f, e) (ground (arith, l)), λ n. cc (f, n))
      | inr l ↦ inr (rw (f, e) (ground (arith, l)), λ _. (refl, (kv, e)))
    ]
  ]
]

set_otherwise :
    (up : Option Bytes) (key value : Bytes) (expect_lease : Bool) (before after : List KeyValue)
    (limits : TxnRequest → Type 0) (r : TxnResponse)
    → r.succeeded ≡ false
    → run r.revision (parent_probe up) before ≡ some (after, r.responses)
    → (ParentIn up before
        → (expect_lease ≡ false) × ((kv : KeyValue) × (lookup key before ≡ some kv)))
    → Turn up key value expect_lease before after limits (was_set r)
set_otherwise none key value expect_lease before after limits r lost ran why =
    let out : r.responses ≡ [] = unfold run in cc ran in
    let same : after ≡ before = unfold run in cc ran in
    unfold was_set in rw (lost, out) (same, inl (why tt))
set_otherwise (some up) key value expect_lease before after limits r lost ran why =
    let (same, out) = run-probe r.revision up before after r.responses ran in
    elim (Option-cases (lookup up before)) [
      | inl f ↦
          let nil : r.responses ≡ probed r.revision none = out ∙ ap (probed r.revision) f in
          unfold was_set in rw (lost, nil) (λ there. there f, same)
      | inr (u, f) ↦
          let there : ParentIn (some up) before = λ n. cc (f, n) in
          let found : r.responses ≡ probed r.revision (some u) = out ∙ ap (probed r.revision) f in
          unfold was_set in rw (lost, found) (same, inl (why there))
    ]

probe_runs : (n : ℕ) (up : Option Bytes) (s : List KeyValue) → run n (parent_probe up) s ≢ none
unfolding run
probe_runs n none s h = cc h
probe_runs n (some up) s h = cc h

pub read_set-Turn :
    (up : Option Bytes) (key value : Bytes) (expect_lease : Bool) (before after : List KeyValue)
    (limits : TxnRequest → Type 0) (reply : Reply TxnResponse)
    → Agrees limits (set_txn up key value expect_lease) before reply after
    → Turn up key value expect_lease before after limits (read_set reply)
unfolding refusal
read_set-Turn up key value expect_lease before after limits (answered r) (held, ran) =
    elim (set_decided up key value expect_lease before) [
      | inl (holds, par) ↦
          let won : r.succeeded ≡ true = held ∙ holds in
          let ran' = rw won at ran in
          elim (put_entry up key value expect_lease before after limits (lookup key before)) [
            | inl (x, gone) ↦
                let refused_put =
                  put_refused up key value expect_lease before after limits r.revision x gone in
                absurd (cc (refused_put, ran'))
            | inr (n, lease, made, pos) ↦
                set_done up key value expect_lease before after limits r n lease won ran' par made
                  pos
          ]
      | inr (fails, why) ↦
          let lost : r.succeeded ≡ false = held ∙ fails in
          set_otherwise up key value expect_lease before after limits r lost (rw lost at ran) why
    ]
read_set-Turn up key value expect_lease before after limits (refused invalid_argument message)
      (inr excessive, same) =
    (same, inr (inr excessive))
read_set-Turn up key value expect_lease before after limits (refused invalid_argument message)
      (inl (n, never), same) =
    elim (set_decided up key value expect_lease before) [
      | inl (holds, par) ↦
          elim (put_entry up key value expect_lease before after limits (lookup key before)) [
            | inl (x, gone) ↦ (same, inr (inl (x, gone)))
            | inr (m, lease, made, pos) ↦ absurd (
                put_runs up key value expect_lease before after limits n m lease made
                  (rw holds at never))
          ]
      | inr (fails, why) ↦ absurd (probe_runs n up before (rw fails at never))
    ]
read_set-Turn up key value expect_lease before after limits (refused unavailable message) h = tt
read_set-Turn up key value expect_lease before after limits (refused other_code message) h = tt
