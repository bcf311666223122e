-- ===== src/Etcd/Refine/Indices.antt =====
-- etcd_client.hpp, `commit`: the indices at which it will read the responses to its sets.
use liboffkv.Base.{
  ℕ, zero, suc, ◌+◌, ◌≡◌, refl, ap, ◌∙◌, false, Bytes, List, [], ◌∷◌, ◌++◌, Option, none, some, All,
  All-append, length, length-append, get_elem?, arith, subst,
}
use liboffkv.Errors.{ok}
use liboffkv.Exec.{>>=-eq-ok, returned}
use liboffkv.Client.{Int64, TxnCheck, TxnOp, Transaction}
use liboffkv.Etcd.Service.{Etcd, RequestOp}
use liboffkv.Etcd.Session.{State, Run, as_path, lease_if}
use liboffkv.Etcd.Builder.{
  make_compare, add_version_compare, add_check_exists, add_check_not_exists, on_success, on_failure,
  add_range_request, add_put_request, push_request,
}
use liboffkv.Etcd.Plan.{Plan, no_plan, plan_check, plan_create, plan_set, plan_parent}
use liboffkv.Etcd.Methods.{parent_path}
use liboffkv.Etcd.Transactions.{add_check, add_op, add_each, make_plan}
use liboffkv.Etcd.Refine.Requirements.{probe}
use liboffkv.Etcd.Refine.Growth.{ok-injective}

-- The request at the index reads one key, with its value.
abbrev pub IsReadAt : List RequestOp → ℕ → Type 0
IsReadAt requests i = (key : Bytes) × (get_elem? requests i ≡ some (probe key false))

-- `total_op_number` counts the requests on success, and each set has its read where it is sought.
pub record IsAligned (plan : Plan) : Type 0 where
  pub counted : length plan.builder.txn.success ≡ plan.total_op_number
  pub reads : All (IsReadAt plan.builder.txn.success) plan.set_indices

get_elem?-append :
    (xs ys : List RequestOp) (i : ℕ) {q : RequestOp}
    → get_elem? xs i ≡ some q
    → get_elem? (xs ++ ys) i ≡ some q
get_elem?-append [] ys i h = cc
get_elem?-append (x ∷ xs) ys zero h = h
get_elem?-append (x ∷ xs) ys (suc i) h = get_elem?-append xs ys i h

get_elem?-length :
    (xs : List RequestOp) (q : RequestOp) → get_elem? (xs ++ q ∷ []) (length xs) ≡ some q
get_elem?-length [] q = refl
get_elem?-length (x ∷ xs) q = get_elem?-length xs q

IsReadAt-append :
    (xs ys : List RequestOp) (is : List ℕ) → All (IsReadAt xs) is → All (IsReadAt (xs ++ ys)) is
IsReadAt-append xs ys [] h = tt
IsReadAt-append xs ys (i ∷ is) h =
    ((h.0.0, get_elem?-append xs ys i h.0.1), IsReadAt-append xs ys is h.1)

plan_check-IsAligned :
    (path : Bytes) (v : Int64) (plan plan' : Plan)
    → IsAligned plan
    → plan_check path v plan ≡ ok plan'
    → IsAligned plan'
unfolding plan_check make_compare add_version_compare on_failure add_range_request push_request
plan_check-IsAligned path v plan plan' a h =
    subst IsAligned (ok-injective h) (record { counted = a.counted; reads = a.reads })

plan_create-IsAligned :
    (q : Option Bytes) (path value : Bytes) (id : Int64) (plan plan' : Plan)
    → IsAligned plan
    → plan_create q path value id plan ≡ ok plan'
    → IsAligned plan'
unfolding plan_create plan_parent make_compare add_check_exists add_check_not_exists on_success
    on_failure add_put_request add_range_request push_request
plan_create-IsAligned none path value id plan plan' a h = subst IsAligned (ok-injective h) (record {
  counted = length-append plan.builder.txn.success _ ∙ ap (λ n. n + 1) a.counted;
  reads = IsReadAt-append plan.builder.txn.success _ plan.set_indices a.reads;
})
plan_create-IsAligned (some q) path value id plan plan' a h =
    subst IsAligned (ok-injective h) (record {
      counted = length-append plan.builder.txn.success _ ∙ ap (λ n. n + 1) a.counted;
      reads = IsReadAt-append plan.builder.txn.success _ plan.set_indices a.reads;
    })

plan_set-IsAligned :
    (path value : Bytes) (plan plan' : Plan)
    → IsAligned plan
    → plan_set path value plan ≡ ok plan'
    → IsAligned plan'
unfolding plan_set make_compare add_check_exists on_success on_failure add_put_request
    add_range_request push_request
plan_set-IsAligned path value plan plan' a h =
    let before = plan.builder.txn.success in
    let put : List RequestOp =
      RequestOp.put (record { key = path; value = value; lease = 0; ignore_lease = false }) ∷ [] in
    let place : length (before ++ put) ≡ plan.total_op_number + 1 =
      length-append before put ∙ ap (λ n. n + 1) a.counted in
    subst IsAligned (ok-injective h) (record {
      counted = length-append (before ++ put) _ ∙ omega (arith, place);
      reads =
          All-append _ plan.set_indices _
            (IsReadAt-append (before ++ put) _ plan.set_indices
              (IsReadAt-append before put plan.set_indices a.reads))
            (
              (
                path,
                subst
                    (λ n.
                      get_elem? ((before ++ put) ++ probe path false ∷ []) n
                      ≡ some (probe path false))
                    place (get_elem?-length (before ++ put) (probe path false)),
              ),
              tt,
            );
    })

abbrev pub IsNoErase : TxnOp → Type 0
IsNoErase (TxnOp.erase k) = ⊥
IsNoErase _ = Unit

module _ (p : Etcd) where
  add_check-IsAligned :
      (c : TxnCheck) (plan plan' : Plan) (s s' : State p)
      → Unit {0}
      → IsAligned plan
      → add_check p c plan s ≡ (ok plan', s')
      → IsAligned plan'
  unfolding add_check
  add_check-IsAligned c plan plan' s s' _ a h =
      let (path, t, _, rest) = >>=-eq-ok (as_path p c.key) _ s h in
      plan_check-IsAligned path c.version plan plan' a (ap (λ q. q.0) rest)

  add_op-IsAligned :
      (op : TxnOp) (plan plan' : Plan) (s s' : State p)
      → IsNoErase op
      → IsAligned plan
      → add_op p op plan s ≡ (ok plan', s')
      → IsAligned plan'
  unfolding add_op
  add_op-IsAligned (TxnOp.create k value lease) plan plan' s s' _ a h =
      let (path, t, _, r₁) = >>=-eq-ok (as_path p k) _ s h in
      let (id, u, _, r₂) = >>=-eq-ok (lease_if p lease) _ t r₁ in
      let (q, v, _, r₃) = >>=-eq-ok (parent_path p k) _ u r₂ in
      plan_create-IsAligned q path value id plan plan' a (ap (λ q. q.0) r₃)
  add_op-IsAligned (TxnOp.set k value) plan plan' s s' _ a h =
      let (path, t, _, rest) = >>=-eq-ok (as_path p k) _ s h in
      plan_set-IsAligned path value plan plan' a (ap (λ q. q.0) rest)
  add_op-IsAligned (TxnOp.erase k) plan plan' s s' n a h = absurd n

  add_each-IsAligned :
      {A : Type 0} (f : A → Plan → Run p Plan) (Allowed : A → Type 0)
      → ((x : A) (plan plan' : Plan) (s s' : State p)
          → Allowed x
          → IsAligned plan
          → f x plan s ≡ (ok plan', s')
          → IsAligned plan')
      → (xs : List A) (plan plan' : Plan) (s s' : State p) → All Allowed xs
      → IsAligned plan
      → add_each p f plan xs s ≡ (ok plan', s')
      → IsAligned plan'
  unfolding add_each
  add_each-IsAligned f Allowed step [] plan plan' s s' v a h = subst IsAligned (returned h) a
  add_each-IsAligned f Allowed step (x ∷ xs) plan plan' s s' v a h =
      let (mid, t, made, rest) = >>=-eq-ok (f x plan) _ s h in
      add_each-IsAligned f Allowed step xs mid plan' t s' v.1 (step x plan mid s t v.0 a made) rest

  all_allowed : (cs : List TxnCheck) → All (λ c. Unit {0}) cs
  all_allowed [] = tt
  all_allowed (c ∷ cs) = (tt, all_allowed cs)

  -- In a transaction without an erase, `total_op_number` counts the requests that are made on
  -- success, and each index in `set_indices` is that of a read.
  pub make_plan-IsAligned :
      (t : Transaction) (plan : Plan) (s s' : State p)
      → All IsNoErase t.ops
      → make_plan p t s ≡ (ok plan, s')
      → IsAligned plan
  unfolding make_plan
  make_plan-IsAligned t plan s s' v h =
      let (mid, u, checked, rest) = >>=-eq-ok (add_each p (add_check p) no_plan t.checks) _ s h in
      add_each-IsAligned (add_op p) IsNoErase add_op-IsAligned t.ops mid plan u s' v
        (add_each-IsAligned (add_check p) (λ c. Unit) add_check-IsAligned t.checks no_plan mid s u
          (all_allowed t.checks) (record { counted = refl; reads = tt }) checked)
        rest
