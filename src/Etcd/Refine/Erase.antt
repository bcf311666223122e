-- ===== src/Etcd/Refine/Erase.antt =====
-- etcd_client.hpp, `commit`: a set behind an erase.
use liboffkv.Base.{
  ℕ, zero, suc, some, get_elem?, false, ◌≡◌, refl, ap, ◌∙◌, true, Bytes, List, [], ◌∷◌, Each, subst,
}
use liboffkv.Errors.{ok, throw, undefined}
use liboffkv.Exec.{pure, >>=-eq-ok, returned}
use liboffkv.Key.{KeyPath}
use liboffkv.Client.{TxnOp, Transaction}
use liboffkv.Etcd.Service.{Etcd, PutRequest, RequestOp, ResponseOp, TxnResponse, answered}
use liboffkv.Etcd.Session.{State, as_path, commit_txn}
use liboffkv.Etcd.Builder.{
  make_compare, add_check_exists, on_success, on_failure, add_range_request, add_put_request,
  add_delete_range_request, push_request,
}
use liboffkv.Etcd.Plan.{Plan, no_plan, plan_erase, plan_set}
use liboffkv.Etcd.Outcomes.{outcome, merge, set_result}
use liboffkv.Etcd.Replies.{version_at}
use liboffkv.Etcd.Transactions.{add_check, add_op, add_each, subtree_of, make_plan, commit}
use liboffkv.Etcd.Refine.Growth.{ok-injective}

-- etcd answers each request with a response of its kind.
abbrev pub IsOfKind : RequestOp → ResponseOp → Type 0
IsOfKind (RequestOp.put q) ResponseOp.put = Unit
IsOfKind (RequestOp.range q) (ResponseOp.range r) = Unit
IsOfKind (RequestOp.delete_range q) ResponseOp.delete_range = Unit
IsOfKind _ _ = ⊥

put_at :
    (i : ℕ) (q : PutRequest) (requests : List RequestOp) (responses : List ResponseOp)
    → get_elem? requests i ≡ some (RequestOp.put q)
    → Each IsOfKind requests responses
    → get_elem? responses i ≡ some ResponseOp.put
put_at i q [] responses at h = cc
put_at i q (x ∷ xs) [] at h = absurd h
put_at zero q (RequestOp.put x ∷ xs) (ResponseOp.put ∷ ys) at h = refl
put_at zero q (RequestOp.put x ∷ xs) (ResponseOp.range r ∷ ys) at h = absurd h.0
put_at zero q (RequestOp.put x ∷ xs) (ResponseOp.delete_range ∷ ys) at h = absurd h.0
put_at zero q (RequestOp.range x ∷ xs) (y ∷ ys) at h = cc
put_at zero q (RequestOp.delete_range x ∷ xs) (y ∷ ys) at h = cc
put_at (suc i) q (x ∷ xs) (y ∷ ys) at h = put_at i q xs ys at h.1

-- What `commit` noted of the set, and the request to which its index leads.
abbrev Misses : Bytes → Bytes → Plan → Type 0
Misses path value plan =
    (plan.create_indices ≡ [])
    × (plan.set_indices ≡ 2 ∷ [])
    × (get_elem? plan.builder.txn.success 2
        ≡ some
            (RequestOp.put (record { key = path; value = value; lease = 0; ignore_lease = false })))

planned :
    (path path' value : Bytes) (range : Bytes × Bytes) (mid plan : Plan)
    → plan_erase path range no_plan ≡ ok mid
    → plan_set path' value mid ≡ ok plan
    → Misses path' value plan
unfolding plan_erase plan_set make_compare add_check_exists on_success on_failure add_range_request
    add_put_request add_delete_range_request push_request
planned path path' value range mid plan erased is_set =
    subst (λ m. plan_set path' value m ≡ ok plan → Misses path' value plan) (ok-injective erased)
      (λ h. subst (Misses path' value) (ok-injective h) (refl, refl, refl)) is_set

outcome-undefined :
    (path value : Bytes) (plan : Plan) (response : TxnResponse)
    → Misses path value plan
    → response.succeeded ≡ true
    → Each IsOfKind plan.builder.txn.success response.responses
    → outcome [] plan response ≡ throw undefined
unfolding outcome merge set_result version_at
outcome-undefined path value plan response (no_create, at_two, there) won kinds =
    rw (won, no_create, at_two, put_at 2 _ plan.builder.txn.success response.responses there kinds)
      refl

module _ (p : Etcd) (k k' : KeyPath) (value : Bytes) where
  abbrev pub erase_and_set : Transaction
  erase_and_set = record { checks = []; ops = TxnOp.erase k ∷ TxnOp.set k' value ∷ [] }

  -- A transaction that erases one key and then sets another: if etcd accepts it and answers each
  -- request with a response of its kind, `commit` reads the response to the put as one to a range,
  -- which is undefined behaviour.
  pub commit-erase_and_set :
      (plan : Plan) (s s' : State p) (response : TxnResponse) (w : p.World)
      → make_plan p erase_and_set s ≡ (ok plan, s')
      → p.txn plan.builder.txn s'.world ≡ (answered response, w)
      → response.succeeded ≡ true
      → Each IsOfKind plan.builder.txn.success response.responses
      → (commit p erase_and_set s).0 ≡ throw undefined
  unfolding commit commit_txn make_plan add_each add_op
  commit-erase_and_set plan s s' response w made sent won kinds =
      let (m₀, s₀, none_checked, r₀) =
        >>=-eq-ok (add_each p (add_check p) no_plan [])
          (λ m. add_each p (add_op p) m erase_and_set.ops) s made in
      let (mid, t, erased, r₁) =
        >>=-eq-ok (add_op p (TxnOp.erase k) m₀)
          (λ m. add_each p (add_op p) m (TxnOp.set k' value ∷ [])) s₀ r₀ in
      let (last, u, is_set, r₂) = >>=-eq-ok (add_op p (TxnOp.set k' value) mid) pure t r₁ in
      let (path, a, _, e₁) = >>=-eq-ok (as_path p k) _ s₀ erased in
      let (range, b, _, e₂) = >>=-eq-ok (subtree_of p k) _ a e₁ in
      let (path', c, _, e₃) = >>=-eq-ok (as_path p k') _ t is_set in
      let first : plan_erase path range no_plan ≡ ok mid =
        ap (plan_erase path range) (returned none_checked) ∙ ap (λ q. q.0) e₂ in
      let second : plan_set path' value mid ≡ ok plan = ap (λ q. q.0) e₃ ∙ ap ok (returned r₂) in
      let misses = planned path path' value range mid plan first second in
      rw (made, sent, outcome-undefined path' value plan response misses won kinds) refl
