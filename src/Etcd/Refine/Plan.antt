-- ===== src/Etcd/Refine/Plan.antt =====
-- etcd_client.hpp, `commit`: the requests of a transaction, beside its requirements.
use liboffkv.Base.{
  ◌≡◌, refl, sym, ap, ◌∙◌, Bool, true, false, Bytes, List, [], ◌∷◌, ◌++◌, append-nil, map, arith,
  subst,
}
use liboffkv.Errors.{Outcome, ok}
use liboffkv.Exec.{>>=-eq-ok, returned}
use liboffkv.Key.{KeyPath}
use liboffkv.Client.{TxnCheck, TxnOp, Transaction}
use liboffkv.Etcd.Service.{Etcd}
use liboffkv.Etcd.Session.{as_path, State, Run, lease_if, get_lease, create_lease, set_lease}
use liboffkv.Etcd.Methods.{parent_path}
use liboffkv.Etcd.Builder.{
  make_compare, add_version_compare, add_check_exists, on_success, on_failure, add_range_request,
  add_put_request, add_delete_range_request, push_request,
}
use liboffkv.Etcd.Plan.{Plan, no_plan, plan_check, plan_set, plan_erase}
use liboffkv.Etcd.Transactions.{add_check, add_op, add_each, subtree_of, make_plan}
use liboffkv.Etcd.Refine.Requirements.{
  Requirement, request_of, check_item, check_group, op_item, op_group, expected, parent_key,
  parent_item, each, concat,
}
use liboffkv.Etcd.Refine.Growth.{
  Grows, Grows-refl, Grows-append, plan_create-Grows, concat-append, concat-nothing, concat-single,
}

module _ (p : Etcd) where
  lease_if-prefix : (b : Bool) (s : State p) → (lease_if p b s).1.client.prefix ≡ s.client.prefix
  unfolding lease_if get_lease create_lease set_lease
  lease_if-prefix true s = ground arith
  lease_if-prefix false s = refl

  parent_path_lem :
      (k : KeyPath) (s : State p) → parent_path p k s ≡ (parent_key s.client.prefix k, s)
  unfolding parent_path parent_key
  parent_path_lem k s = ground arith

  -- A step of the loops: what it adds for one element, and that the client keeps its prefix.
  abbrev pub Adds :
      {X : Type 0}
      → Outcome X
      → (X → List Requirement)
      → (X → List (List Bool))
      → Plan
      → Plan
      → (before after : State p) → Type 0
  Adds {X = X} item reads expects plan plan' s s' =
      (x : X) × (item ≡ ok x)
      × Grows plan plan' (reads x) (expects x)
      × (s'.client.prefix ≡ s.client.prefix)

  check_step :
      (c : TxnCheck) (plan plan' : Plan) (s s' : State p)
      → add_check p c plan s ≡ (ok plan', s')
      → Adds (check_item s.client.prefix c) check_group (λ x. []) plan plan' s s'
  unfolding add_check plan_check check_item make_compare add_version_compare on_failure
      add_range_request push_request
  check_step c plan plan' s s' h =
      let (path, t, e, rest) = >>=-eq-ok (as_path p c.key) _ s h in
      (
        (path, c),
        rw (ap (λ q. q.0) e) refl,
        subst (λ q. Grows plan q (check_group (path, c)) []) (returned rest)
            (record { failure = refl; expected_existence = sym (append-nil _) }),
        ap (λ q. q.1.client.prefix) (sym rest) ∙ ap (λ q. q.1.client.prefix) (sym e),
      )

  op_step :
      (op : TxnOp) (plan plan' : Plan) (s s' : State p)
      → add_op p op plan s ≡ (ok plan', s')
      → Adds (op_item s.client.prefix op) op_group (λ x. expected x ∷ []) plan plan' s s'
  unfolding add_op plan_set plan_erase op_item make_compare add_check_exists on_success on_failure
      add_put_request add_delete_range_request add_range_request push_request
  op_step (TxnOp.create k value lease) plan plan' s s' h =
      let (path, t, named, r₁) = >>=-eq-ok (as_path p k) _ s h in
      let (id, u, leased, r₂) = >>=-eq-ok (lease_if p lease) _ t r₁ in
      let (q, v, asked, r₃) = >>=-eq-ok (parent_path p k) _ u r₂ in
      let to_t = ap (λ q. q.1.client.prefix) (sym named) in
      let to_u = ap (λ q. q.1.client.prefix) (sym leased) ∙ lease_if-prefix lease t ∙ to_t in
      let to_v = ap (λ q. q.1.client.prefix) (sym asked ∙ parent_path_lem k u) ∙ to_u in
      let parent_is : parent_key s.client.prefix k ≡ ok q =
        ap (λ x. parent_key x k) (sym to_u) ∙ ap (λ q. q.0) (sym (parent_path_lem k u) ∙ asked) in
      (
        (path, false) ∷ parent_item q,
        rw (ap (λ q. q.0) named, parent_is) refl,
        plan_create-Grows q path value id plan plan' (ap (λ q. q.0) r₃),
        ap (λ q. q.1.client.prefix) (sym r₃) ∙ to_v,
      )
  op_step (TxnOp.set k value) plan plan' s s' h =
      let (path, t, e, rest) = >>=-eq-ok (as_path p k) _ s h in
      (
        (path, true) ∷ [],
        rw (ap (λ q. q.0) e) refl,
        subst (λ q. Grows plan q (op_group ((path, true) ∷ [])) ((true ∷ []) ∷ [])) (returned rest)
            (record { failure = refl; expected_existence = refl }),
        ap (λ q. q.1.client.prefix) (sym rest) ∙ ap (λ q. q.1.client.prefix) (sym e),
      )
  op_step (TxnOp.erase k) plan plan' s s' h =
      let (path, t, e, rest) = >>=-eq-ok (as_path p k) _ s h in
      let (range, u, e', rest') = >>=-eq-ok (subtree_of p k) _ t rest in
      (
        (path, true) ∷ [],
        rw (ap (λ q. q.0) e) refl,
        subst (λ q. Grows plan q (op_group ((path, true) ∷ [])) ((true ∷ []) ∷ [])) (returned rest')
            (record { failure = refl; expected_existence = refl }),
        ap (λ q. q.1.client.prefix) (sym rest')
            ∙ ap (λ q. q.1.client.prefix) (sym e')
            ∙ ap (λ q. q.1.client.prefix) (sym e),
      )

  module _ {A X : Type 0} (f : A → Plan → Run p Plan) (item : KeyPath → A → Outcome X)
      (reads : X → List Requirement) (expects : X → List (List Bool))
      (step : (x : A) (plan plan' : Plan) (s s' : State p)
        → f x plan s ≡ (ok plan', s')
        → Adds (item s.client.prefix x) reads expects plan plan' s s') where
    add_each-Adds :
        (xs : List A) (plan plan' : Plan) (s s' : State p)
        → add_each p f plan xs s ≡ (ok plan', s')
        → Adds
            (each (item s.client.prefix) xs)
            (λ ys. concat (map reads ys))
            (λ ys. concat (map expects ys))
            plan
            plan'
            s
            s'
    unfolding add_each each concat
    add_each-Adds [] plan plan' s s' h = (
      [],
      refl,
      subst (λ r. Grows plan r [] []) (returned h) (Grows-refl plan),
      ap (λ q. q.1.client.prefix) (sym h),
    )
    add_each-Adds (x ∷ xs) plan plan' s s' h =
        let (mid, t, made, rest) = >>=-eq-ok (f x plan) _ s h in
        let (y, e, grows, kept) = step x plan mid s t made in
        let (ys, es, more, kept') = add_each-Adds xs mid plan' t s' rest in
        (
          y ∷ ys,
          rw (e, subst (λ pre. each (item pre) xs ≡ ok ys) kept es) refl,
          Grows-append plan mid plan' _ _ _ _ grows more,
          kept' ∙ kept,
        )

  pub make_plan-Grows :
      (t : Transaction) (plan : Plan) (s s' : State p)
      → make_plan p t s ≡ (ok plan, s')
      → (checks : List (Bytes × TxnCheck)) × (ops : List (List (Bytes × Bool))) × (each
            (check_item s.client.prefix)
            t.checks
          ≡ ok checks)
        × (each (op_item s.client.prefix) t.ops ≡ ok ops)
        × (plan.builder.txn.failure
            ≡ map request_of (concat (map check_group checks ++ map op_group ops)))
        × (plan.expected_existence ≡ map expected ops)
  unfolding make_plan
  make_plan-Grows t plan s s' h =
      let (mid, u, checked, rest) = >>=-eq-ok (add_each p (add_check p) no_plan t.checks) _ s h in
      let (checks, e, first, kept) =
        add_each-Adds (add_check p) check_item check_group (λ x. []) check_step t.checks no_plan mid
          s u checked in
      let (ops, e', second, kept') =
        add_each-Adds (add_op p) op_item op_group (λ x. expected x ∷ []) op_step t.ops mid plan u s'
          rest in
      let whole = Grows-append no_plan mid plan _ _ _ _ first second in
      (
        checks,
        ops,
        e,
        subst (λ pre. each (op_item pre) t.ops ≡ ok ops) kept e',
        whole.failure
            ∙ ap (map request_of) (sym (concat-append (map check_group checks) (map op_group ops))),
        whole.expected_existence
            ∙ ap (λ l. l ++ concat (map (λ x. expected x ∷ []) ops)) (concat-nothing checks)
            ∙ concat-single ops,
      )
