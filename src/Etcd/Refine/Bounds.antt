-- ===== src/Etcd/Refine/Bounds.antt =====
-- etcd_client.hpp, `commit`: the index that `TxnFailed` carries.
use liboffkv.Base.{
  ℕ, suc, ◌+◌, ◌<◌, ◌≤◌, ◌≡◌, refl, ap, ◌∙◌, Bool, true, false, ltb, Bool-cases, inl, inr, List, [],
  ◌∷◌, Option, none, some, arith, length, length-map, get_elem?,
}
use liboffkv.Errors.{Outcome, ok, throw, txn_failed, ◌>>=◌, >>=-eq-ok}
use liboffkv.Client.{TxnCheck, TxnOpResult, Transaction}
use liboffkv.Etcd.Service.{KeyValue, ResponseOp, TxnResponse, answered, Etcd}
use liboffkv.Etcd.Plan.{Plan}
use liboffkv.Etcd.Replies.{as_range, range_at, first_version, version_at, is_present}
use liboffkv.Etcd.Outcomes.{
  throw_if, differs, xor, explain_checks, explain_op, explain_ops, explain, set_result, merge,
  outcome, prepend, create_result,
}
use liboffkv.Etcd.Session.{State, commit_txn}
use liboffkv.Etcd.Transactions.{make_plan, commit}
use liboffkv.Etcd.Refine.Requirements.{each, expected}
use liboffkv.Etcd.Refine.Plan.{make_plan-Grows}

-- A `TxnFailed` carries an index below `n`.
abbrev pub Below : {A : Type 0} → ℕ → Outcome A → Type 0
Below n (throw (txn_failed i)) = i < n
Below n (throw e) = Unit
Below n (ok a) = Unit

Below-bind :
    {A B : Type 0} (n : ℕ) (m : Outcome A) (f : A → Outcome B)
    → Below n m
    → ((a : A) → Below n (f a))
    → Below n (m >>= f)
Below-bind n (ok a) f h k = k a
Below-bind n (throw (txn_failed i)) f h k = h
Below-bind n (throw _) f h k = h

as_range-Below : (n : ℕ) (o : Option ResponseOp) → Below n (as_range o)
as_range-Below n none = tt
as_range-Below n (some (ResponseOp.range r)) = tt
as_range-Below n (some _) = tt

first_version-Below : (n : ℕ) (kvs : List KeyValue) → Below n (first_version kvs)
first_version-Below n [] = tt
first_version-Below n (kv ∷ kvs) = tt

throw_if-Below : (n i : ℕ) (b : Bool) → i < n → Below n (throw_if (txn_failed i) b)
throw_if-Below n i true h = h
throw_if-Below n i false h = tt

explain_checks-Below :
    (n : ℕ) (responses : List ResponseOp) (i : ℕ) (cs : List TxnCheck)
    → i + length cs ≤ n
    → Below n (explain_checks responses i cs)
unfolding explain_checks
explain_checks-Below n responses i [] h = tt
explain_checks-Below n responses i (c ∷ cs) h =
    Below-bind n (range_at i responses) _ (as_range-Below n (get_elem? responses i)) λ r.
      Below-bind n (throw_if (txn_failed i) (differs c.version r.kvs)) _
        (throw_if-Below n i (differs c.version r.kvs) (omega arith))
        λ _. explain_checks-Below n responses (i + 1) cs (omega arith)

explain_op-Below :
    (n : ℕ) (responses : List ResponseOp) (i j : ℕ) (expects : List Bool)
    → i < n
    → Below n (explain_op responses i j expects)
unfolding explain_op
explain_op-Below n responses i j [] h = tt
explain_op-Below n responses i j (b ∷ bs) h =
    Below-bind n (range_at j responses) _ (as_range-Below n (get_elem? responses j)) λ r.
      Below-bind n (throw_if (txn_failed i) (xor b (is_present r.kvs))) _
        (throw_if-Below n i (xor b (is_present r.kvs)) h)
        λ _. explain_op-Below n responses i (j + 1) bs h

explain_ops-Below :
    (n : ℕ) (responses : List ResponseOp) (i j : ℕ) (expects : List (List Bool))
    → i + length expects ≤ n
    → Below n (explain_ops responses i j expects)
unfolding explain_ops
explain_ops-Below n responses i j [] h = tt
explain_ops-Below n responses i j (bs ∷ rest) h =
    Below-bind n (explain_op responses i j bs) _ (explain_op-Below n responses i j bs (omega arith))
      λ j'. explain_ops-Below n responses (i + 1) j' rest (omega arith)

version_at-Below : (n i : ℕ) (responses : List ResponseOp) → Below n (version_at i responses)
unfolding version_at
version_at-Below n i responses =
    Below-bind n (range_at i responses) _ (as_range-Below n (get_elem? responses i))
      λ r. first_version-Below n r.kvs

set_result-Below : (n : ℕ) (responses : List ResponseOp) (i : ℕ) → Below n (set_result responses i)
unfolding set_result
set_result-Below n responses i =
    Below-bind n (version_at i responses) _ (version_at-Below n i responses) λ v. tt

prepend-Below :
    (n : ℕ) (r : TxnOpResult) (rest : Outcome (List TxnOpResult))
    → Below n rest
    → Below n (prepend r rest)
prepend-Below n r rest h = Below-bind n rest _ h λ rs. tt

-- The merge of the results throws no `TxnFailed` at all.
merge-Below :
    (n : ℕ) (responses : List ResponseOp) (creates sets : List ℕ)
    → Below n (merge responses creates sets)
unfolding merge
merge-Below n responses [] [] = tt
merge-Below n responses (c ∷ cs) [] =
    prepend-Below n create_result _ (merge-Below n responses cs [])
merge-Below n responses [] (s ∷ ss) =
    Below-bind n (set_result responses s) _ (set_result-Below n responses s)
      λ r. prepend-Below n r _ (merge-Below n responses [] ss)
merge-Below n responses (c ∷ cs) (s ∷ ss) =
    let later_set =
      Below-bind n (set_result responses s) _ (set_result-Below n responses s)
        λ r. prepend-Below n r _ (merge-Below n responses (c ∷ cs) ss) in
    elim (ltb c s)
      as (λ b. Below n (elim b [
        | true ↦ prepend create_result (merge responses cs (s ∷ ss))
        | false ↦ (do r ← set_result responses s; prepend r (merge responses (c ∷ cs) ss))
      ])) [
        | true ↦ prepend-Below n create_result _ (merge-Below n responses cs (s ∷ ss))
        | false ↦ later_set
      ]

outcome-Below :
    (n : ℕ) (checks : List TxnCheck) (plan : Plan) (response : TxnResponse)
    → length checks + length plan.expected_existence ≤ n
    → Below n (outcome checks plan response)
unfolding outcome explain
outcome-Below n checks plan response h = elim (Bool-cases response.succeeded) [
  | inl e ↦ rw e (merge-Below n response.responses plan.create_indices plan.set_indices)
  | inr e ↦ rw e (
      Below-bind n (explain_checks response.responses 0 checks) _
        (explain_checks-Below n response.responses 0 checks (omega arith))
        λ _.
          Below-bind n
            (explain_ops response.responses (length checks) (length checks) plan.expected_existence)
            _
            (explain_ops-Below n response.responses (length checks) (length checks)
              plan.expected_existence h)
            λ _. tt)
]

length-each :
    {A B : Type 0} (f : A → Outcome B) (xs : List A) (ys : List B)
    → each f xs ≡ ok ys
    → length ys ≡ length xs
unfolding each
length-each f [] ys h = let e : [] ≡ ys = cc h in rw (← e) refl
length-each f (x ∷ xs) ys h =
    let (y, a, rest) = >>=-eq-ok (f x) _ h in
    let (zs, b, last) = >>=-eq-ok (each f xs) _ rest in
    let e : y ∷ zs ≡ ys = cc last in rw (← e) (ap suc (length-each f xs zs b))

-- Whatever etcd answers to the transaction of `commit`, a `TxnFailed` that `commit` throws carries
-- the index of one of the caller's checks or operations.
pub commit-Below :
    (p : Etcd) (t : Transaction) (plan : Plan) (s s' : State p) (response : TxnResponse)
    (w : p.World)
    → make_plan p t s ≡ (ok plan, s')
    → p.txn plan.builder.txn s'.world ≡ (answered response, w)
    → Below (length t.checks + length t.ops) (commit p t s).0
unfolding commit commit_txn
commit-Below p t plan s s' response w made sent =
    let (checks, ops, named, asked, reads, expects) = make_plan-Grows p t plan s s' made in
    let same : length plan.expected_existence ≡ length t.ops =
      ap length expects ∙ length-map ops expected ∙ length-each _ t.ops ops asked in
    rw (made, sent)
      (outcome-Below (length t.checks + length t.ops) t.checks plan response (omega (arith, same)))
