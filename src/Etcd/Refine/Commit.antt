-- ===== src/Etcd/Refine/Commit.antt =====
-- etcd_client.hpp, `commit`: which exception tells the caller of a transaction that failed.
use liboffkv.Base.{
  map-append, ◌≡◌, refl, sym, ap, ◌∙◌, Bool, false, ℕ, suc, length-map, ◌+◌, arith, Bytes, List, [],
  ◌∷◌, ◌++◌, Option, none, some, map, Each, length, drop, subst, codes,
}
use liboffkv.Errors.{Exception, Outcome, ok, throw, txn_failed, service_error, ◌>>=◌, >>=-eq-ok}
use liboffkv.Key.{KeyPath}
use liboffkv.Etcd.Naming.{as_path_string}
use liboffkv.Client.{TxnOpResult, TxnCheck, Transaction}
use liboffkv.Etcd.Service.{Etcd, ResponseOp, TxnResponse, answered}
use liboffkv.Etcd.Session.{State, commit_txn}
use liboffkv.Etcd.Plan.{Plan}
use liboffkv.Etcd.Outcomes.{explain, outcome}
use liboffkv.Etcd.Transactions.{make_plan, commit}
use liboffkv.Etcd.Refine.Requirements.{
  Versions, Answers, first_unmet, requirements, check_item, check_group, op_group, expected, each,
  concat, request_of, Requirement,
}
use liboffkv.Etcd.Refine.Explain.{
  explain_checks_lem, explain_ops_lem, verdict, Each-split, drop-append,
}
use liboffkv.Etcd.Refine.Growth.{concat-append, ok-injective}
use liboffkv.Etcd.Refine.Plan.{make_plan-Grows}

-- The exception for the first requirement that is not met.
abbrev pub blame : Option ℕ → Exception
blame none = service_error (codes "we are sorry for your transaction")
blame (some i) = txn_failed i

abbrev or_else : Option ℕ → Option ℕ → Option ℕ
or_else (some i) later = some i
or_else none later = later

first_unmet-append :
    (f : Versions) (i : ℕ) (xs ys : List (List Requirement))
    → first_unmet f i (xs ++ ys) ≡ or_else (first_unmet f i xs) (first_unmet f (i + length xs) ys)
unfolding first_unmet
first_unmet-append f i [] ys = ap (λ n. first_unmet f n ys) (omega arith)
first_unmet-append f i (x ∷ xs) ys =
    let later = ap (λ n. first_unmet f n ys) (shift i (length xs)) in
    ground (arith, first_unmet-append f (i + 1) xs ys, later)
  where
    shift : (i n : ℕ) → (i + 1) + n ≡ i + suc n
    shift i n = omega arith

zero_plus : (n : ℕ) → 0 + n ≡ n
zero_plus n = omega arith

verdict-blame :
    (a b : Option ℕ)
    → Path
        (Outcome (List TxnOpResult))
        (do checked ← verdict a; checked ← verdict b; throw (blame none))
        (throw (blame (or_else a b)))
verdict-blame none none = refl
verdict-blame none (some i) = refl
verdict-blame (some i) b = refl

map-check_item :
    (pre : KeyPath) (xs : List TxnCheck) (ys : List (Bytes × TxnCheck))
    → each (check_item pre) xs ≡ ok ys
    → xs ≡ map (λ y. y.1) ys
unfolding each check_item
map-check_item pre [] ys h = ap (map (λ y. y.1)) (ok-injective h)
map-check_item pre (x ∷ xs) ys h =
    let (y, e, rest) = >>=-eq-ok (check_item pre x) _ h in
    let (path, _, same) = >>=-eq-ok (as_path_string pre x.key) _ e in
    let (zs, es, last) = >>=-eq-ok (each (check_item pre) xs) _ rest in
    ap (λ t. x ∷ t) (map-check_item pre xs zs es)
    ∙ ap (λ c. c.1 ∷ map (λ y. y.1) zs) (ok-injective same)
    ∙ ap (map (λ y. y.1)) (ok-injective last)

length-check_group :
    (items : List (Bytes × TxnCheck))
    → length (map request_of (concat (map check_group items))) ≡ length items
unfolding concat
length-check_group [] = refl
length-check_group (x ∷ items) = ap suc (length-check_group items)

Each-length :
    {A B : Type 0} (P : A → B → Type 0) (xs : List A) (ys : List B)
    → Each P xs ys
    → length xs ≡ length ys
Each-length P [] [] h = refl
Each-length P [] (y ∷ ys) h = absurd h
Each-length P (x ∷ xs) [] h = absurd h
Each-length P (x ∷ xs) (y ∷ ys) h = ap suc (Each-length P xs ys h.1)

explain_lem :
    (f : Versions) (checks : List (Bytes × TxnCheck)) (ops : List (List (Bytes × Bool)))
    (plan : Plan) (responses : List ResponseOp)
    → plan.expected_existence ≡ map expected ops
    → Each
        (Answers f)
        (map request_of (concat (map check_group checks ++ map op_group ops)))
        responses
    → explain (map (λ x. x.1) checks) plan responses
      ≡ throw (blame (first_unmet f 0 (map check_group checks ++ map op_group ops)))
unfolding explain
explain_lem f checks ops plan responses e a =
    let mine = map check_group checks in
    let theirs = map op_group ops in
    let (l, r, cut, u, v) =
      Each-split (Answers f) (map request_of (concat mine)) (map request_of (concat theirs))
        responses
        (subst (λ qs. Each (Answers f) qs responses)
          (ap (map request_of) (concat-append mine theirs)
            ∙ map-append request_of (concat mine) (concat theirs))
          a) in
    let count : length l ≡ length checks =
      sym (Each-length (Answers f) _ l u) ∙ length-check_group checks in
    let from = ap (λ n. drop n responses) (zero_plus (length l) ∙ count) in
    rw
      (
        length-map checks (λ x. x.1),
        explain_checks_lem f responses checks 0 l r cut u,
        e,
        explain_ops_lem f responses ops (length checks) (length checks) r
            (sym from ∙ drop-append 0 responses l r cut) v,
        first_unmet-append f 0 mine theirs,
        length-map checks check_group,
        zero_plus (length checks),
      )
      (verdict-blame (first_unmet f 0 mine) (first_unmet f (length checks) theirs))

-- If etcd refuses the comparisons of a transaction and answers the reads that go with them by the
-- versions `f`, then `commit` throws `TxnFailed` with the index of the first check or operation that
-- has a requirement which `f` does not meet, or `ServiceError` if `f` meets them all.
pub commit-blame :
    (p : Etcd) (t : Transaction) (plan : Plan) (s s' : State p) (response : TxnResponse)
    (w : p.World) (f : Versions)
    → make_plan p t s ≡ (ok plan, s')
    → p.txn plan.builder.txn s'.world ≡ (answered response, w)
    → response.succeeded ≡ false
    → Each (Answers f) plan.builder.txn.failure response.responses
    → (groups : List (List Requirement)) × (requirements s.client.prefix t ≡ ok groups)
      × (commit p t s ≡ (throw (blame (first_unmet f 0 groups)), record s' { world = w }))
unfolding commit commit_txn requirements outcome
commit-blame p t plan s s' response w f made sent failed answers =
    let (checks, ops, named, asked, reads, expects) = make_plan-Grows p t plan s s' made in
    (
      map check_group checks ++ map op_group ops,
      rw (named, asked) refl,
      rw
          (
            made,
            sent,
            failed,
            map-check_item s.client.prefix t.checks checks named,
            explain_lem f checks ops plan response.responses expects
                (subst (λ qs. Each (Answers f) qs response.responses) reads answers),
          )
          refl,
    )
