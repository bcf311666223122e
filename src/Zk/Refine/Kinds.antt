-- ===== src/Zk/Refine/Kinds.antt =====
-- zk_client.hpp, `commit`: the results of a transaction are those for which its caller asked.
use liboffkv.Base.{
  ℕ, suc, ◌≡◌, refl, ap, ◌∙◌, List, [], ◌∷◌, ◌++◌, map, some, inl, inr, append_assoc, arith, All,
  Each, ◌<◌, ◌+◌, length,
}
use liboffkv.Base.{Bytes}
use liboffkv.Key.{KeyPath}
use liboffkv.Client.{TxnCheck, TxnOp, Kind, TxnOpResult, Transaction}
use liboffkv.Boundaries.Ends.{flat}
use liboffkv.Zk.Service.{Op, Result}
use liboffkv.Zk.Transactions.{op_results}
use liboffkv.Zk.Contract.{apply, run, all_done, failed_at}
use liboffkv.Zk.Contract.Store.{Node}
use liboffkv.Zk.Refine.Query.{ErasesWithin}
use liboffkv.Zk.Refine.Runs.{run-nil, run-cons-all_done, run-cons-failed_at}
use liboffkv.Zk.Refine.Blocks.{CheckBlock, OpBlock}

-- The result that the caller sees of one operation of the service.
abbrev shown : Op → List Kind
shown (Op.create path data_ mode) = Kind.create ∷ []
shown (Op.set path data_) = Kind.set ∷ []
shown _ = []

unfoldable all_shown : List Op → List Kind
all_shown [] = []
all_shown (op ∷ ops) = shown op ++ all_shown ops

-- One result for each create and each set of the caller, in order.
unfoldable pub asked_for : List TxnOp → List Kind
asked_for [] = []
asked_for (TxnOp.create key value lease ∷ ops) = Kind.create ∷ asked_for ops
asked_for (TxnOp.set key value ∷ ops) = Kind.set ∷ asked_for ops
asked_for (TxnOp.erase key ∷ ops) = asked_for ops

abbrev kinds : List TxnOpResult → List Kind
kinds = map (λ r. r.kind)

apply-shown :
    (op : Op) (s u : List Node) (r : Result) (more : List Result)
    → apply op s ≡ some (u, r)
    → kinds (op_results (r ∷ more)) ≡ shown op ++ kinds (op_results more)
unfolding apply op_results
apply-shown (Op.check path version) s u r more h = ground (arith, h)
apply-shown (Op.create path data_ mode) s u r more h = ground (arith, h)
apply-shown (Op.set path data_) s u r more h = ground (arith, h)
apply-shown (Op.erase path) s u r more h = ground (arith, h)

run-shown :
    (i : ℕ) (ops : List Op) (s t : List Node) (rs : List Result)
    → run i ops s ≡ all_done t rs
    → kinds (op_results rs) ≡ all_shown ops
unfolding all_shown
run-shown i [] s t rs h =
    ap (λ q. kinds (op_results q)) (run-nil i s t rs h).1 ∙ unfold op_results in refl
run-shown i (op ∷ ops) s t rs h =
    let (u, r, more, e, seen, ran) = run-cons-all_done i op ops s t rs h in
    ap (λ q. kinds (op_results q)) seen
    ∙ apply-shown op s u r more e
    ∙ ap (λ q. shown op ++ q) (run-shown (suc i) ops u t more ran)

all_shown-append : (xs ys : List Op) → all_shown (xs ++ ys) ≡ all_shown xs ++ all_shown ys
unfolding all_shown
all_shown-append [] ys = refl
all_shown-append (Op.create path data_ mode ∷ xs) ys =
    ap (λ r. Kind.create ∷ r) (all_shown-append xs ys)
all_shown-append (Op.set path data_ ∷ xs) ys = ap (λ r. Kind.set ∷ r) (all_shown-append xs ys)
all_shown-append (Op.check path version ∷ xs) ys = all_shown-append xs ys
all_shown-append (Op.erase path ∷ xs) ys = all_shown-append xs ys

erasures-shown : (path : Bytes) (ops : List Op) → All (ErasesWithin path) ops → all_shown ops ≡ []
unfolding all_shown
erasures-shown path [] a = refl
erasures-shown path (Op.erase k ∷ ops) a = erasures-shown path ops a.1
erasures-shown path (Op.check k version ∷ ops) a = absurd a.0
erasures-shown path (Op.create k data_ mode ∷ ops) a = absurd a.0
erasures-shown path (Op.set k data_ ∷ ops) a = absurd a.0

checks-shown :
    (prefix : KeyPath) (checks : List TxnCheck) (blocks : List (List Op))
    → Each (CheckBlock prefix) checks blocks
    → all_shown (flat blocks) ≡ []
unfolding flat all_shown
checks-shown prefix [] [] e = refl
checks-shown prefix [] (b ∷ bs) e = absurd e
checks-shown prefix (check ∷ checks) [] e = absurd e
checks-shown prefix (check ∷ checks) (b ∷ bs) ((path, named, same), e) =
    rw same (checks-shown prefix checks bs e)

ops-shown :
    (prefix : KeyPath) (ops : List TxnOp) (blocks : List (List Op))
    → Each (OpBlock prefix) ops blocks
    → all_shown (flat blocks) ≡ asked_for ops
unfolding flat all_shown asked_for
ops-shown prefix [] [] e = refl
ops-shown prefix [] (b ∷ bs) e = absurd e
ops-shown prefix (op ∷ ops) [] e = absurd e
ops-shown prefix (TxnOp.create key value lease ∷ ops) (b ∷ bs) ((path, named, same), e) =
    rw same (ap (λ r. Kind.create ∷ r) (ops-shown prefix ops bs e))
ops-shown prefix (TxnOp.set key value ∷ ops) (b ∷ bs) ((path, named, same), e) =
    rw same (ap (λ r. Kind.set ∷ r) (ops-shown prefix ops bs e))
ops-shown prefix (TxnOp.erase key ∷ ops) (b ∷ bs) ((path, named, within, ends), e) =
    all_shown-append b (flat bs) ∙ rw (erasures-shown path b within) (ops-shown prefix ops bs e)

flat-append : (xs ys : List (List Op)) → flat (xs ++ ys) ≡ flat xs ++ flat ys
unfolding flat
flat-append [] ys = refl
flat-append (x ∷ xs) ys = rw (flat-append xs ys) (simp append_assoc)

-- The results of the whole transaction.
pub op_results-asked_for :
    (prefix : KeyPath) (transaction : Transaction) (cs os : List (List Op)) (s t : List Node)
    (rs : List Result)
    → Each (CheckBlock prefix) transaction.checks cs
    → Each (OpBlock prefix) transaction.ops os
    → run 0 (flat (cs ++ os)) s ≡ all_done t rs
    → map (λ r. r.kind) (op_results rs) ≡ asked_for transaction.ops
op_results-asked_for prefix transaction cs os s t rs checks ops h =
    run-shown 0 (flat (cs ++ os)) s t rs h
    ∙ ap all_shown (flat-append cs os)
    ∙ all_shown-append (flat cs) (flat os)
    ∙ rw (checks-shown prefix transaction.checks cs checks)
        (ops-shown prefix transaction.ops os ops)

-- A transaction fails at one of its operations.
pub run-failed_at-lt :
    (i j : ℕ) (ops : List Op) (s : List Node) → run i ops s ≡ failed_at j → j < i + length ops
unfolding run
run-failed_at-lt i j [] s h = absurd (cc h)
run-failed_at-lt i j (op ∷ ops) s h = elim (run-cons-failed_at i j op ops s h) [
  | inl (e, _) ↦ omega (arith, e)
  | inr (u, r, _, ran) ↦ omega (arith, run-failed_at-lt (suc i) j ops u ran)
]
