-- ===== src/Zk/Refine/Failed.antt =====
-- zk_client.hpp, `commit`: which of the caller's items is to blame for a failed transaction.
use liboffkv.Base.{
  subst, ℕ, suc, ◌+◌, ◌<◌, ◌≡◌, refl, ap, ◌∙◌, List, [], ◌∷◌, Option, none, some, All-append, Bytes,
  arith, length, length-append, All, Each, take, ◌==◌, if◌then◌else◌, Bool, true, false,
}
use liboffkv.Errors.{Exception, ok, txn_failed}
use liboffkv.Exec.{pure, raise, ◌>>=◌}
use liboffkv.Zk.Erase.{continue_with}
use liboffkv.Key.{KeyPath}
use liboffkv.Client.{TxnCheck, TxnOp, TxnOpResult, Transaction}
use liboffkv.Boundaries.Ends.{
  flat, ends, owner, NonEmpty, lower_bound-ends, owner-lt, ends-get_elem?, ends-some,
}
use liboffkv.Zk.Service.{Op, transaction_failed, fail, Zk}
use liboffkv.Zk.Session.{State, Run}
use liboffkv.Zk.Transactions.{
  Batch, add_checks, add_ops, committed, commit_turn, commit, results_or,
}
use liboffkv.Zk.Contract.{Contract, Agrees, run, failed_at}
use liboffkv.Zk.Refine.Blocks.{
  CheckBlock, OpBlock, extended, no_ops, txn_of_blocks, boundaries_of_blocks, extended-append,
  add_checks-CheckBlock, add_ops-OpBlock,
}
use liboffkv.Zk.Refine.Kinds.{run-failed_at-lt}
use liboffkv.Zk.Refine.Commit.{Blocks, all_blocks}

-- Whether the operation at position `i` is the last one of its block.
abbrev pub is_last : ℕ → List (List Op) → Bool
is_last i blocks = suc i == length (flat (take (suc (owner i blocks)) blocks))

checks-NonEmpty :
    (prefix : KeyPath) (checks : List TxnCheck) (blocks : List (List Op))
    → Each (CheckBlock prefix) checks blocks
    → All NonEmpty blocks × (length blocks ≡ length checks)
checks-NonEmpty prefix [] [] e = (tt, refl)
checks-NonEmpty prefix [] (b ∷ bs) e = absurd e
checks-NonEmpty prefix (check ∷ checks) [] e = absurd e
checks-NonEmpty prefix (check ∷ checks) (b ∷ bs) ((path, named, same), e) =
    let (ne, len) = checks-NonEmpty prefix checks bs e in
    ((omega (arith, ap length same), ne), ap suc len)

OpBlock-NonEmpty : (prefix : KeyPath) (op : TxnOp) (b : List Op) → OpBlock prefix op b → NonEmpty b
OpBlock-NonEmpty prefix (TxnOp.create key value lease) b (path, named, same) =
    omega (arith, ap length same)
OpBlock-NonEmpty prefix (TxnOp.set key value) b (path, named, same) = omega (arith, ap length same)
OpBlock-NonEmpty prefix (TxnOp.erase key) b (path, named, within, (more, same)) =
    omega (arith, ap length same, length-append more (Op.erase path ∷ []))

ops-NonEmpty :
    (prefix : KeyPath) (ops : List TxnOp) (blocks : List (List Op))
    → Each (OpBlock prefix) ops blocks
    → All NonEmpty blocks × (length blocks ≡ length ops)
ops-NonEmpty prefix [] [] e = (tt, refl)
ops-NonEmpty prefix [] (b ∷ bs) e = absurd e
ops-NonEmpty prefix (op ∷ ops) [] e = absurd e
ops-NonEmpty prefix (op ∷ ops) (b ∷ bs) (is_block, e) =
    let (ne, len) = ops-NonEmpty prefix ops bs e in
    ((OpBlock-NonEmpty prefix op b is_block, ne), ap suc len)

Blocks-NonEmpty :
    {prefix : KeyPath} {t : Transaction} (b : Blocks prefix t)
    → All NonEmpty (all_blocks b) × (length (all_blocks b) ≡ length t.checks + length t.ops)
Blocks-NonEmpty {prefix} {t} b =
    let (ne, len) = checks-NonEmpty prefix t.checks b.checks b.are_checks in
    let (ne', len') = ops-NonEmpty prefix t.ops b.ops b.are_ops in
    (
      All-append NonEmpty b.checks b.ops ne ne',
      omega (arith, len, len', length-append b.checks b.ops),
    )

module _ (p : Zk) where
  -- What the boundaries tell of a failure.
  committed-is_last :
      (blocks : List (List Op)) (i : ℕ) (what : Bytes)
      → All NonEmpty blocks
      → i < length (flat blocks)
      → committed p (ends 0 blocks) (fail (transaction_failed i what))
        ≡ (if is_last i blocks then raise (txn_failed (owner i blocks)) else pure none)
  unfolding committed
  committed-is_last blocks i what ne lt =
      let u = owner i blocks in
      let (e, there) = ends-some 0 u blocks (owner-lt i blocks lt) in
      let (size, _) = ends-get_elem? u e blocks ne there in
      let same : (e == i) ≡ is_last i blocks = ground (arith, size) in
      rw (lower_bound-ends i blocks ne lt, there, same) refl

  -- What the loop makes of it.
  after_failure :
      (b : Bool) (e : Exception) (again : Run p (Option (List TxnOpResult))) (v : State p)
      → (((if b then raise e else pure none) >>= λ outcome. pure (some outcome)) >>= λ r.
            continue_with p r (λ outcome. results_or p outcome again))
          v
        ≡ (if b then raise e else again) v
  after_failure true e again v = refl
  after_failure false e again v = refl

module _ (p : Zk) (c : Contract p) where
  module _ (depth : ℕ) (t : Transaction) (s u : State p) (checked batch : Batch)
      (checks : add_checks p no_ops t.checks s ≡ (ok checked, s))
      (ops : add_ops p depth checked t.ops s ≡ (ok (some batch), u)) where
    -- The blocks of the transaction that was put together.
    sent-Blocks : (b : Blocks s.prefix t) × (batch ≡ extended no_ops (all_blocks b))
    sent-Blocks =
        let (cs, are_checks, e, _) = add_checks-CheckBlock p no_ops checked t.checks s s checks in
        let (os, are_ops, e', _) = add_ops-OpBlock p c depth checked batch t.ops s u ops in
        (
          record { checks = cs; ops = os; are_checks = are_checks; are_ops = are_ops },
          e' ∙ ap (λ q. extended q os) e ∙ extended-append no_ops cs os,
        )

    -- If the service answers that the transaction of `commit` fails at some operation, then `commit`
    -- throws `TxnFailed` with the index of the caller's check or operation whose block holds it if
    -- it is the last operation of that block. Otherwise `commit` tries again. The index is
    -- one of the caller's, and the entries are as before.
    pub commit-is_last :
        (turns i : ℕ) (what : Bytes) (w : p.World)
        → p.commit batch.txn u.world ≡ (fail (transaction_failed i what), w)
        → (b : Blocks s.prefix t) × (batch.txn ≡ flat (all_blocks b))
          × (commit p (suc turns) depth t s
              ≡ (if is_last i (all_blocks b)
                    then raise (txn_failed (owner i (all_blocks b)))
                    else commit p turns depth t)
                  (record u { world = w }))
          × (owner i (all_blocks b) < length t.checks + length t.ops)
          × (c.view w ≡ c.view u.world)
    unfolding commit commit_turn
    commit-is_last turns i what w refused =
        let (b, e) = sent-Blocks in
        let blocks = all_blocks b in
        let txn_eq : batch.txn ≡ flat blocks = ap (λ q. q.txn) e ∙ txn_of_blocks blocks in
        let ends_eq : batch.boundaries ≡ ends 0 blocks =
          ap (λ q. q.boundaries) e ∙ boundaries_of_blocks blocks in
        let (ne, len) = Blocks-NonEmpty b in
        let agrees : (run 0 batch.txn (c.view u.world) ≡ failed_at i)
            × (c.view w ≡ c.view u.world) =
          subst (λ q. Agrees batch.txn (c.view u.world) q.0 (c.view q.1)) refused
            (c.commits batch.txn u.world) in
        let lt : i < length (flat blocks) =
          omega
            (arith, run-failed_at-lt 0 i batch.txn (c.view u.world) agrees.0, ap length txn_eq) in
        (
          b,
          txn_eq,
          rw (checks, ops, refused, ends_eq, committed-is_last p blocks i what ne lt)
              (after_failure p (is_last i blocks) (txn_failed (owner i blocks))
                (commit p turns depth t) (record u { world = w })),
          omega (arith, owner-lt i blocks lt, len),
          agrees.1,
        )
