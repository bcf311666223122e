-- ===== src/Zk/Transactions.antt =====
-- zk_client.hpp: `commit`.
use liboffkv.Base.{
  ℕ, zero, suc, ◌-◌, List, [], ◌∷◌, ◌++◌, Option, none, some, length, get_elem?, ◌==◌,
  if◌then◌else◌,
}
use liboffkv.Errors.{undefined, txn_failed}
use liboffkv.Exec.{pure, raise, ◌>>=◌}
use liboffkv.Boundaries.{lower_bound}
use liboffkv.Client.{TxnCheck, TxnOp, Kind, TxnOpResult, Transaction}
use liboffkv.Zk.Service.{error, transaction_failed, Reply, done, fail, Op, Result, Zk}
use liboffkv.Zk.Session.{Run, rethrow, version_of, expected, call, as_path}
use liboffkv.Zk.Methods.{mode}
use liboffkv.Zk.Erase.{fail_txn_on_no_entry, continue_with, make_recursive_erase_query}

pub record Batch : Type 0 where
  pub txn : List Op
  pub boundaries : List ℕ

-- `boundaries.push_back(txn.size() - 1)`, with the operations that came to the transaction.
abbrev pub close : Batch → List Op → Batch
close b txn = record { txn = txn; boundaries = b.boundaries ++ (length txn - 1) ∷ [] }

-- The loop over the results.
unfoldable pub op_results : List Result → List TxnOpResult
op_results [] = []
op_results (Result.set data_version ∷ more) =
    record { kind = Kind.set; version = version_of data_version } ∷ op_results more
op_results (Result.create ∷ more) = record { kind = Kind.create; version = 1 } ∷ op_results more
op_results (Result.check ∷ more) = op_results more
op_results (Result.erase ∷ more) = op_results more

module _ (p : Zk) where
  unfoldable pub add_checks : Batch → List TxnCheck → Run p Batch
  add_checks b [] = pure b
  add_checks b (check ∷ checks) = do
    path ← as_path p check.key
    add_checks (close b (b.txn ++ Op.check path (expected check.version) ∷ [])) checks

  -- The visitor: what one operation of the caller adds to the transaction.
  unfoldable pub add_op : ℕ → List Op → TxnOp → Run p (Option (List Op))
  add_op depth txn (TxnOp.create key value lease) = do
    path ← as_path p key
    pure (some (txn ++ Op.create path value (mode lease) ∷ []))
  add_op depth txn (TxnOp.set key value) = do
    path ← as_path p key
    pure (some (txn ++ Op.set path value ∷ []))
  add_op depth txn (TxnOp.erase key) = do
    path ← as_path p key
    make_recursive_erase_query p depth fail_txn_on_no_entry path txn

  unfoldable pub add_ops : ℕ → Batch → List TxnOp → Run p (Option Batch)
  add_ops depth b [] = pure (some b)
  add_ops depth b (op ∷ ops) = do
    r ← add_op depth b.txn op
    continue_with p r (λ txn. add_ops depth (close b txn) ops)

  abbrev pub decide : Option ℕ → (user_index real_index : ℕ) → Run p (Option (List TxnOpResult))
  decide none user_index real_index = raise undefined
  decide (some boundary) user_index real_index =
      if boundary == real_index then raise (txn_failed user_index) else pure none

  -- What follows the reply: `none` at `continue`.
  unfoldable pub committed : List ℕ → Reply (List Result) → Run p (Option (List TxnOpResult))
  committed boundaries (done results) = pure (some (op_results results))
  committed boundaries (fail (transaction_failed real_index what)) =
      decide (get_elem? boundaries (lower_bound boundaries real_index))
        (lower_bound boundaries real_index) real_index
  committed boundaries (fail (error code what)) = raise (rethrow (error code what))

  -- One turn of the loop: `none` if a tree is deeper than the levels allowed, and a `none` in it
  -- if the loop goes on.
  unfoldable pub commit_turn : ℕ → Transaction → Run p (Option (Option (List TxnOpResult)))
  commit_turn depth transaction = do
    checked ← add_checks (record { txn = []; boundaries = [] }) transaction.checks
    built ← add_ops depth checked transaction.ops
    continue_with p built (λ b. do
      r ← call p (p.commit b.txn)
      outcome ← committed b.boundaries r
      pure (some outcome))

  abbrev pub results_or :
      Option (List TxnOpResult)
      → Run p (Option (List TxnOpResult))
      → Run p (Option (List TxnOpResult))
  results_or (some results) again = pure (some results)
  results_or none again = again

  -- The loop, for so many turns.
  unfoldable pub commit : (turns depth : ℕ) → Transaction → Run p (Option (List TxnOpResult))
  commit zero depth transaction = pure none
  commit (suc turns) depth transaction = do
    r ← commit_turn depth transaction
    continue_with p r (λ outcome. results_or outcome (commit turns depth transaction))
