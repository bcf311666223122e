-- ===== src/Consul/Transactions.antt =====
-- consul_client.hpp: `commit`.
use liboffkv.Base.{slash, List, [], ◌∷◌, ◌++◌, ◌==◌, if◌then◌else◌, map}
use liboffkv.Exec.{pure, lift, ◌>>=◌}
use liboffkv.Key.{parent}
use liboffkv.Client.{TxnCheck, TxnOp, TxnOpResult, Transaction}
use liboffkv.Consul.Service.{TxnOperation, Ppconsul}
use liboffkv.Consul.Commit.{ResultKind, Block, Batch, add_block}
use liboffkv.Consul.Replies.{committed}
use liboffkv.Consul.Session.{Run, call, as_path}
use liboffkv.Consul.Methods.{parent_check, put_op}

module _ (p : Ppconsul) where
  unfoldable pub check_block : TxnCheck → Run p Block
  check_block check = do
    key_string ← as_path p check.key
    pure (record {
      ops =
          (if check.version == 0
            then TxnOperation.get key_string
            else TxnOperation.check_index key_string check.version)
          ∷ [];
      kinds = ResultKind.aux ∷ [];
    })

  unfoldable pub op_block : TxnOp → Run p Block
  op_block (TxnOp.create key value lease) = do
    key_string ← as_path p key
    up ← lift (parent key)
    gets ← parent_check p up
    put ← put_op p key_string value lease
    pure (record {
      ops = gets ++ TxnOperation.check_not_exists key_string ∷ put ∷ [];
      kinds = map (λ _. ResultKind.aux) gets ++ ResultKind.create ∷ [];
    })
  op_block (TxnOp.set key value) = do
    key_string ← as_path p key
    pure (record {
      ops = TxnOperation.get key_string ∷ TxnOperation.set key_string value ∷ [];
      kinds = ResultKind.aux ∷ ResultKind.set ∷ [];
    })
  op_block (TxnOp.erase key) = do
    key_string ← as_path p key
    pure (record {
      ops =
          TxnOperation.get key_string
          ∷ TxnOperation.erase key_string
          ∷ TxnOperation.erase_all (key_string ++ slash ∷ [])
          ∷ [];
      kinds = ResultKind.aux ∷ [];
    })

  -- The two loops: each check and each operation adds its block.
  unfoldable pub add_each : {A : Type 0} → (A → Run p Block) → Batch → List A → Run p Batch
  add_each f b [] = pure b
  add_each f b (x ∷ xs) = do block ← f x; add_each f (add_block b block) xs

  unfoldable pub commit : Transaction → Run p (List TxnOpResult)
  commit t = do
    checked ← add_each check_block (record { txn = []; boundaries = []; kinds = [] }) t.checks
    batch ← add_each op_block checked t.ops
    r ← call p (p.commit batch.txn)
    lift (committed batch r)
