-- ===== src/Etcd/Transactions.antt =====
-- etcd_client.hpp: `commit`.
use liboffkv.Key.{KeyPath}
use liboffkv.Base.{Bytes, List, [], ◌∷◌}
use liboffkv.Exec.{pure, lift, ◌>>=◌}
use liboffkv.Client.{TxnCheck, TxnOp, TxnOpResult, Transaction}
use liboffkv.Etcd.Service.{Etcd}
use liboffkv.Etcd.Naming.{make_subtree_range}
use liboffkv.Etcd.Plan.{Plan, no_plan, plan_check, plan_create, plan_set, plan_erase}
use liboffkv.Etcd.Outcomes.{outcome}
use liboffkv.Etcd.Session.{Run, as_path, commit_txn, lease_if}
use liboffkv.Etcd.Methods.{parent_path}

module _ (p : Etcd) where
  abbrev pub subtree_of : KeyPath → Run p (Bytes × Bytes)
  subtree_of k s = (make_subtree_range s.client.prefix k, s)

  unfoldable pub add_check : TxnCheck → Plan → Run p Plan
  add_check check plan = do path ← as_path p check.key; lift (plan_check path check.version plan)

  unfoldable pub add_op : TxnOp → Plan → Run p Plan
  add_op (TxnOp.create k value lease) plan = do
    path ← as_path p k
    id ← lease_if p lease
    q ← parent_path p k
    lift (plan_create q path value id plan)
  add_op (TxnOp.set k value) plan = do path ← as_path p k; lift (plan_set path value plan)
  add_op (TxnOp.erase k) plan = do
    path ← as_path p k
    range ← subtree_of k
    lift (plan_erase path range plan)

  -- The two loops.
  unfoldable pub add_each : {A : Type 0} → (A → Plan → Run p Plan) → Plan → List A → Run p Plan
  add_each f plan [] = pure plan
  add_each f plan (x ∷ xs) = do plan' ← f x plan; add_each f plan' xs

  unfoldable pub make_plan : Transaction → Run p Plan
  make_plan t = do checked ← add_each add_check no_plan t.checks; add_each add_op checked t.ops

  unfoldable pub commit : Transaction → Run p (List TxnOpResult)
  commit t = do
    plan ← make_plan t
    response ← commit_txn p plan.builder.txn
    lift (outcome t.checks plan response)
