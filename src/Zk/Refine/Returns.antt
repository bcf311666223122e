-- ===== src/Zk/Refine/Returns.antt =====
-- zk_client.hpp: when `erase` and `commit` come to an end.
use liboffkv.Base.{ℕ, zero, suc, ◌<◌, ◌≡◌, refl, Bytes, List, [], ◌∷◌, ◌++◌, Option, some}
use liboffkv.Errors.{Outcome, ok, throw, no_entry}
use liboffkv.Key.{KeyPath}
use liboffkv.Client.{Int64, Transaction}
use liboffkv.Zk.Service.{Op, Result, Reply, done, fail, error, transaction_failed, Zk}
use liboffkv.Zk.Session.{State, as_path_string}
use liboffkv.Zk.Erase.{
  throw_no_entry, checks, make_recursive_erase_query, erased, erase_turn, erase_loop, erase,
}
use liboffkv.Zk.Transactions.{
  Batch, op_results, add_checks, add_ops, committed, commit_turn, commit,
}
use liboffkv.Zk.Refine.Subtree.{
  Forest, height, post_order, Lists, make_recursive_erase_query-post_order,
}
use liboffkv.Zk.Refine.Blocks.{no_ops}

-- The transaction of `erase` for a tree of entries.
abbrev pub erase_txn : Bytes → Int64 → Forest → List Op
erase_txn path version f = checks path version ++ post_order path f ++ Op.erase path ∷ []

-- The transaction has run, or has failed at one of the two checks.
abbrev pub IsSettled : Reply (List Result) → Type 0
IsSettled (done results) = Unit
IsSettled (fail (transaction_failed zero what)) = Unit
IsSettled (fail (transaction_failed (suc zero) what)) = Unit
IsSettled _ = ⊥

-- The first check is that of the key.
abbrev pub settled : Reply (List Result) → Outcome (Option (Unit {0}))
settled (fail (transaction_failed zero what)) = throw no_entry
settled _ = ok (some tt)

module _ (p : Zk) where
  loop-settled :
      (turns depth : ℕ) (path : Bytes) (version : Int64) (txn : List Op) (s : State p) (w : p.World)
      (reply : Reply (List Result))
      → make_recursive_erase_query p depth throw_no_entry path (checks path version) s
        ≡ (ok (some txn), s)
      → p.commit txn s.world ≡ (reply, w)
      → IsSettled reply
      → erase_loop p (suc turns) depth path version s ≡ (settled reply, record s { world = w })
  unfolding erase_loop erase_turn erased
  loop-settled turns depth path version txn s w (done results) asked answer is =
      rw (asked, answer) refl
  loop-settled turns depth path version txn s w (fail (transaction_failed zero what)) asked answer
        is =
      rw (asked, answer) refl
  loop-settled turns depth path version txn s w (fail (transaction_failed (suc zero) what)) asked
        answer is =
      rw (asked, answer) refl
  loop-settled turns depth path version txn s w (fail (transaction_failed (suc (suc i)) what)) asked
        answer is =
      absurd is
  loop-settled turns depth path version txn s w (fail (error code what)) asked answer is = absurd is

  -- If the tree below the key has fewer levels than ZooKeeper's `erase` may go down, and the service
  -- runs the transaction for this tree or refuses it at one of the two checks, then `erase` ends
  -- with its first turn: it throws `NoEntry` at the check of the key, and else returns.
  pub erase-settled :
      (turns depth : ℕ) (key : KeyPath) (version : Int64) (path : Bytes) (f : Forest) (s : State p)
      (w : p.World) (reply : Reply (List Result))
      → as_path_string s.prefix key ≡ ok path
      → height f < depth
      → Lists p s.world path f
      → p.commit (erase_txn path version f) s.world ≡ (reply, w)
      → IsSettled reply
      → erase p (suc turns) depth key version s ≡ (settled reply, record s { world = w })
  unfolding erase
  erase-settled turns depth key version path f s w reply named lt lists answer is = rw named (
      loop-settled turns depth path version (erase_txn path version f) s w reply
        (make_recursive_erase_query-post_order p s depth throw_no_entry path (checks path version) f
          lt lists)
        answer is)

  -- If the transaction of ZooKeeper's `commit` has been put together and the service runs it, then
  -- `commit` ends with its first turn and returns what the results are for the caller.
  pub commit-op_results :
      (turns depth : ℕ) (t : Transaction) (checked batch : Batch) (s u : State p) (w : p.World)
      (results : List Result)
      → add_checks p no_ops t.checks s ≡ (ok checked, s)
      → add_ops p depth checked t.ops s ≡ (ok (some batch), u)
      → p.commit batch.txn u.world ≡ (done results, w)
      → commit p (suc turns) depth t s ≡ (ok (some (op_results results)), record u { world = w })
  unfolding commit commit_turn committed
  commit-op_results turns depth t checked batch s u w results checks ops answer =
      rw (checks, ops, answer) refl
