-- ===== src/Zk/Erase.antt =====
-- zk_client.hpp: `make_recursive_erase_query_` and `erase`.
use liboffkv.Base.{
  ℕ, zero, suc, Bool, true, false, Bytes, slash, List, [], ◌∷◌, ◌++◌, Option, none, some,
}
use liboffkv.Errors.{no_entry}
use liboffkv.Exec.{pure, raise, ◌>>=◌}
use liboffkv.Key.{KeyPath}
use liboffkv.Client.{Int64}
use liboffkv.Zk.Service.{ErrorCode, error, transaction_failed, Reply, done, fail, Op, Result, Zk}
use liboffkv.Zk.Session.{Run, rethrow, uncaught, expected, call, as_path}

pub data EraseQueryFailures : Type 0 where
  ignore_no_entry throw_no_entry fail_txn_on_no_entry : EraseQueryFailures

abbrev pub child_path : Bytes → Bytes → Bytes
child_path path child = path ++ (slash ∷ child)

-- What goes into the query for an entry that is not there.
abbrev pub missing : EraseQueryFailures → Bytes → List Op
missing fail_txn_on_no_entry path = Op.erase path ∷ []
missing _ path = []

-- What `erase` begins its transaction with.
abbrev pub checks : Bytes → Int64 → List Op
checks path version = Op.check path none ∷ Op.check path (expected version) ∷ []

module _ (p : Zk) where
  -- What the recursion may leave undone is `none`: it goes down so many levels only.
  abbrev pub continue_with : {A B : Type 0} → Option A → (A → Run p (Option B)) → Run p (Option B)
  continue_with none f = pure none
  continue_with (some a) f = f a

  -- The loop over the children.
  unfoldable pub each_child :
      (Bytes → List Op → Run p (Option (List Op))) → List Bytes → List Op → Run p (Option (List Op))
  each_child visit [] query = pure (some query)
  each_child visit (child ∷ children) query = do
    r ← visit child query
    continue_with r (each_child visit children)

  -- What follows the reply to `get_children`; the call is not inside the caller's `try`.
  unfoldable pub erase_children :
      (List Bytes → List Op → Run p (Option (List Op)))
      → Bytes
      → EraseQueryFailures
      → List Op
      → Reply (List Bytes)
      → Run p (Option (List Op))
  erase_children visit path behavior query (done children) = do
    r ← visit children query
    continue_with r (λ q. pure (some (q ++ Op.erase path ∷ [])))
  erase_children visit path throw_no_entry query (fail (error ErrorCode.no_entry what)) =
      raise no_entry
  erase_children visit path behavior query (fail (error ErrorCode.no_entry what)) =
      pure (some (query ++ missing behavior path))
  erase_children visit path behavior query (fail f) = raise (uncaught f)

  -- `make_recursive_erase_query_`, for so many levels.
  unfoldable pub make_recursive_erase_query :
      ℕ → EraseQueryFailures → Bytes → List Op → Run p (Option (List Op))
  make_recursive_erase_query zero behavior path query = pure none
  make_recursive_erase_query (suc depth) behavior path query = do
    reply ← call p (p.get_children path)
    erase_children
        (each_child
          (λ child. make_recursive_erase_query depth ignore_no_entry (child_path path child)))
        path behavior query reply

  -- The end of one turn of `erase`: `true` at a `return`.
  unfoldable pub erased : Reply (List Result) → Run p Bool
  erased (done results) = pure true
  erased (fail (transaction_failed zero what)) = raise no_entry
  erased (fail (transaction_failed (suc zero) what)) = pure true
  erased (fail (transaction_failed (suc (suc i)) what)) = pure false
  erased (fail f) = raise (rethrow f)

  -- One turn of the loop: `none` if the tree is deeper than the levels allowed.
  unfoldable pub erase_turn : ℕ → Bytes → Int64 → Run p (Option Bool)
  erase_turn depth path version = do
    query ← make_recursive_erase_query depth throw_no_entry path (checks path version)
    continue_with query
        (λ txn. do r ← call p (p.commit txn); finished ← erased r; pure (some finished))

  abbrev pub again_unless : Bool → Run p (Option (Unit {0})) → Run p (Option (Unit {0}))
  again_unless true again = pure (some tt)
  again_unless false again = again

  -- The loop, for so many turns.
  unfoldable pub erase_loop : ℕ → ℕ → Bytes → Int64 → Run p (Option (Unit {0}))
  erase_loop zero depth path version = pure none
  erase_loop (suc turns) depth path version = do
    r ← erase_turn depth path version
    continue_with r (λ finished. again_unless finished (erase_loop turns depth path version))

  unfoldable pub erase : (turns depth : ℕ) → KeyPath → Int64 → Run p (Option (Unit {0}))
  erase turns depth key version = do path ← as_path p key; erase_loop turns depth path version
