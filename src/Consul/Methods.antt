-- ===== src/Consul/Methods.antt =====
-- consul_client.hpp: the methods of `ConsulClient` but `commit`.
use liboffkv.Base.{
  Bool, true, false, not, Bytes, slash, List, [], ◌∷◌, ◌++◌, length, ◌==◌, if◌then◌else◌,
}
use liboffkv.Errors.{ok, entry_exists}
use liboffkv.Exec.{pure, raise, lift, ◌>>=◌, ◌>>◌, catch}
use liboffkv.Key.{KeyPath, root, parent}
use liboffkv.Client.{Int64, ExistsResult, ChildrenResult, GetResult, CasResult}
use liboffkv.Consul.Service.{TxnOperation, Ppconsul}
use liboffkv.Consul.Naming.{child_names, max_index}
use liboffkv.Consul.Commit.{back_index}
use liboffkv.Consul.Replies.{
  WatchHandle, watch_timeout, rethrow, created, was_set, compared, erased, watch_if, present_index,
  got, no_entry_or_rethrow,
}
use liboffkv.Consul.Session.{Run, call, or_throw, as_path, create_session_if_needed}

module _ (p : Ppconsul) where
  -- The read of the parent that `create` and `set` begin with, if the parent is not the root.
  unfoldable pub parent_check : KeyPath → Run p (List TxnOperation)
  parent_check up =
      if root up
      then pure []
      else do parent_string ← as_path p up; pure (TxnOperation.get parent_string ∷ [])

  -- The write of a new key: under the client's session if it is leased.
  unfoldable pub put_op : Bytes → Bytes → Bool → Run p TxnOperation
  put_op key_string value true = do
    create_session_if_needed p
    λ s. (ok (TxnOperation.lock key_string value s.client.session_id), s)
  put_op key_string value false = pure (TxnOperation.set key_string value)

  unfoldable pub create : KeyPath → Bytes → Bool → Run p Int64
  create key value lease = do
    up ← lift (parent key)
    gets ← parent_check up
    key_string ← as_path p key
    put ← put_op key_string value lease
    r ← call p (p.commit (gets ++ TxnOperation.check_not_exists key_string ∷ put ∷ []))
    lift (created (not (root up)) r)

  unfoldable pub exists : KeyPath → Bool → Run p (ExistsResult WatchHandle)
  exists key watch = do
    key_string ← as_path p key
    item ← call p (p.item key_string)
    item ← or_throw p rethrow item
    let version = present_index item
    pure (record { version = version; watch = watch_if watch key_string version false })

  unfoldable pub get : KeyPath → Bool → Run p (GetResult WatchHandle)
  get key watch = do
    key_string ← as_path p key
    reply ← call p (p.item key_string)
    item ← or_throw p rethrow reply
    lift (got watch key_string item.index item.found)

  unfoldable pub get_children : KeyPath → Bool → Run p (ChildrenResult WatchHandle)
  get_children key watch = do
    key_string ← as_path p key
    let child_prefix = key_string ++ slash ∷ []
    reply ← call p (p.commit (TxnOperation.get_all child_prefix ∷ TxnOperation.get key_string ∷ []))
    results ← or_throw p no_entry_or_rethrow reply
    last_index ← lift (back_index results)
    global_prefix ← as_path p (record { path = [] })
    children ← lift (child_names (length child_prefix) (length global_prefix) results)
    pure (record {
      children = children;
      watch = watch_if watch child_prefix (max_index last_index results) true;
    })

  unfoldable pub set : KeyPath → Bytes → Run p Int64
  set key value = do
    up ← lift (parent key)
    gets ← parent_check up
    key_string ← as_path p key
    r ← call p (p.commit (gets ++ TxnOperation.set key_string value ∷ []))
    lift (was_set r)

  unfoldable pub compare_and_set : KeyPath → Bytes → Int64 → Run p CasResult
  compare_and_set key value version = do
    key_string ← as_path p key
    r ← call p (
        p.commit
          (TxnOperation.get key_string ∷ TxnOperation.compare_set key_string version value ∷ []))
    lift (compared r)

  unfoldable pub cas : KeyPath → Bytes → Int64 → Run p CasResult
  cas key value version =
      if version == 0
      then catch (do v ← create key value false; pure (record { version = v }))
          (λ e. elim e [ entry_exists ↦ pure (record { version = 0 }) | other ↦ raise other ])
      else compare_and_set key value version

  unfoldable pub erase : KeyPath → Int64 → Run p (Unit {0})
  erase key version = do
    key_string ← as_path p key
    let removal =
        (if version == 0
          then TxnOperation.erase key_string
          else TxnOperation.compare_erase key_string version)
    r ← call p (
        p.commit (
          TxnOperation.get key_string
          ∷ removal
          ∷ TxnOperation.erase_all (key_string ++ slash ∷ [])
          ∷ []))
    lift (erased r)

  -- `ConsulWatchHandle_::wait`.
  unfoldable pub wait : WatchHandle → Run p (Unit {0})
  wait h = do
    r ← call p (
        if h.all_with_prefix
        then p.block_keys h.key watch_timeout h.old_version
        else p.block_item h.key watch_timeout h.old_version)
    or_throw p rethrow r
