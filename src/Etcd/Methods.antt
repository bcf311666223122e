-- ===== src/Etcd/Methods.antt =====
-- etcd_client.hpp: the methods of `ETCDClient` but `commit`.
use liboffkv.Base.{
  ℕ, zero, suc, ◌+◌, Bool, true, false, not, Bytes, [], Option, none, some, ◌==◌, if◌then◌else◌,
  map,
}
use liboffkv.Errors.{ok, no_entry, entry_exists}
use liboffkv.Exec.{pure, raise, lift, ◌>>=◌, catch}
use liboffkv.Key.{KeyPath, root, parent}
use liboffkv.Client.{Int64, ExistsResult, ChildrenResult, GetResult, CasResult}
use liboffkv.Etcd.Service.{RangeResponse, TxnResponse, Reply, refused, invalid_argument, Etcd}
use liboffkv.Etcd.Naming.{make_subtree_range, make_direct_children_range}
use liboffkv.Etcd.Builder.{empty, add_check_exists, on_success, between, add_range_request}
use liboffkv.Etcd.Requests.{create_builder, set_builder, cas_builder, erase_builder}
use liboffkv.Etcd.Replies.{
  range_at, first_kv, first_version, is_present, exists_stop, children_stop, unwrap_all, created,
  compared, was_set, erased,
}
use liboffkv.Etcd.Session.{
  Run, call, ensure_succeeded, as_path, commit_txn, lease_if, watch_if, WatchHandle,
}

module _ (p : Etcd) where
  -- The key of the parent, if the parent is not the root.
  unfoldable pub parent_path : KeyPath → Run p (Option Bytes)
  parent_path k = do
    up ← lift (parent k)
    if root up then pure none else do q ← as_path p up; pure (some q)

  unfoldable pub create : KeyPath → Bytes → Bool → Run p Int64
  create k value lease = do
    path ← as_path p k
    q ← parent_path k
    id ← lease_if p lease
    b ← lift (create_builder q path value id)
    response ← commit_txn p b.txn
    lift (created response)

  -- The read of one key in `exists` and `get`.
  unfoldable pub read : Bytes → Bool → Run p RangeResponse
  read path keys_only = do
    reply ←
        call p (p.range (record { key = path; range_end = []; limit = 1; keys_only = keys_only }))
    ensure_succeeded p reply

  unfoldable pub exists : KeyPath → Bool → Run p (ExistsResult WatchHandle)
  exists k watch = do
    path ← as_path p k
    response ← read path true
    let exists = is_present response.kvs
    handle ←
        watch_if p watch
          (record { key = path; range_end = []; start_revision = response.revision + 1 })
          (exists_stop exists)
    version ← lift (if exists then first_version response.kvs else ok 0)
    pure (record { version = version; watch = handle })

  unfoldable pub get_children : KeyPath → Bool → Run p (ChildrenResult WatchHandle)
  get_children k watch = do
    (λ s. (make_direct_children_range s.client.prefix k, s)) >>= λ (begin, end). do
      path ← as_path p k
      b ←
          lift (
            add_range_request (between begin end) true 0 (on_success (add_check_exists path empty)))
      response ← commit_txn p b.txn
      r ← if response.succeeded then lift (range_at 0 response.responses) else raise no_entry
      children ← λ s. (unwrap_all s.client.prefix r.kvs, s)
      handle ←
          watch_if p watch
            (record { key = begin; range_end = end; start_revision = response.revision + 1 })
            (children_stop (map (λ kv. kv.key) r.kvs))
      pure (record { children = children; watch = handle })

  -- One turn of the loop of `set`: `none` at a `continue`.
  unfoldable pub set_attempt : KeyPath → Bytes → Bool → Run p (Option Int64)
  set_attempt k value expect_lease = do
    q ← parent_path k
    path ← as_path p k
    b ← lift (set_builder q path value expect_lease)
    reply ← call p (p.txn b.txn)
    answer reply
    where
      answer : Reply TxnResponse → Run p (Option Int64)
      answer (refused invalid_argument message) = pure none
      answer reply = do response ← ensure_succeeded p reply; lift (was_set response)

  -- The loop of `set`, for at most so many turns: `none` when they are used up.
  unfoldable pub set_loop : ℕ → KeyPath → Bytes → Bool → Run p (Option Int64)
  set_loop zero k value expect_lease = pure none
  set_loop (suc n) k value expect_lease = do
    r ← set_attempt k value (not expect_lease)
    elim r [ some version ↦ pure (some version) | none ↦ set_loop n k value (not expect_lease) ]

  unfoldable pub set : ℕ → KeyPath → Bytes → Run p (Option Int64)
  set turns k value = set_loop turns k value true

  unfoldable pub compare_and_set : KeyPath → Bytes → Int64 → Run p CasResult
  compare_and_set k value version = do
    path ← as_path p k
    b ← lift (cas_builder path value version)
    response ← commit_txn p b.txn
    lift (compared response)

  unfoldable pub cas : KeyPath → Bytes → Int64 → Run p CasResult
  cas k value version =
      if version == 0
      then catch (do v ← create k value false; pure (record { version = v }))
          (λ e. elim e [ entry_exists ↦ pure (record { version = 0 }) | other ↦ raise other ])
      else compare_and_set k value version

  unfoldable pub get : KeyPath → Bool → Run p (GetResult WatchHandle)
  get k watch = do
    path ← as_path p k
    response ← read path false
    kv ← if is_present response.kvs then lift (first_kv response.kvs) else raise no_entry
    handle ←
        watch_if p watch
          (record { key = path; range_end = []; start_revision = response.revision + 1 })
          (λ ev. true)
    pure (record { version = kv.version; value = kv.value; watch = handle })

  unfoldable pub erase : KeyPath → Int64 → Run p (Unit {0})
  erase k version = do
    path ← as_path p k
    range ← λ s. (make_subtree_range s.client.prefix k, s)
    b ← lift (erase_builder path range version)
    response ← commit_txn p b.txn
    lift (erased response)
