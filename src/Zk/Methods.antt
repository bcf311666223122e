-- ===== src/Zk/Methods.antt =====
-- zk_client.hpp: the methods of `ZKClient` but `erase` and `commit`.
use liboffkv.Base.{
  ℕ, ◌-◌, ◌^◌, Bool, true, false, Bytes, slash, List, [], ◌∷◌, ◌++◌, Option, none, some, map, ◌==◌,
  if◌then◌else◌,
}
use liboffkv.Errors.{entry_exists}
use liboffkv.Exec.{pure, raise, ◌>>=◌, ◌>>◌, catch}
use liboffkv.Key.{KeyPath, segments}
use liboffkv.Client.{Int64, ExistsResult, ChildrenResult, GetResult, CasResult}
use liboffkv.Zk.Service.{
  ErrorCode, version_mismatch, error, Reply, done, fail, CreateMode, normal, ephemeral, Zk,
}
use liboffkv.Zk.Session.{Run, rethrow, uncaught, version_of, zk_version, call, or_throw, as_path}

abbrev pub mode : Bool → CreateMode
mode true = ephemeral
mode false = normal

-- The keys that `get_children` returns.
abbrev pub child_key : KeyPath → Bytes → Bytes
child_key key child = key.path ++ (slash ∷ child)

module _ (p : Zk) where
  -- One call of the service under `catch (zk::error &e) { rethrow_(e); }`.
  abbrev pub calling : {A : Type 0} → (p.World → Reply A × p.World) → Run p A
  calling f = do r ← call p f; or_throw p rethrow r

  -- The reply to the creation of one entry of the prefix.
  unfoldable pub created_or_there : Reply (Unit {0}) → Run p (Unit {0})
  created_or_there (fail (error ErrorCode.entry_exists what)) = pure tt
  created_or_there r = or_throw p rethrow r

  -- The loop of the constructor: `entry` grows by each segment.
  unfoldable pub create_prefix : Bytes → List Bytes → Run p (Unit {0})
  create_prefix entry [] = pure tt
  create_prefix entry (segment ∷ more) = do
    r ← call p (p.create (entry ++ (slash ∷ segment)) [] normal)
    created_or_there r
    create_prefix (entry ++ (slash ∷ segment)) more

  -- `ZKClient(address, prefix)`.
  unfoldable pub construct : Bytes → Run p (Unit {0})
  construct address = do
    calling (p.connect address)
    segs ← λ s. (segments s.prefix.path, s)
    create_prefix [] segs

  unfoldable pub create : KeyPath → Bytes → Bool → Run p Int64
  create key value lease = do
    path ← as_path p key
    calling (p.create path value (mode lease))
    pure 1

  -- `stat.has_value() ? version + 1 : 0`.
  abbrev pub stat_version : Option ℕ → Int64
  stat_version none = 0
  stat_version (some v) = version_of v

  unfoldable pub exists : KeyPath → Bool → Run p (ExistsResult p.Event)
  exists key true = do
    path ← as_path p key
    calling (p.watch_exists path) >>= λ (stat, event).
        pure (record { version = stat_version stat; watch = some event })
  exists key false = do
    path ← as_path p key
    stat ← calling (p.exists path)
    pure (record { version = stat_version stat; watch = none })

  unfoldable pub get_children : KeyPath → Bool → Run p (ChildrenResult p.Event)
  get_children key true = do
    path ← as_path p key
    calling (p.watch_children path) >>= λ (raw, event).
        pure (record { children = map (child_key key) raw; watch = some event })
  get_children key false = do
    path ← as_path p key
    raw ← calling (p.get_children path)
    pure (record { children = map (child_key key) raw; watch = none })

  -- The handler of `zk::entry_exists` in `set`. The other `zk::error`s of this second call are not
  -- caught: the handlers of a `try` do not guard one another.
  unfoldable pub overwritten : Reply ℕ → Run p Int64
  overwritten (done v) = pure (version_of v)
  overwritten (fail (error ErrorCode.no_entry what)) = pure (2 ^ 62)
  overwritten (fail f) = raise (uncaught f)

  unfoldable pub overwrite : Bytes → Bytes → Reply (Unit {0}) → Run p Int64
  overwrite path value (done _) = pure 1
  overwrite path value (fail (error ErrorCode.entry_exists what)) = do
    r ← call p (p.set path value none)
    overwritten r
  overwrite path value (fail f) = raise (rethrow f)

  unfoldable pub set : KeyPath → Bytes → Run p Int64
  set key value = do
    path ← as_path p key
    r ← call p (p.create path value normal)
    overwrite path value r

  unfoldable pub compared : Reply ℕ → Run p CasResult
  compared (done v) = pure (record { version = version_of v })
  compared (fail (error version_mismatch what)) = pure (record { version = 0 })
  compared (fail f) = raise (rethrow f)

  unfoldable pub compare_and_set : KeyPath → Bytes → Int64 → Run p CasResult
  compare_and_set key value version = do
    path ← as_path p key
    r ← call p (p.set path value (zk_version (version - 1)))
    compared r

  unfoldable pub cas : KeyPath → Bytes → Int64 → Run p CasResult
  cas key value version =
      if version == 0
      then catch (do v ← create key value false; pure (record { version = v }))
          (λ e. elim e [ entry_exists ↦ pure (record { version = 0 }) | other ↦ raise other ])
      else compare_and_set key value version

  unfoldable pub get : KeyPath → Bool → Run p (GetResult p.Event)
  get key true = do
    path ← as_path p key
    calling (p.watch path) >>= λ (entry, event). pure (record {
      version = version_of entry.data_version;
      value = entry.value;
      watch = some event;
    })
  get key false = do
    path ← as_path p key
    entry ← calling (p.get path)
    pure (record { version = version_of entry.data_version; value = entry.value; watch = none })

  -- `ZKWatchHandle_::wait`.
  unfoldable pub wait : p.Event → Run p (Unit {0})
  wait event = calling (p.await event)
