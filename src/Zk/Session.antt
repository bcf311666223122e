-- ===== src/Zk/Session.antt =====
-- zk_client.hpp: the client's fields, its calls of the service, and what it makes of errors.
use liboffkv.Base.{ℕ, ◌+◌, ◌-◌, ◌%◌, ◌^◌, Bytes, Option, none, some, ◌==◌, if◌then◌else◌}
use liboffkv.Errors.{
  Exception, Outcome, ok, no_entry, entry_exists, connection_loss, no_children_for_ephemeral,
  service_error, foreign, ◌>>=◌,
}
use liboffkv.Exec.{Exec, pure, raise}
use liboffkv.Key.{KeyPath, join}
use liboffkv.Client.{Int64}
use liboffkv.Zk.Service.{ErrorCode, Failure, error, transaction_failed, Reply, done, fail, Zk}

-- `client_` is the parameter `p` below.
pub record State (p : Zk) : Type 0 where
  pub prefix : KeyPath
  pub world : p.World

-- `rethrow_`.
unfoldable pub rethrow : Failure → Exception
rethrow (error ErrorCode.no_entry what) = no_entry
rethrow (error ErrorCode.entry_exists what) = entry_exists
rethrow (error ErrorCode.connection_loss what) = connection_loss
rethrow (error ErrorCode.no_children_for_ephemerals what) = no_children_for_ephemeral
rethrow (error ErrorCode.version_mismatch what) = service_error what
rethrow (error ErrorCode.not_empty what) = service_error what
rethrow (error ErrorCode.other_code what) = service_error what
rethrow (transaction_failed index what) = service_error what

-- A `zk::error` that no handler catches.
abbrev pub uncaught : Failure → Exception
uncaught (error code what) = foreign what
uncaught (transaction_failed index what) = foreign what

unfoldable pub as_path_string : KeyPath → KeyPath → Outcome Bytes
as_path_string prefix path = do full ← join prefix path; ok full.path

-- `static_cast<int64_t>(data_version.value) + 1`.
abbrev pub version_of : ℕ → Int64
version_of data_version = data_version + 1

-- `zk::version(v)`: the conversion to the `int32_t` that it holds keeps the lower 32 bits. With all of
-- them set it is -1, which is `zk::version::any()`.
abbrev pub zk_version : Int64 → Option ℕ
zk_version v = if v % 2 ^ 32 == 2 ^ 32 - 1 then none else some (v % 2 ^ 32)

-- `version ? zk::version(version - 1) : zk::version::any()`.
abbrev pub expected : Int64 → Option ℕ
expected version = if version == 0 then none else zk_version (version - 1)

module _ (p : Zk) where
  abbrev pub Run : Type 0 → Type 0
  Run A = Exec (State p) A

  abbrev pub after : {A : Type 0} → State p → A × p.World → Outcome A × State p
  after s (r, w) = (ok r, record s { world = w })

  -- A call of the service, with what it throws as a value.
  abbrev pub call : {A : Type 0} → (p.World → A × p.World) → Run A
  call f s = after s (f s.world)

  abbrev pub or_throw : {A : Type 0} → (Failure → Exception) → Reply A → Run A
  or_throw h (done a) = pure a
  or_throw h (fail f) = raise (h f)

  abbrev pub as_path : KeyPath → Run Bytes
  as_path path s = (as_path_string s.prefix path, s)
