-- ===== src/Etcd/Requests.antt =====
-- etcd_client.hpp: the transactions that `create`, `set`, `cas` and `erase` build.
use liboffkv.Base.{Bool, true, false, Bytes, Option, none, some, ◌==◌, if◌then◌else◌}
use liboffkv.Errors.{Outcome, ok, ◌>>=◌}
use liboffkv.Client.{Int64}
use liboffkv.Etcd.Builder.{
  Builder, empty, add_check_exists, add_check_not_exists, add_version_compare, add_lease_compare,
  on_success, on_failure, add_put_request, key, between, add_range_request,
  add_delete_range_request,
}

-- The transaction of `create`.
unfoldable pub create_builder : Option Bytes → Bytes → Bytes → Int64 → Outcome Builder
create_builder parent_path path value lease = do
  let checked = add_check_not_exists path (check_parent parent_path)
  put ← add_put_request path value lease false (on_success checked)
  add_range_request (key path) true 1 (on_failure put)
  where
    check_parent : Option Bytes → Builder
    check_parent none = empty
    check_parent (some q) = add_check_exists q empty

-- The transaction of one turn of `set`.
unfoldable pub set_builder : Option Bytes → Bytes → Bytes → Bool → Outcome Builder
set_builder parent_path path value expect_lease = do
  b ← check_parent parent_path
  let b' = if expect_lease then b else add_lease_compare path 0 b
  put ← add_put_request path value 0 expect_lease (on_success b')
  add_range_request (key path) false 1 put
  where
    check_parent : Option Bytes → Outcome Builder
    check_parent none = ok empty
    check_parent (some q) = add_range_request (key q) true 1 (on_failure (add_check_exists q empty))

unfoldable pub cas_builder : Bytes → Bytes → Int64 → Outcome Builder
cas_builder path value version = do
  put ← add_put_request path value 0 true (on_success (add_version_compare path version empty))
  range ← add_range_request (key path) true 1 put
  add_range_request (key path) true 1 (on_failure range)

unfoldable pub erase_builder : Bytes → Bytes × Bytes → Int64 → Outcome Builder
erase_builder path (begin, end) version = do
  let checked =
      if version == 0 then add_check_exists path empty else add_version_compare path version empty
  one ← add_delete_range_request (key path) (on_success checked)
  all ← add_delete_range_request (between begin end) one
  add_range_request (key path) true 1 (on_failure all)
