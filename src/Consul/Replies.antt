-- ===== src/Consul/Replies.antt =====
-- consul_client.hpp: what the handlers of each method make of an answer.
use liboffkv.Base.{ℕ, Bool, false, ◌&&◌, Bytes, List, Option, none, some, ◌==◌, if◌then◌else◌}
use liboffkv.Errors.{
  Exception, Outcome, ok, throw, no_entry, entry_exists, txn_failed, service_error, foreign,
}
use liboffkv.Errors.{◌>>=◌}
use liboffkv.Client.{Int64, GetResult, CasResult, TxnOpResult}
use liboffkv.Consul.Service.{
  KeyValue, Item, Reply, done, fail, Failure, aborted, bad_status, other_error,
}
use liboffkv.Consul.Commit.{Batch, back_index, answer}
use liboffkv.Boundaries.{lower_bound}

-- In seconds.
abbrev pub watch_timeout : ℕ
watch_timeout = 120

-- `ConsulWatchHandle_`.
pub record WatchHandle : Type 0 where
  pub key : Bytes
  pub old_version : ℕ
  pub all_with_prefix : Bool

-- `rethrow_`: only `BadStatus` becomes an exception of the library.
unfoldable pub rethrow : Failure → Exception
rethrow (aborted what first more) = foreign what
rethrow (bad_status what) = service_error what
rethrow (other_error what) = foreign what

-- An exception of the client library that no handler catches.
unfoldable pub uncaught : Failure → Exception
uncaught (aborted what first more) = foreign what
uncaught (bad_status what) = foreign what
uncaught (other_error what) = foreign what

-- The handlers of `create`; an aborted transaction names the first operation that failed.
unfoldable pub created : Bool → Reply (List KeyValue) → Outcome Int64
created has_parent (done results) = back_index results
created has_parent (fail (aborted what first more)) =
    if has_parent && first == 0
    then throw no_entry
    else if first == (if has_parent then 1 else 0)
    then throw entry_exists
    else throw (foreign what)
created has_parent (fail other) = throw (rethrow other)

unfoldable pub was_set : Reply (List KeyValue) → Outcome Int64
was_set (done results) = back_index results
was_set (fail (aborted what first more)) = throw no_entry
was_set (fail other) = throw (rethrow other)

unfoldable pub compared : Reply (List KeyValue) → Outcome CasResult
compared (done results) = do v ← back_index results; ok (record { version = v })
compared (fail (aborted what first more)) =
    if first == 0 then throw no_entry else ok (record { version = 0 })
compared (fail other) = throw (rethrow other)

unfoldable pub erased : Reply (List KeyValue) → Outcome (Unit {0})
erased (done results) = ok tt
erased (fail (aborted what first more)) = if first == 0 then throw no_entry else ok tt
erased (fail other) = throw (rethrow other)

unfoldable pub committed : Batch → Reply (List KeyValue) → Outcome (List TxnOpResult)
committed b (done results) = answer results b.kinds
committed b (fail (aborted what first more)) = throw (txn_failed (lower_bound b.boundaries first))
committed b (fail other) = throw (rethrow other)

-- `make_watch_handle_`, if it is asked for.
unfoldable pub watch_if : Bool → Bytes → ℕ → Bool → Option WatchHandle
watch_if watch key old_version all_with_prefix =
    if watch
    then some (record { key = key; old_version = old_version; all_with_prefix = all_with_prefix })
    else none

-- The version that `exists` reports: 0 if there is no valid data.
unfoldable pub present_index : Item → Int64
present_index item = elim item.found [ none ↦ 0 | some kv ↦ item.index ]

-- What `get` makes of the item.
unfoldable pub got : Bool → Bytes → ℕ → Option KeyValue → Outcome (GetResult WatchHandle)
got watch key_string index none = throw no_entry
got watch key_string index (some kv) =
    ok (record { version = index; value = kv.value; watch = watch_if watch key_string index false })

unfoldable pub no_entry_or_rethrow : Failure → Exception
no_entry_or_rethrow (aborted what first more) = no_entry
no_entry_or_rethrow other = rethrow other
