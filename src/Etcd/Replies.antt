-- ===== src/Etcd/Replies.antt =====
-- etcd_client.hpp: what the methods of `ETCDClient` read out of the service's replies.
use liboffkv.Base.{
  ℕ, Bool, true, false, not, ◌&&◌, ◌||◌, Bytes, bytes_eq, List, [], ◌∷◌, Option, none, some, ◌==◌,
  get_elem?, if◌then◌else◌,
}
use liboffkv.Errors.{Outcome, ok, throw, undefined, no_entry, entry_exists, ◌>>=◌}
use liboffkv.Key.{KeyPath}
use liboffkv.Client.{Int64, CasResult}
use liboffkv.Etcd.Service.{
  RangeResponse, KeyValue, ResponseOp, TxnResponse, Event, EventType, delete,
}
use liboffkv.Etcd.Naming.{unwrap_key}

-- `responses(i)->release_response_range()`; without such a response this is undefined behaviour.
abbrev pub as_range : Option ResponseOp → Outcome RangeResponse
as_range (some (ResponseOp.range r)) = ok r
as_range _ = throw undefined

abbrev pub range_at : ℕ → List ResponseOp → Outcome RangeResponse
range_at i responses = as_range (get_elem? responses i)

-- `kvs(0)`.
abbrev pub first_kv : List KeyValue → Outcome KeyValue
first_kv [] = throw undefined
first_kv (kv ∷ kvs) = ok kv

abbrev pub first_version : List KeyValue → Outcome Int64
first_version [] = throw undefined
first_version (kv ∷ kvs) = ok kv.version

abbrev pub is_present : List KeyValue → Bool
is_present [] = false
is_present (kv ∷ kvs) = true

abbrev pub is_delete : EventType → Bool
is_delete delete = true
is_delete _ = false

-- The condition under which the watch of `exists` ends.
unfoldable pub exists_stop : Bool → Event → Bool
exists_stop exists ev = is_delete ev.type && exists || not (is_delete ev.type) && not exists

unfoldable pub contains : Bytes → List Bytes → Bool
contains k [] = false
contains k (x ∷ xs) = bytes_eq x k || contains k xs

-- The condition under which the watch of `get_children` ends.
unfoldable pub children_stop : List Bytes → Event → Bool
children_stop old_keys ev =
    let old = contains ev.key old_keys in
    old && is_delete ev.type || not old && not (is_delete ev.type)

-- The loop over the keys of the children.
unfoldable pub unwrap_all : KeyPath → List KeyValue → Outcome (List Bytes)
unwrap_all prefix [] = ok []
unwrap_all prefix (kv ∷ kvs) = do
  k ← unwrap_key prefix kv.key
  ks ← unwrap_all prefix kvs
  ok (k ∷ ks)

-- `responses(i)->release_response_range()->kvs(0).version()`.
unfoldable pub version_at : ℕ → List ResponseOp → Outcome Int64
version_at i responses = do r ← range_at i responses; first_version r.kvs

-- The end of `create`.
unfoldable pub created : TxnResponse → Outcome Int64
created response = if response.succeeded then ok 1 else do
  r ← range_at 0 response.responses
  throw (if is_present r.kvs then entry_exists else no_entry)

-- The end of `cas`.
unfoldable pub compared : TxnResponse → Outcome CasResult
compared response =
    if response.succeeded
    then (do v ← version_at 1 response.responses; ok (record { version = v }))
    else do
      r ← range_at 0 response.responses
      if is_present r.kvs then ok (record { version = 0 }) else throw no_entry

-- The end of one turn of the loop of `set`; the loop goes on from `none`.
unfoldable pub was_set : TxnResponse → Outcome (Option Int64)
was_set response =
    if response.succeeded
    then (do v ← version_at 1 response.responses; ok (some v))
    else parent_is_missing response.responses
  where
    parent_is_missing : List ResponseOp → Outcome (Option Int64)
    parent_is_missing [] = ok none
    parent_is_missing (x ∷ xs) = do
      r ← as_range (some x)
      if is_present r.kvs then ok none else throw no_entry

-- The end of `erase`.
unfoldable pub erased : TxnResponse → Outcome (Unit {0})
erased response =
    if response.succeeded
    then ok tt
    else do r ← range_at 0 response.responses; if r.count == 0 then throw no_entry else ok tt
