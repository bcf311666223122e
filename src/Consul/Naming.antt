-- ===== src/Consul/Naming.antt =====
-- consul_client.hpp: the keys under which Consul stores the paths, and the way back to the children.
pub mod Laws
use liboffkv.Base.{
  ℕ, zero, suc, ◌+◌, ◌-◌, ◌/◌, max, Bool, true, false, not, ◌&&◌, Bytes, codes, slash, is_slash,
  List, [], ◌∷◌, ◌++◌, Option, none, some, length, drop, ltb, ◌==◌, if◌then◌else◌, map,
}
use mathlib.Core.List.{foldl}
use liboffkv.Errors.{Outcome, ok, throw, foreign, undefined, ◌>>=◌}
use liboffkv.Key.{KeyPath, is_empty, segments, join}
use liboffkv.Client.{Int64, Kind, TxnOpResult}
use liboffkv.Consul.Service.{KeyValue, TxnOperation}

unfoldable pub append_segment : Bytes → Bytes → Bytes
append_segment result segment =
    (if is_empty result then result else result ++ slash ∷ []) ++ segment

-- `as_path_string_`: the segments of prefix and path, with slashes between them.
unfoldable pub as_path_string : KeyPath → KeyPath → Outcome Bytes
as_path_string prefix path = do
  full ← join prefix path
  segs ← segments full.path
  ok (foldl append_segment [] segs)

-- `substr(pos)`.
unfoldable pub substr_from : ℕ → Bytes → Outcome Bytes
substr_from pos s =
    if ltb (length s) pos then throw (foreign (codes "basic_string::substr")) else ok (drop pos s)

unfoldable pub has_slash : Bytes → Bool
has_slash [] = false
has_slash (c ∷ s) = if is_slash c then true else has_slash s

-- One turn of the loop of `get_children`, on the key of a result.
unfoldable pub child_name : ℕ → ℕ → Bytes → Outcome (List Bytes)
child_name nchild_prefix nglobal_prefix key =
    if has_slash (drop nchild_prefix key)
    then ok []
    else if nglobal_prefix == 0
    then ok ((slash ∷ key) ∷ [])
    else do child ← substr_from nglobal_prefix key; ok (child ∷ [])

-- The loop runs over all results but the last.
unfoldable pub child_names : ℕ → ℕ → List KeyValue → Outcome (List Bytes)
child_names n g [] = ok []
child_names n g (kv ∷ []) = ok []
child_names n g (kv ∷ more) = do
  here ← child_name n g kv.key
  rest ← child_names n g more
  ok (here ++ rest)

unfoldable pub max_index : ℕ → List KeyValue → ℕ
max_index m [] = m
max_index m (kv ∷ []) = m
max_index m (kv ∷ more) = max_index (max m kv.modify_index) more
