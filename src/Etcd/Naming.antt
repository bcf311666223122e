-- ===== src/Etcd/Naming.antt =====
-- etcd_client.hpp: the keys under which etcd stores the paths, the ranges of a path's children and
-- descendants, and the way back from a key to a path.
pub mod Laws
pub mod Ranges
pub mod Unwrap
mod Examples
use liboffkv.Base.{
  ℕ, ◌+◌, ◌-◌, ◌%◌, ◌^◌, Bytes, codes, slash, List, [], ◌∷◌, ◌++◌, Option, none, some, length, take,
  drop, ltb, if◌then◌else◌,
}
use liboffkv.Errors.{Outcome, ok, throw, foreign, ◌>>=◌}
use liboffkv.Key.{KeyPath, root, segments, join, rfind_slash}

-- The loop of `as_path_string_`: the last segment is marked by a zero byte.
unfoldable pub append_segments : List Bytes → Bytes
append_segments [] = []
append_segments (s ∷ []) = slash ∷ 0 ∷ s
append_segments (s ∷ t ∷ ss) = slash ∷ (s ++ append_segments (t ∷ ss))

unfoldable pub as_path_string : KeyPath → KeyPath → Outcome Bytes
as_path_string prefix path =
    if root path
    then ok prefix.path
    else do segs ← segments path.path; ok (prefix.path ++ append_segments segs)

unfoldable pub make_subtree_range : KeyPath → KeyPath → Outcome (Bytes × Bytes)
make_subtree_range prefix path = do
  full ← join prefix path
  ok (full.path ++ slash ∷ [], full.path ++ (slash + 1) ∷ [])

unfoldable pub make_direct_children_range : KeyPath → KeyPath → Outcome (Bytes × Bytes)
make_direct_children_range prefix path = do
  full ← join prefix path
  ok (full.path ++ slash ∷ 0 ∷ [], full.path ++ slash ∷ (0 + 1) ∷ [])

abbrev pub size_mod : ℕ
size_mod = 2 ^ 64

-- `rfind('/')` as a `size_t`; `npos` is the greatest.
abbrev pub position : Option ℕ → ℕ
position none = size_mod - 1
position (some n) = n

-- `substr(pos, count)`.
unfoldable pub substr : Bytes → ℕ → ℕ → Outcome Bytes
substr s pos count =
    if ltb (length s) pos
    then throw (foreign (codes "basic_string::substr"))
    else ok (take count (drop pos s))

unfoldable pub unwrap_key : KeyPath → Bytes → Outcome Bytes
unwrap_key prefix full_path = do
  let pos = position (rfind_slash full_path)
  let size = length prefix.path
  parents ← substr full_path size ((pos + 1 + (size_mod - size)) % size_mod)
  last ← substr full_path ((pos + 2) % size_mod) (size_mod - 1)
  ok (parents ++ last)
