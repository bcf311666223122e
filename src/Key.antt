-- ===== src/Key.antt =====
-- key.hpp: `Path` is `KeyPath` here, `Key` is a path that is not the root.
pub mod Segments
pub mod Parent
pub mod Descendants
mod Examples
use liboffkv.Base.{
  ℕ, Bool, true, false, not, ◌&&◌, ◌||◌, ◌≡◌, Bytes, codes, slash, is_slash, bytes_eq, List, [],
  ◌∷◌, ◌++◌, Option, none, some, suc, take, leb, if◌then◌else◌,
}
use liboffkv.Errors.{Outcome, ok, throw, invalid_key, ◌>>=◌}

abbrev pub is_empty : Bytes → Bool
is_empty [] = true
is_empty (c ∷ cs) = false

-- The bytes that a segment may hold: the loop refuses `c <= 0x1F || c >= 0x7F`.
unfoldable pub all_printable : Bytes → Bool
all_printable [] = true
all_printable (c ∷ cs) = if leb c 0x1F || leb 0x7F c then false else all_printable cs

unfoldable pub validate_segment : Bytes → Bool
validate_segment segment =
    if all_printable segment
    then not (is_empty segment)
      && not (bytes_eq segment (codes "."))
      && not (bytes_eq segment (codes ".."))
      && not (bytes_eq segment (codes "zookeeper"))
    else false

-- The `while` loop of `segments`: `cur` is what `std::find` has passed over since the last slash.
unfoldable pub scan : Bytes → Bytes → List Bytes
scan cur [] = cur ∷ []
scan cur (c ∷ rest) =
    let closed = cur ∷ scan [] rest in
    let longer = scan (cur ++ c ∷ []) rest in if is_slash c then closed else longer

-- `Path::segments` of the string `path_`.
unfoldable pub segments : Bytes → Outcome (List Bytes)
segments [] = ok []
segments (c ∷ rest) = if is_slash c then ok (scan [] rest) else throw (invalid_key (c ∷ rest))

pub record KeyPath : Type 0 where
  pub path : Bytes

unfoldable pub all_valid : List Bytes → Bool
all_valid [] = true
all_valid (s ∷ ss) = if validate_segment s then all_valid ss else false

-- The constructor of `Path`.
unfoldable pub make_path : Bytes → Outcome KeyPath
make_path path = do
  segs ← segments path
  if all_valid segs then ok (record { path = path }) else throw (invalid_key path)

unfoldable pub root : KeyPath → Bool
root p = is_empty p.path

-- The constructor of `Key`.
unfoldable pub make_key : Bytes → Outcome KeyPath
make_key key = do p ← make_path key; if root p then throw (invalid_key p.path) else ok p

-- `rfind('/')`.
unfoldable pub rfind_slash : Bytes → Option ℕ
rfind_slash [] = none
rfind_slash (c ∷ cs) = elim (rfind_slash cs) [
  | some i ↦ some (suc i)
  | none ↦ if is_slash c then some 0 else none
]

-- `substr(0, pos)`, where `none` is `npos`.
abbrev substr_to : Bytes → Option ℕ → Bytes
substr_to s none = s
substr_to s (some n) = take n s

unfoldable pub parent : KeyPath → Outcome KeyPath
parent p = if root p then ok p else make_path (substr_to p.path (rfind_slash p.path))

-- `operator /`.
unfoldable pub join : KeyPath → KeyPath → Outcome KeyPath
join p that = make_path (p.path ++ that.path)
