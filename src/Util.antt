-- ===== src/Util.antt =====
-- util.hpp: `split_url`.
pub mod Laws
mod Examples
use liboffkv.Base.{
  ℕ, suc, ◌+◌, Bool, true, false, ◌&&◌, Bytes, codes, List, [], ◌∷◌, Option, none, some, take, drop,
  length, if◌then◌else◌, ◌==◌,
}
use liboffkv.Errors.{Outcome, ok, throw, invalid_address}

unfoldable pub starts_with : Bytes → Bytes → Bool
starts_with [] s = true
starts_with (p ∷ ps) [] = false
starts_with (p ∷ ps) (c ∷ s) = p == c && starts_with ps s

abbrev pub raise_pos : Option ℕ → Option ℕ
raise_pos none = none
raise_pos (some n) = some (suc n)

-- `find(pattern)`: the first position at which the pattern stands; `none` is `npos`.
unfoldable pub find : Bytes → Bytes → Option ℕ
find pattern [] = if starts_with pattern [] then some 0 else none
find pattern (c ∷ s) =
    let later = raise_pos (find pattern s) in if starts_with pattern (c ∷ s) then some 0 else later

abbrev pub delim : Bytes
delim = codes "://"

unfoldable pub split_url : Bytes → Outcome (Bytes × Bytes)
split_url url = elim (find delim url) [
  | none ↦ throw (invalid_address (codes "URL must be of 'protocol://address' format"))
  | some pos ↦ ok (take pos url, drop (pos + length delim) url)
]
