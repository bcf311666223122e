-- ===== src/Boundaries.antt =====
-- `std::lower_bound`, with which the `commit` of consul_client.hpp and of zk_client.hpp finds the
-- caller's item to which a failed operation belongs.
pub mod Ends
use liboffkv.Base.{ℕ, suc, List, [], ◌∷◌, ltb, if◌then◌else◌}

-- `std::lower_bound(begin, end, value) - begin`: the first entry that is not below the value.
unfoldable pub lower_bound : List ℕ → ℕ → ℕ
lower_bound [] v = 0
lower_bound (b ∷ bs) v = let later = suc (lower_bound bs v) in if ltb b v then later else 0
