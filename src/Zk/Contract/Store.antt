-- ===== src/Zk/Contract/Store.antt =====
-- The entries of a service by path.
use liboffkv.Base.{
  ℕ, ◌≡◌, ◌≢◌, refl, true, false, Bool, ◌||◌, Bytes, bytes_eq, bytes_eq_iff, slash, List, [], ◌∷◌,
  ◌++◌, Option, none, some, if◌then◌else◌, arith,
}
use liboffkv.Util.{starts_with}
use liboffkv.Zk.Service.{CreateMode}

pub record Node : Type 0 where
  pub path : Bytes
  pub value : Bytes
  pub data_version : ℕ
  pub mode : CreateMode

unfoldable pub lookup : Bytes → List Node → Option Node
lookup path [] = none
lookup path (n ∷ s) = if bytes_eq n.path path then some n else lookup path s

abbrev pub Has : Bytes → List Node → Type 0
Has path s = lookup path s ≢ none

unfoldable pub put : Node → List Node → List Node
put new [] = new ∷ []
put new (n ∷ s) = let later = n ∷ put new s in if bytes_eq n.path new.path then new ∷ s else later

unfoldable pub remove : Bytes → List Node → List Node
remove path [] = []
remove path (n ∷ s) = let rest = remove path s in if bytes_eq n.path path then rest else n ∷ rest

-- Whether an entry lies below the path.
unfoldable pub has_below : Bytes → List Node → Bool
has_below path [] = false
has_below path (n ∷ s) = starts_with (path ++ slash ∷ []) n.path || has_below path s

pub lookup-put :
    (k : Bytes) (new : Node) (s : List Node)
    → lookup k (put new s) ≡ (if bytes_eq new.path k then some new else lookup k s)
unfolding lookup put
lookup-put k new [] = refl
lookup-put k new (n ∷ s) = ground (
  arith,
  bytes_eq_iff n.path new.path,
  bytes_eq_iff n.path k,
  bytes_eq_iff new.path k,
  lookup-put k new s,
)

pub lookup-remove :
    (k path : Bytes) (s : List Node)
    → lookup k (remove path s) ≡ (if bytes_eq path k then none else lookup k s)
unfolding lookup remove
lookup-remove k path [] = ground arith
lookup-remove k path (n ∷ s) = ground (
  arith,
  bytes_eq_iff n.path path,
  bytes_eq_iff n.path k,
  bytes_eq_iff path k,
  lookup-remove k path s,
)

pub lookup_of_has_below :
    (path k : Bytes) (s : List Node)
    → has_below path s ≡ false
    → starts_with (path ++ slash ∷ []) k ≡ true
    → lookup k s ≡ none
unfolding has_below lookup
lookup_of_has_below path k [] h below = refl
lookup_of_has_below path k (n ∷ s) h below =
    ground (arith, h, below, bytes_eq_iff n.path k, lookup_of_has_below path k s)
