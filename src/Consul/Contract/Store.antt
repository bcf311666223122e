-- ===== src/Consul/Contract/Store.antt =====
-- Stored entries by key.
use liboffkv.Base.{
  ◌≡◌, refl, Bytes, bytes_eq, bytes_eq_iff, List, [], ◌∷◌, Option, none, some, if◌then◌else◌, arith,
}
use liboffkv.Util.{starts_with}
use liboffkv.Consul.Service.{KeyValue}

unfoldable pub lookup : Bytes → List KeyValue → Option KeyValue
lookup key [] = none
lookup key (kv ∷ s) = if bytes_eq kv.key key then some kv else lookup key s

unfoldable pub upsert : KeyValue → List KeyValue → List KeyValue
upsert new [] = new ∷ []
upsert new (kv ∷ s) =
    let later = kv ∷ upsert new s in if bytes_eq kv.key new.key then new ∷ s else later

unfoldable pub remove : Bytes → List KeyValue → List KeyValue
remove key [] = []
remove key (kv ∷ s) = let rest = remove key s in if bytes_eq kv.key key then rest else kv ∷ rest

unfoldable pub remove_prefix : Bytes → List KeyValue → List KeyValue
remove_prefix prefix [] = []
remove_prefix prefix (kv ∷ s) =
    let rest = remove_prefix prefix s in if starts_with prefix kv.key then rest else kv ∷ rest

unfoldable pub with_prefix : Bytes → List KeyValue → List KeyValue
with_prefix prefix [] = []
with_prefix prefix (kv ∷ s) =
    let rest = with_prefix prefix s in if starts_with prefix kv.key then kv ∷ rest else rest

pub lookup-upsert :
    (key : Bytes) (new : KeyValue) (s : List KeyValue)
    → lookup key (upsert new s) ≡ (if bytes_eq new.key key then some new else lookup key s)
unfolding lookup upsert
lookup-upsert key new [] = refl
lookup-upsert key new (kv ∷ s) = ground (
  arith,
  bytes_eq_iff kv.key new.key,
  bytes_eq_iff kv.key key,
  bytes_eq_iff new.key key,
  lookup-upsert key new s,
)

pub lookup-remove :
    (key gone : Bytes) (s : List KeyValue)
    → lookup key (remove gone s) ≡ (if bytes_eq gone key then none else lookup key s)
unfolding lookup remove
lookup-remove key gone [] = ground arith
lookup-remove key gone (kv ∷ s) = ground (
  arith,
  bytes_eq_iff kv.key gone,
  bytes_eq_iff kv.key key,
  bytes_eq_iff gone key,
  lookup-remove key gone s,
)

pub lookup-remove_prefix :
    (key prefix : Bytes) (s : List KeyValue)
    → lookup key (remove_prefix prefix s) ≡ (if starts_with prefix key then none else lookup key s)
unfolding lookup remove_prefix
lookup-remove_prefix key prefix [] = ground arith
lookup-remove_prefix key prefix (kv ∷ s) =
    ground (arith, bytes_eq_iff kv.key key, lookup-remove_prefix key prefix s)
