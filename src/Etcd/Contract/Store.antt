-- ===== src/Etcd/Contract/Store.antt =====
-- etcd's stored entries by key.
use liboffkv.Base.{
  ◌≡◌, refl, Bool, Bytes, bytes_eq, bytes_eq_iff, List, [], ◌∷◌, Option, none, some, if◌then◌else◌,
  arith,
}
use liboffkv.Etcd.Service.{KeyValue}
use liboffkv.Etcd.Naming.Ranges.{in_range}

unfoldable pub lookup : Bytes → List KeyValue → Option KeyValue
lookup key [] = none
lookup key (kv ∷ s) = if bytes_eq kv.key key then some kv else lookup key s

unfoldable pub upsert : KeyValue → List KeyValue → List KeyValue
upsert new [] = new ∷ []
upsert new (kv ∷ s) =
    let later = kv ∷ upsert new s in if bytes_eq kv.key new.key then new ∷ s else later

-- Whether a request for a range is about the key. An empty end means the one key.
unfoldable pub covers : Bytes → Bytes → Bytes → Bool
covers begin [] key = bytes_eq begin key
covers begin (c ∷ end) key = in_range key (begin, c ∷ end)

unfoldable pub within : Bytes → Bytes → List KeyValue → List KeyValue
within begin end [] = []
within begin end (kv ∷ s) =
    let rest = within begin end s in if covers begin end kv.key then kv ∷ rest else rest

unfoldable pub remove_within : Bytes → Bytes → List KeyValue → List KeyValue
remove_within begin end [] = []
remove_within begin end (kv ∷ s) =
    let rest = remove_within begin end s in if covers begin end kv.key then rest else kv ∷ rest

pub lookup-upsert :
    (key : Bytes) (new : KeyValue) (s : List KeyValue)
    → lookup key (upsert new s) ≡ (if bytes_eq new.key key then some new else lookup key s)
unfolding lookup upsert
lookup-upsert key new [] = refl
lookup-upsert key new (kv ∷ s) = ground (
  arith,
  bytes_eq_iff kv.key new.key,
  bytes_eq_iff kv.key key,
  bytes_eq_iff new.key key,
  lookup-upsert key new s,
)

pub lookup-remove_within :
    (key begin end : Bytes) (s : List KeyValue)
    → lookup key (remove_within begin end s) ≡ (if covers begin end key then none else lookup key s)
unfolding lookup remove_within
lookup-remove_within key begin end [] = ground arith
lookup-remove_within key begin end (kv ∷ s) =
    ground (arith, bytes_eq_iff kv.key key, lookup-remove_within key begin end s)
