-- ===== src/Consul/Refine/Endings.antt =====
-- consul_client.hpp: what stands behind a prefix in the names that `get_children` reads.
use liboffkv.Base.{
  ◌≡◌, ◌↔◌, refl, Bool, true, false, ◌&&◌, Bool-cases, Bytes, bytes_eq, bytes_eq_iff, List, [], ◌∷◌,
  ◌++◌, Option, none, some, if◌then◌else◌, arith, All, length, drop, inl, inr,
}
use liboffkv.Util.{starts_with}
use liboffkv.Key.Segments.{NoSlash}
use liboffkv.Client.Spec.{listed}
use liboffkv.Consul.Service.{KeyValue}
use liboffkv.Consul.Naming.{has_slash}
use liboffkv.Consul.Contract.Store.{lookup}

-- What stands behind the prefix in the names that have it, if it holds no slash.
unfoldable pub endings : Bytes → List KeyValue → List Bytes
endings prefix [] = []
endings prefix (kv ∷ s) =
    let rest = endings prefix s in
    let ending = drop (length prefix) kv.key in
    if starts_with prefix kv.key then (if has_slash ending then rest else ending ∷ rest) else rest

pub has_slash_iff : (s : Bytes) → (has_slash s ≡ false) ↔ NoSlash s
unfolding has_slash
has_slash_iff [] = (λ _. tt, λ _. refl)
has_slash_iff (c ∷ s) = ground (arith, has_slash_iff s)

pub endings-NoSlash : (prefix : Bytes) (s : List KeyValue) → All NoSlash (endings prefix s)
unfolding endings
endings-NoSlash prefix [] = tt
endings-NoSlash prefix (kv ∷ s) = elim (Bool-cases (starts_with prefix kv.key)) [
  | inr e ↦ rw e (endings-NoSlash prefix s)
  | inl e ↦ elim (Bool-cases (has_slash (drop (length prefix) kv.key))) [
    | inl f ↦ rw (e, f) (endings-NoSlash prefix s)
    | inr f ↦ rw (e, f) ((has_slash_iff _).0 f, endings-NoSlash prefix s)
  ]
]

-- A name with the prefix is the prefix and the rest.
name_eq :
    (prefix t name : Bytes)
    → bytes_eq name (prefix ++ t)
      ≡ (starts_with prefix name && bytes_eq (drop (length prefix) name) t)
unfolding bytes_eq starts_with
name_eq [] t name = refl
name_eq (c ∷ prefix) t [] = refl
name_eq (c ∷ prefix) t (d ∷ name) = ground (arith, name_eq prefix t name)

abbrev pub present : Option KeyValue → Bool
present none = false
present (some kv) = true

-- A slash-free ending is listed exactly if the name has an entry.
pub listed-endings :
    (prefix t : Bytes) (s : List KeyValue)
    → NoSlash t
    → listed t (endings prefix s) ≡ present (lookup (prefix ++ t) s)
unfolding listed endings lookup
listed-endings prefix t [] n = refl
listed-endings prefix t (kv ∷ s) n = ground (
  arith,
  name_eq prefix t kv.key,
  listed-endings prefix t s n,
  bytes_eq_iff (drop (length prefix) kv.key) t,
  has_slash_iff t,
)
