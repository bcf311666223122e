-- ===== src/Etcd/Refine/Requirements.antt =====
-- etcd_client.hpp, `commit`: what a transaction requires of the stored keys, said without its
-- requests.
use liboffkv.Base.{
  ℕ, ◌+◌, Bool, true, false, ◌&&◌, not, Bytes, List, [], ◌∷◌, ◌++◌, Option, none, some, map, ◌==◌,
  if◌then◌else◌, ◌≡◌,
}
use liboffkv.Errors.{Outcome, ok, ◌>>=◌}
use liboffkv.Key.{KeyPath, root, parent}
use liboffkv.Client.{Int64, TxnCheck, TxnOp, Transaction}
use liboffkv.Etcd.Service.{RequestOp, ResponseOp}
use liboffkv.Etcd.Naming.{as_path_string}

pub data Requirement : Type 0 where
  absent : Bytes → Requirement
  present : Bytes → Requirement
  has_version : Bytes → Int64 → Requirement

-- Whether a key should exist, as a requirement.
abbrev pub existence : Bytes × Bool → Requirement
existence (key, true) = present key
existence (key, false) = absent key

-- The versions of the stored keys.
abbrev pub Versions : Type 0
Versions = Bytes → Option Int64

abbrev pub is_some : Option Int64 → Bool
is_some none = false
is_some (some v) = true

abbrev pub is_version : Int64 → Option Int64 → Bool
is_version version none = false
is_version version (some v) = version == v

abbrev pub is_met : Versions → Requirement → Bool
is_met f (absent key) = not (is_some (f key))
is_met f (present key) = is_some (f key)
is_met f (has_version key version) = is_version version (f key)

abbrev pub all_met : Versions → List Requirement → Bool
all_met f [] = true
all_met f (r ∷ rs) = is_met f r && all_met f rs

-- The first group, counted from `i` on, with a requirement that is not met.
unfoldable pub first_unmet : Versions → ℕ → List (List Requirement) → Option ℕ
first_unmet f i [] = none
first_unmet f i (g ∷ gs) =
    let later = first_unmet f (i + 1) gs in elim (all_met f g) [ true ↦ later | false ↦ some i ]

unfoldable pub each : {A B : Type 0} → (A → Outcome B) → List A → Outcome (List B)
each f [] = ok []
each f (x ∷ xs) = do y ← f x; ys ← each f xs; ok (y ∷ ys)

-- The key of the parent, which should exist, if that is not the root.
abbrev pub parent_item : Option Bytes → List (Bytes × Bool)
parent_item none = []
parent_item (some q) = (q, true) ∷ []

unfoldable pub parent_key : KeyPath → KeyPath → Outcome (Option Bytes)
parent_key prefix k = do
  up ← parent k
  if root up then ok none else (do q ← as_path_string prefix up; ok (some q))

-- A check with the key under which its path is stored.
unfoldable pub check_item : KeyPath → TxnCheck → Outcome (Bytes × TxnCheck)
check_item prefix c = do path ← as_path_string prefix c.key; ok (path, c)

-- The keys that matter to an operation, and whether they should exist.
unfoldable pub op_item : KeyPath → TxnOp → Outcome (List (Bytes × Bool))
op_item prefix (TxnOp.create k value lease) = do
  path ← as_path_string prefix k
  q ← parent_key prefix k
  ok ((path, false) ∷ parent_item q)
op_item prefix (TxnOp.set k value) = do path ← as_path_string prefix k; ok ((path, true) ∷ [])
op_item prefix (TxnOp.erase k) = do path ← as_path_string prefix k; ok ((path, true) ∷ [])

abbrev pub check_group : Bytes × TxnCheck → List Requirement
check_group (path, c) = has_version path c.version ∷ []

abbrev pub op_group : List (Bytes × Bool) → List Requirement
op_group items = map existence items

abbrev pub expected : List (Bytes × Bool) → List Bool
expected items = map (λ x. x.1) items

-- The requirements of a transaction, one group for each check and then for each operation.
unfoldable pub requirements : KeyPath → Transaction → Outcome (List (List Requirement))
requirements prefix t = do
  checks ← each (check_item prefix) t.checks
  ops ← each (op_item prefix) t.ops
  ok (map check_group checks ++ map op_group ops)

-- The read of a failed transaction that tells whether a requirement is met.
abbrev pub probe : Bytes → Bool → RequestOp
probe key keys_only =
    RequestOp.range (record { key = key; range_end = []; limit = 1; keys_only = keys_only })

abbrev pub request_of : Requirement → RequestOp
request_of (absent key) = probe key true
request_of (present key) = probe key true
request_of (has_version key version) = probe key false

abbrev pub found : Option Int64 → List Int64
found none = []
found (some v) = v ∷ []

-- etcd answers a read of one key with the key, if it is there.
abbrev pub Answers : Versions → RequestOp → ResponseOp → Type 0
Answers f (RequestOp.range q) (ResponseOp.range r) = map (λ kv. kv.version) r.kvs ≡ found (f q.key)
Answers f (RequestOp.range q) _ = ⊥
Answers f _ response = Unit

unfoldable pub concat : {A : Type 0} → List (List A) → List A
concat [] = []
concat (g ∷ gs) = g ++ concat gs
