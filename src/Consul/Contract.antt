-- ===== src/Consul/Contract.antt =====
-- What Consul documents of its key-value transactions, as a hypothesis on the calls that
-- consul_client.hpp makes. Transactions that lock a key are left out.
pub mod Store
use liboffkv.Base.{
  ℕ, suc, ◌<◌, ◌≡◌, Bool, true, false, Bytes, List, [], ◌∷◌, ◌++◌, Option, none, some, ◌==◌,
  if◌then◌else◌, All,
}
use liboffkv.Consul.Service.{
  TxnOperation, get, get_all, check_not_exists, check_index, set, compare_set, lock, erase,
  erase_all, compare_erase, KeyValue, Item, Reply, done, fail, aborted, bad_status, other_error,
  Ppconsul,
}
use Store.{lookup, upsert, remove, remove_prefix, with_prefix}

-- An operation on the stored entries: the entries that it leaves and those that it reports, or
-- `none` if it fails the transaction.
abbrev pub Step : Type 0
Step = Option (List KeyValue × List KeyValue)

abbrev entry : ℕ → Bytes → Bytes → KeyValue
entry index key value = record { key = key; value = value; modify_index = index; session = [] }

write : ℕ → Bytes → Bytes → List KeyValue → Step
write index key value s = some (upsert (entry index key value) s, entry index key [] ∷ [])

if_index : Option KeyValue → ℕ → Step → Step
if_index none index step = none
if_index (some kv) index step = if kv.modify_index == index then step else none

report : Option KeyValue → List KeyValue → Step
report none s = none
report (some kv) s = some (s, kv ∷ [])

if_absent : Option KeyValue → List KeyValue → Step
if_absent none s = some (s, [])
if_absent (some kv) s = none

unfoldable pub apply : ℕ → TxnOperation → List KeyValue → Step
unfolding write if_index report if_absent
apply n (get key) s = report (lookup key s) s
apply n (get_all prefix) s = some (s, with_prefix prefix s)
apply n (check_not_exists key) s = if_absent (lookup key s) s
apply n (check_index key index) s = if_index (lookup key s) index (report (lookup key s) s)
apply n (set key value) s = write n key value s
apply n (compare_set key index value) s =
    if index == 0
    then elim (lookup key s) [ none ↦ write n key value s | some kv ↦ none ]
    else if_index (lookup key s) index (write n key value s)
apply n (lock key value session) s = none
apply n (erase key) s = some (remove key s, [])
apply n (erase_all prefix) s = some (remove_prefix prefix s, [])
apply n (compare_erase key index) s = if_index (lookup key s) index (some (remove key s, []))

pub data Ran : Type 0 where
  all_done : (left : List KeyValue) → (reported : List KeyValue) → Ran
  failed_at : ℕ → Ran

abbrev reporting : List KeyValue → Ran → Ran
reporting out (all_done s more) = all_done s (out ++ more)
reporting out (failed_at i) = failed_at i

-- The operations in order, the first of them at position `i`, up to the first that fails.
unfoldable pub run : ℕ → ℕ → List TxnOperation → List KeyValue → Ran
unfolding apply
run n i [] s = all_done s []
run n i (op ∷ ops) s = elim (apply n op s) [
  | none ↦ failed_at i
  | some (s', out) ↦ reporting out (run n (suc i) ops s')
]

abbrev pub LockFree : TxnOperation → Type 0
LockFree (lock key value session) = ⊥
LockFree _ = Unit

-- A transaction that is answered has run as a whole, under a fresh positive index, or one that is
-- reported as aborted has changed nothing.
abbrev pub Agrees :
    List TxnOperation → List KeyValue → Reply (List KeyValue) → List KeyValue → Type 0
Agrees txn before (done results) after =
    (n : ℕ) × (0 < n) × (run n 0 txn before ≡ all_done after results)
Agrees txn before (fail (aborted what first more)) after =
    (n : ℕ) × (run n 0 txn before ≡ failed_at first) × (after ≡ before)
Agrees txn before (fail other) after = Unit

-- Consul has run the transaction, or reports at which operation it failed.
abbrev pub IsAnswered : Reply (List KeyValue) → Type 0
IsAnswered (done results) = Unit
IsAnswered (fail (aborted what first more)) = Unit
IsAnswered (fail other) = ⊥

abbrev pub Shows : Bytes → List KeyValue → Reply Item → List KeyValue → Type 0
Shows key before (done item) after =
    (after ≡ before)
    × (item.found ≡ lookup key before)
    × ((kv : KeyValue) → lookup key before ≡ some kv → item.index ≡ kv.modify_index)
Shows key before (fail f) after = Unit

pub record Contract (p : Ppconsul) : Type 0 where
  pub view : p.World → List KeyValue
  pub commits :
      (txn : List TxnOperation) (w : p.World)
      → All LockFree txn
      → Agrees txn (view w) (p.commit txn w).0 (view (p.commit txn w).1)
  pub items :
      (key : Bytes) (w : p.World) → Shows key (view w) (p.item key w).0 (view (p.item key w).1)
