-- ===== src/Zk/Contract.antt =====
-- What ZooKeeper documents of its entries and its transactions, as a hypothesis on the calls that
-- zk_client.hpp makes.
pub mod Store
use liboffkv.Base.{
  ℕ, zero, suc, ◌≡◌, ◌⊎◌, Bool, true, false, ◌||◌, Bytes, List, [], ◌∷◌, ◌++◌, Option, none, some,
  ◌==◌, take, if◌then◌else◌,
}
use liboffkv.Key.{is_empty, rfind_slash}
use liboffkv.Zk.Service.{
  ErrorCode, Failure, error, transaction_failed, version_mismatch, Reply, done, fail, CreateMode,
  normal, ephemeral, Op, Result, Entry, Zk,
}
use Store.{Node, Has, lookup, put, remove, has_below}

abbrev pub parent_of : Bytes → Bytes
parent_of path = elim (rfind_slash path) [ none ↦ [] | some i ↦ take i path ]

abbrev bears : CreateMode → Bool
bears normal = true
bears ephemeral = false

abbrev bearing : Option Node → Bool
bearing none = false
bearing (some n) = bears n.mode

-- Whether an entry may be created below this path: at the root, or below a normal entry.
abbrev pub may_bear : Bytes → List Node → Bool
may_bear parent s = if is_empty parent then true else bearing (lookup parent s)

-- The path is that of an entry, or the root.
abbrev pub IsThere : Bytes → List Node → Type 0
IsThere path s = (path ≡ []) ⊎ Has path s

abbrev pub matches : Option ℕ → ℕ → Bool
matches none version = true
matches (some expected) version = expected == version

-- An entry with a new value.
abbrev pub rewritten : Node → Bytes → Node
rewritten e data_ = record e { value = data_; data_version = suc e.data_version }

-- An operation on the entries: what it leaves and its result, or `none` if it fails.
unfoldable pub apply : Op → List Node → Option (List Node × Result)
apply (Op.check path version) s = elim (lookup path s) [
  | none ↦ none
  | some e ↦ if matches version e.data_version then some (s, Result.check) else none
]
apply (Op.create path data_ mode) s = elim (lookup path s) [
  | some e ↦ none
  | none ↦
      if may_bear (parent_of path) s
      then some (
        put (record { path = path; value = data_; data_version = 0; mode = mode }) s,
        Result.create,
      )
      else none
]
apply (Op.set path data_) s = elim (lookup path s) [
  | none ↦ none
  | some e ↦ some (put (rewritten e data_) s, Result.set (suc e.data_version))
]
apply (Op.erase path) s = elim (lookup path s) [
  | none ↦ none
  | some e ↦ if has_below path s then none else some (remove path s, Result.erase)
]

pub data Ran : Type 0 where
  all_done : (left : List Node) → (results : List Result) → Ran
  failed_at : ℕ → Ran

abbrev pub with_result : Result → Ran → Ran
with_result r (all_done s more) = all_done s (r ∷ more)
with_result r (failed_at i) = failed_at i

-- The operations in order, the first of them at position `i`, up to the first that fails.
unfoldable pub run : ℕ → List Op → List Node → Ran
run i [] s = all_done s []
run i (op ∷ ops) s = elim (apply op s) [
  | none ↦ failed_at i
  | some (s', r) ↦ with_result r (run (suc i) ops s')
]

-- A transaction that is answered has run as a whole; one that fails has changed nothing.
abbrev pub Agrees : List Op → List Node → Reply (List Result) → List Node → Type 0
Agrees txn before (done results) after = run 0 txn before ≡ all_done after results
Agrees txn before (fail (transaction_failed i what)) after =
    (run 0 txn before ≡ failed_at i) × (after ≡ before)
Agrees txn before (fail (error code what)) after = Unit

abbrev pub IsAborted : Reply (List Result) → Type 0
IsAborted (fail (transaction_failed i what)) = Unit
IsAborted _ = ⊥

-- A reply that reports a failure.
abbrev pub IsFailure : {A : Type 0} → Reply A → Type 0
IsFailure (fail f) = Unit
IsFailure (done a) = ⊥

-- A single creation is the transaction of it; its error tells why it failed.
abbrev pub Creates : Bytes → Bytes → CreateMode → List Node → Reply (Unit {0}) → List Node → Type 0
Creates path data_ mode before (done _) after =
    apply (Op.create path data_ mode) before ≡ some (after, Result.create)
Creates path data_ mode before (fail (error ErrorCode.entry_exists what)) after = Has path before
Creates path data_ mode before (fail (error ErrorCode.no_entry what)) after =
    ¬ IsThere (parent_of path) before
Creates path data_ mode before (fail f) after = Unit

-- A single write to an entry raises its version by one. Only a write that expects a version can
-- find another one.
abbrev pub Sets : Bytes → Bytes → Option ℕ → List Node → Reply ℕ → List Node → Type 0
Sets path data_ version before (done v) after =
    (e : Node) × (lookup path before ≡ some e)
    × (matches version e.data_version ≡ true)
    × (v ≡ suc e.data_version)
    × (after ≡ put (rewritten e data_) before)
Sets path data_ version before (fail (error ErrorCode.no_entry what)) after =
    lookup path before ≡ none
Sets path data_ version before (fail (error version_mismatch what)) after =
    (e : Node) × (lookup path before ≡ some e) × (matches version e.data_version ≡ false)
Sets path data_ version before (fail f) after = Unit

pub record Contract (p : Zk) : Type 1 where
  pub view : p.World → List Node
  -- What may happen between two calls, such as the writes of other clients.
  pub Later : p.World → p.World → Type 0
  pub same : (w : p.World) → Later w w
  pub then_ : {u v w : p.World} → Later u v → Later v w → Later u w
  pub lists : (path : Bytes) (w : p.World) → Later w (p.get_children path w).1
  pub aborts :
      (txn : List Op) (w : p.World) → IsAborted (p.commit txn w).0 → Later w (p.commit txn w).1
  pub refuses_create :
      (path data_ : Bytes) (mode : CreateMode) (w : p.World)
      → IsFailure (p.create path data_ mode w).0
      → Later w (p.create path data_ mode w).1
  pub refuses_set :
      (path data_ : Bytes) (version : Option ℕ) (w : p.World)
      → IsFailure (p.set path data_ version w).0
      → Later w (p.set path data_ version w).1
  pub commits :
      (txn : List Op) (w : p.World)
      → Agrees txn (view w) (p.commit txn w).0 (view (p.commit txn w).1)
  pub creates :
      (path data_ : Bytes) (mode : CreateMode) (w : p.World)
      → Creates path data_ mode
          (view w)
          (p.create path data_ mode w).0
          (view (p.create path data_ mode w).1)
  pub sets :
      (path data_ : Bytes) (version : Option ℕ) (w : p.World)
      → Sets path data_ version
          (view w)
          (p.set path data_ version w).0
          (view (p.set path data_ version w).1)
