-- ===== src/Zk/Service.antt =====
-- What zk_client.hpp uses of the ZooKeeper library: its errors, the operations of a transaction,
-- what a call may answer, and the calls themselves, which are a parameter of the model.
use liboffkv.Base.{ℕ, Bytes, List, Option}

pub data ErrorCode : Type 0 where
  no_entry entry_exists connection_loss no_children_for_ephemerals : ErrorCode
  version_mismatch not_empty other_code : ErrorCode

-- `zk::error` by its code and text; `zk::transaction_failed` has the index of an operation.
pub data Failure : Type 0 where
  error : ErrorCode → (what : Bytes) → Failure
  transaction_failed : ℕ → (what : Bytes) → Failure

pub data Reply (A : Type 0) : Type 0 where
  done : A → Reply A
  fail : Failure → Reply A

pub data CreateMode : Type 0 where
  normal ephemeral : CreateMode

-- `zk::op`; no version is `zk::version::any()`.
pub data Op : Type 0 where
  check : (path : Bytes) → (version : Option ℕ) → Op
  create : (path : Bytes) → (data_ : Bytes) → CreateMode → Op
  set : (path : Bytes) → (data_ : Bytes) → Op
  erase : (path : Bytes) → Op

-- The results of a transaction; that of a `set` has the new data version.
pub data Result : Type 0 where
  check create erase : Result
  set : (data_version : ℕ) → Result

pub record Entry : Type 0 where
  pub value : Bytes
  pub data_version : ℕ

-- The calls, each with the `get` of its future. A watch also returns the event to wait for.
pub record Zk : Type 1 where
  pub World : Type 0
  pub Event : Type 0
  pub connect : (address : Bytes) → World → Reply (Unit {0}) × World
  pub create : Bytes → Bytes → CreateMode → World → Reply (Unit {0}) × World
  pub exists : Bytes → World → Reply (Option ℕ) × World
  pub watch_exists : Bytes → World → Reply (Option ℕ × Event) × World
  pub get_children : Bytes → World → Reply (List Bytes) × World
  pub watch_children : Bytes → World → Reply (List Bytes × Event) × World
  pub get : Bytes → World → Reply Entry × World
  pub watch : Bytes → World → Reply (Entry × Event) × World
  pub set : Bytes → Bytes → (version : Option ℕ) → World → Reply ℕ × World
  pub commit : List Op → World → Reply (List Result) × World
  pub await : Event → World → Reply (Unit {0}) × World
