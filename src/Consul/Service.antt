-- ===== src/Consul/Service.antt =====
-- What consul_client.hpp uses of ppconsul: the operations of a transaction, what a call may answer,
-- and the calls themselves, which are a parameter of the model.
use liboffkv.Base.{ℕ, Bytes, List, Option}

pub data TxnOperation : Type 0 where
  get : (key : Bytes) → TxnOperation
  get_all : (prefix : Bytes) → TxnOperation
  check_not_exists : (key : Bytes) → TxnOperation
  check_index : (key : Bytes) → (index : ℕ) → TxnOperation
  set : (key : Bytes) → (value : Bytes) → TxnOperation
  compare_set : (key : Bytes) → (index : ℕ) → (value : Bytes) → TxnOperation
  lock : (key : Bytes) → (value : Bytes) → (session : Bytes) → TxnOperation
  erase : (key : Bytes) → TxnOperation
  erase_all : (prefix : Bytes) → TxnOperation
  compare_erase : (key : Bytes) → (index : ℕ) → TxnOperation

pub record KeyValue : Type 0 where
  pub key : Bytes
  pub value : Bytes
  pub modify_index : ℕ
  pub session : Bytes

-- `item(withHeaders, key)`: the index of the headers, and the data if it is valid.
pub record Item : Type 0 where
  pub index : ℕ
  pub found : Option KeyValue

-- What a call may throw, with its `what()`: `TxnAborted`, with the indices of the failed operations,
-- of which there is at least one; `BadStatus`; or another `ppconsul::Error`.
pub data Failure : Type 0 where
  aborted : (what : Bytes) → (first : ℕ) → (more : List ℕ) → Failure
  bad_status : (what : Bytes) → Failure
  other_error : (what : Bytes) → Failure

pub data Reply (A : Type 0) : Type 0 where
  done : A → Reply A
  fail : Failure → Reply A

pub data Behavior : Type 0 where
  release delete : Behavior

pub record SessionOptions : Type 0 where
  pub lock_delay : ℕ
  pub behavior : Behavior
  pub ttl : ℕ

-- The calls. `World` is everything behind the connection; `block_item` and `block_keys` are the
-- blocking queries, with the timeout in seconds and the index that is to be passed.
pub record Ppconsul : Type 1 where
  pub World : Type 0
  pub commit : List TxnOperation → World → Reply (List KeyValue) × World
  pub item : Bytes → World → Reply Item × World
  pub block_item : Bytes → (timeout : ℕ) → (index : ℕ) → World → Reply (Unit {0}) × World
  pub block_keys : Bytes → (timeout : ℕ) → (index : ℕ) → World → Reply (Unit {0}) × World
  pub create_session : SessionOptions → World → Reply Bytes × World
  pub renew_session : Bytes → World → Reply (Unit {0}) × World
