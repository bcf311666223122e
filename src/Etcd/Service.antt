-- ===== src/Etcd/Service.antt =====
-- What etcd_client.hpp uses of etcd's gRPC interface: the messages, and the calls, which are a
-- parameter of the model.
use liboffkv.Base.{ℕ, Bool, Bytes, List, Option}
use liboffkv.Client.{Int64}
use liboffkv.Errors.{Outcome}

pub data Target : Type 0 where
  create version lease : Target

pub data Relation : Type 0 where
  equal greater : Relation

-- `number` is the create revision, the version or the lease, whichever the target is.
pub record Compare : Type 0 where
  pub key : Bytes
  pub target : Target
  pub result : Relation
  pub number : Int64

pub record PutRequest : Type 0 where
  pub key : Bytes
  pub value : Bytes
  pub lease : Int64
  pub ignore_lease : Bool

-- An empty `range_end` asks for the one key.
pub record RangeRequest : Type 0 where
  pub key : Bytes
  pub range_end : Bytes
  pub limit : ℕ
  pub keys_only : Bool

pub record DeleteRangeRequest : Type 0 where
  pub key : Bytes
  pub range_end : Bytes

pub data RequestOp : Type 0 where
  put : PutRequest → RequestOp
  range : RangeRequest → RequestOp
  delete_range : DeleteRangeRequest → RequestOp

pub record TxnRequest : Type 0 where
  pub compare : List Compare
  pub success : List RequestOp
  pub failure : List RequestOp

pub record KeyValue : Type 0 where
  pub key : Bytes
  pub value : Bytes
  pub version : Int64
  pub lease : Int64

pub record RangeResponse : Type 0 where
  pub kvs : List KeyValue
  pub count : ℕ
  pub revision : ℕ

pub data ResponseOp : Type 0 where
  put : ResponseOp
  range : RangeResponse → ResponseOp
  delete_range : ResponseOp

pub record TxnResponse : Type 0 where
  pub succeeded : Bool
  pub responses : List ResponseOp
  pub revision : ℕ

pub record LeaseGrantResponse : Type 0 where
  pub id : Int64
  pub ttl : ℕ

pub data EventType : Type 0 where
  put delete : EventType

pub record Event : Type 0 where
  pub type : EventType
  pub key : Bytes

pub record WatchCreateRequest : Type 0 where
  pub key : Bytes
  pub range_end : Bytes
  pub start_revision : ℕ

-- The error codes that the client tells apart.
pub data StatusCode : Type 0 where
  unavailable invalid_argument other_code : StatusCode

-- A call has status OK and a response, or another status with its message.
pub data Reply (A : Type 0) : Type 0 where
  answered : A → Reply A
  refused : StatusCode → (message : Bytes) → Reply A

-- The calls. `keep_alive` is a write on the stream of `LeaseKeepAlive`, and the read that follows
-- it, which gives a new time to live; `none` if the write fails.
pub record Etcd : Type 1 where
  pub World : Type 0
  pub txn : TxnRequest → World → Reply TxnResponse × World
  pub range : RangeRequest → World → Reply RangeResponse × World
  pub lease_grant : (id : Int64) → (ttl : ℕ) → World → Reply LeaseGrantResponse × World
  pub keep_alive : (id : Int64) → World → Option ℕ × World
  pub create_watch : WatchCreateRequest → World → Outcome (Unit {0}) × World
