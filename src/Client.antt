-- ===== src/Client.antt =====
-- client.hpp: what the three clients take and return. An `int64_t` is its 64-bit pattern.
pub mod Spec
pub mod IfNew
pub mod Interface
use liboffkv.Base.{ℕ, Bool, not, ◌==◌, ◌^◌, Bytes, List, Option}
use liboffkv.Key.{KeyPath}

abbrev pub Int64 : Type 0
Int64 = ℕ

abbrev pub int64_mod : ℕ
int64_mod = 2 ^ 64

pub record ExistsResult (W : Type 0) : Type 0 where
  pub version : Int64
  pub watch : Option W

pub record ChildrenResult (W : Type 0) : Type 0 where
  pub children : List Bytes
  pub watch : Option W

pub record GetResult (W : Type 0) : Type 0 where
  pub version : Int64
  pub value : Bytes
  pub watch : Option W

pub record CasResult : Type 0 where
  pub version : Int64

-- The conversions of `ExistsResult` and `CasResult` to `bool`.
abbrev pub exists_bool : {W : Type 0} → ExistsResult W → Bool
exists_bool r = not (r.version == 0)

abbrev pub cas_bool : CasResult → Bool
cas_bool r = not (r.version == 0)

pub record TxnCheck : Type 0 where
  pub key : KeyPath
  pub version : Int64

pub data TxnOp : Type 0 where
  create : (key : KeyPath) → (value : Bytes) → (lease : Bool) → TxnOp
  set : (key : KeyPath) → (value : Bytes) → TxnOp
  erase : (key : KeyPath) → TxnOp

pub data Kind : Type 0 where
  create set : Kind

pub record TxnOpResult : Type 0 where
  pub kind : Kind
  pub version : Int64

pub record Transaction : Type 0 where
  pub checks : List TxnCheck
  pub ops : List TxnOp
