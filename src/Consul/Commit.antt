-- ===== src/Consul/Commit.antt =====
-- consul_client.hpp: how `commit` puts a transaction together and reads its results.
use liboffkv.Base.{ℕ, ◌-◌, List, [], ◌∷◌, ◌++◌, length}
use liboffkv.Errors.{Outcome, ok, throw, undefined, ◌>>=◌}
use liboffkv.Client.{Int64, Kind, TxnOpResult}
use liboffkv.Consul.Service.{KeyValue, TxnOperation}

-- `back().modifyIndex`.
unfoldable pub back_index : List KeyValue → Outcome Int64
back_index [] = throw undefined
back_index (kv ∷ []) = ok kv.modify_index
back_index (kv ∷ more) = back_index more

-- Of the results of `commit`: which ones the answer lists.
pub data ResultKind : Type 0 where
  create set aux : ResultKind

-- What one check or operation of a transaction adds to `txn` and `result_kinds`.
pub record Block : Type 0 where
  pub ops : List TxnOperation
  pub kinds : List ResultKind

pub record Batch : Type 0 where
  pub txn : List TxnOperation
  pub boundaries : List ℕ
  pub kinds : List ResultKind

unfoldable pub add_block : Batch → Block → Batch
add_block b block = record {
  txn = b.txn ++ block.ops;
  boundaries = b.boundaries ++ (length (b.txn ++ block.ops) - 1) ∷ [];
  kinds = b.kinds ++ block.kinds;
}

-- `result_kinds[i]` out of range is undefined behaviour.
unfoldable pub answer : List KeyValue → List ResultKind → Outcome (List TxnOpResult)
answer [] kinds = ok []
answer (kv ∷ results) [] = throw undefined
answer (kv ∷ results) (ResultKind.create ∷ kinds) = do
  rest ← answer results kinds
  ok (record { kind = Kind.create; version = kv.modify_index } ∷ rest)
answer (kv ∷ results) (ResultKind.set ∷ kinds) = do
  rest ← answer results kinds
  ok (record { kind = Kind.set; version = kv.modify_index } ∷ rest)
answer (kv ∷ results) (aux ∷ kinds) = answer results kinds
