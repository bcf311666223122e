-- ===== src/Consul/Examples.antt =====
-- consul_client.hpp over the concrete service of `Consul.Local`.
mod Methods
use liboffkv.Util.{starts_with}
use liboffkv.Key.Descendants.{is_below}
use liboffkv.Boundaries.Ends.{flat}
use liboffkv.Consul.Naming.Laws.{starts_with-as_path_string}
use liboffkv.Base.{
  slash, Bytes, ◌++◌, refl, codes, [], ◌∷◌, none, false, bytes_eq, List, ◌<◌, ◌≡◌, arith, map,
}
use liboffkv.Errors.{ok, throw, txn_failed}
use liboffkv.Key.{segments, scan, join, make_path, all_valid, validate_segment, all_printable}
use liboffkv.Client.{Transaction, TxnOp, TxnOpResult}
use liboffkv.Consul.Service.{TxnOperation, KeyValue}
use liboffkv.Consul.Naming
use liboffkv.Consul.Commit.{Block, ResultKind}
use liboffkv.Consul.Transactions.{check_block, op_block, commit}
use liboffkv.Consul.Contract.{run, apply}
use liboffkv.Consul.Contract.Store.{lookup, upsert}
use liboffkv.Consul.Refine.Owner.{owner}
use liboffkv.Consul.Refine.Blocks.{reported, writes}
use liboffkv.Consul.Refine.Shape.{all_asked, wanted, chosen}
use liboffkv.Consul.Refine.Commit.{blocks_of, transaction_blocks, commit-TxnFailed, commit-results}
use liboffkv.Key.Segments.{of_segments, spell}
use liboffkv.Samples.{p_segment, a_segment, b_segment, value, p-IsSegment, a-IsSegment, b-IsSegment}
use liboffkv.Client.Spec.{Creates, IsCreateAnswer}
use liboffkv.Consul.Session.{State}
use liboffkv.Consul.Methods.{create}
use liboffkv.Consul.Local.{consul, contract, commit-IsAnswered}
use liboffkv.Consul.Refine.Tree.{tree_of}
use liboffkv.Consul.Refine.Create.{create-Creates, create-answers}

-- The client has the prefix "/p"; "/a" is there, with version 5.
abbrev pub start : State consul
start = record {
  client = record {
    prefix = of_segments (p_segment ∷ []);
    address = codes "host";
    session_id = [];
    ping_sender = none;
  };
  world = (
    record { key = codes "p/a"; value = codes "old_value"; modify_index = 5; session = [] } ∷ [],
    7,
  );
}

-- A check of "/a" at version 5, and a write of "/a".
abbrev request : Transaction
request = record {
  checks = record { key = of_segments (a_segment ∷ []); version = 5 } ∷ [];
  ops = TxnOp.set (of_segments (a_segment ∷ [])) value ∷ [];
}

abbrev blocks : List Block
blocks =
    record { ops = TxnOperation.check_index (codes "p/a") 5 ∷ []; kinds = ResultKind.aux ∷ [] }
    ∷ record {
      ops = TxnOperation.get (codes "p/a") ∷ TxnOperation.set (codes "p/a") value ∷ [];
      kinds = ResultKind.aux ∷ ResultKind.set ∷ [];
    }
    ∷ []

built_lem : transaction_blocks consul request start ≡ (ok blocks, start)
unfolding transaction_blocks blocks_of check_block op_block Naming.as_path_string
    Naming.append_segment join segments scan make_path all_valid validate_segment all_printable
    bytes_eq spell
built_lem = refl

-- Another client has written "/a" since.
abbrev changed : State consul
changed = record start {
  world =
      (record { key = codes "p/a"; value = codes "new"; modify_index = 6; session = [] } ∷ [], 7);
}

changed-built : transaction_blocks consul request changed ≡ (ok blocks, changed)
unfolding transaction_blocks blocks_of check_block op_block Naming.as_path_string
    Naming.append_segment join segments scan make_path all_valid validate_segment all_printable
    bytes_eq spell
changed-built = refl

commit-TxnFailed_example :
    (commit consul request changed ≡ (throw (txn_failed (owner 0 blocks)), changed))
    × (owner 0 blocks < 2)
unfolding run lookup bytes_eq flat apply
commit-TxnFailed_example =
    commit-TxnFailed consul request blocks changed changed changed.world changed-built
      (codes "aborted") 0 [] refl (omega arith)

abbrev after_request : State consul
after_request = record start {
  world = (record { key = codes "p/a"; value = value; modify_index = 8; session = [] } ∷ [], 8);
}

abbrev reply : List KeyValue
reply =
    record { key = codes "p/a"; value = codes "old_value"; modify_index = 5; session = [] }
    ∷ record { key = codes "p/a"; value = codes "old_value"; modify_index = 5; session = [] }
    ∷ record { key = codes "p/a"; value = []; modify_index = 8; session = [] }
    ∷ []

commit-results_example :
    (rs : List TxnOpResult) × (commit consul request start ≡ (ok rs, after_request))
    × (map (λ r. r.kind) rs ≡ all_asked (wanted request))
    × (map (λ r. r.version) rs ≡ 8 ∷ [])
unfolding run lookup upsert bytes_eq flat apply reported writes chosen
commit-results_example =
    commit-results consul request blocks start start after_request.world built_lem reply refl refl

create-answers_example :
    IsCreateAnswer (create consul (of_segments (a_segment ∷ b_segment ∷ [])) value false start).0
create-answers_example =
    create-answers consul start (p_segment ∷ []) (a_segment ∷ []) b_segment value (p-IsSegment, tt)
      (a-IsSegment, (b-IsSegment, tt)) refl contract (λ txn. commit-IsAnswered txn start.world)
