-- ===== src/Zk/Examples.antt =====
-- zk_client.hpp on a service of three entries: the theorems at one input.
use liboffkv.Base.{◌≡◌, refl, arith, Bytes, codes, bytes_eq, [], ◌∷◌, some, ◌<◌, ◌^◌, if◌then◌else◌}
use liboffkv.Errors.{ok, txn_failed}
use liboffkv.Exec.{raise}
use liboffkv.Key.{
  KeyPath, all_printable, validate_segment, scan, segments, all_valid, make_path, rfind_slash, join,
}
use liboffkv.Util.{starts_with}
use liboffkv.Client.{TxnOp, TxnCheck, Transaction, Kind}
use liboffkv.Boundaries.{lower_bound}
use liboffkv.Boundaries.Ends.{flat, owner}
use liboffkv.Zk.Service.{done, Result}
use liboffkv.Zk.Refine.Returns.{erase-settled}
use liboffkv.Zk.Service.{Op, normal}
use liboffkv.Zk.Session.{State, as_path_string}
use liboffkv.Zk.Methods.{set, cas, create, compare_and_set, compared, overwrite, overwritten}
use liboffkv.Zk.Erase.{
  throw_no_entry, each_child, erase_children, make_recursive_erase_query, erased, erase_turn,
  erase_loop, erase,
}
use liboffkv.Zk.Transactions.{
  Batch, op_results, add_checks, add_op, add_ops, committed, commit_turn, commit,
}
use liboffkv.Zk.Contract.{apply, run}
use liboffkv.Zk.Contract.Store.{Node, lookup, put, remove, has_below}
use liboffkv.Zk.Local.{zk, children, contract, World}
use liboffkv.Zk.Refine.Subtree.{
  leaf, child, names, height, post_order, Below, make_recursive_erase_query-post_order,
}
use liboffkv.Zk.Refine.Erase.{Done, erase-Done}
use liboffkv.Zk.Refine.Commit.{Blocks, all_blocks, RanAll, commit-RanAll}
use liboffkv.Zk.Refine.Failed.{is_last, commit-is_last}
use liboffkv.Zk.Refine.Kinds.{asked_for}
use liboffkv.Zk.Refine.Writes.{SetDone, set-SetDone, CasDone, cas-CasDone}
use liboffkv.Samples.{value}

runs : Unit {0}
unfolding bytes_eq all_printable validate_segment scan segments all_valid make_path rfind_slash join
    starts_with lower_bound as_path_string set cas create compare_and_set compared overwrite
    overwritten each_child erase_children make_recursive_erase_query erased erase_turn erase_loop
    erase op_results add_checks add_op add_ops committed commit_turn commit apply run lookup put
    remove has_below children flat
runs = tt

abbrev node : Bytes → Node
node path = record { path = path; value = codes "old"; data_version = 4; mode = normal }

abbrev a_key : KeyPath
a_key = record { path = codes "/a" }

abbrev c_key : KeyPath
c_key = record { path = codes "/c" }

abbrev start : State zk
start = record {
  prefix = record { path = codes "/p" };
  world = node (codes "/p") ∷ node (codes "/p/a") ∷ node (codes "/p/a/b") ∷ [];
}

abbrev emptied : State zk
emptied = record start { world = node (codes "/p") ∷ [] }

make_recursive_erase_query-post_order_example :
    make_recursive_erase_query zk 2 throw_no_entry (codes "/p/a") [] start
    ≡ (ok (some (Op.erase (codes "/p/a/b") ∷ Op.erase (codes "/p/a") ∷ [])), start)
unfolding runs names height post_order Below
make_recursive_erase_query-post_order_example =
    make_recursive_erase_query-post_order zk start 2 throw_no_entry (codes "/p/a") []
      (child (codes "b") leaf leaf) (omega arith) (refl, (refl, tt, tt))

erase-Done_example :
    (w : World) × (w ≡ start.world) × Done zk contract (codes "/p/a") 5 w emptied.world
unfolding runs
erase-Done_example = erase-Done zk contract 1 2 a_key 5 (codes "/p/a") start emptied refl refl

abbrev rewritten_a : Node
rewritten_a = record { path = codes "/p/a"; value = value; data_version = 5; mode = normal }

abbrev changed : State zk
changed = record start { world = node (codes "/p") ∷ rewritten_a ∷ node (codes "/p/a/b") ∷ [] }

set-SetDone_example :
    (w : World) × (w ≡ start.world) × SetDone zk contract (codes "/p/a") value 6 w changed.world
unfolding runs
set-SetDone_example = set-SetDone zk contract a_key value (codes "/p/a") start changed 6 refl refl

cas-CasDone_example : CasDone zk contract (codes "/p/a") value 5 6 start.world changed.world
unfolding runs
cas-CasDone_example =
    cas-CasDone zk contract a_key value (codes "/p/a") 5 start changed (record { version = 6 }) refl
      refl

-- The lower 32 bits of 2 ^ 62 are 0, and so `cas` with this version, which `set` may return, writes
-- whatever the version of the entry is.
cas-large_version : cas zk a_key value (2 ^ 62) start ≡ (ok (record { version = 6 }), changed)
unfolding runs
cas-large_version = refl

abbrev check_a : TxnCheck
check_a = record { key = a_key; version = 5 }

abbrev set_a : Transaction
set_a = record { checks = check_a ∷ []; ops = TxnOp.set a_key value ∷ [] }

commit-RanAll_example :
    (w : World) × (w ≡ start.world)
    × ((blocks : Blocks start.prefix set_a) × RanAll zk contract blocks w changed.world
          (record { kind = Kind.set; version = 6 } ∷ []))
    × (Kind.set ∷ [] ≡ asked_for set_a.ops)
unfolding runs
commit-RanAll_example =
    commit-RanAll zk contract 1 2 set_a start changed (record { kind = Kind.set; version = 6 } ∷ [])
      refl

-- The last operation of this transaction erases a key that is not there.
abbrev erase_c : Transaction
erase_c = record { checks = check_a ∷ []; ops = TxnOp.set a_key value ∷ TxnOp.erase c_key ∷ [] }

abbrev checked : Batch
checked = record { txn = Op.check (codes "/p/a") (some 4) ∷ []; boundaries = 0 ∷ [] }

abbrev built : Batch
built = record {
  txn =
      Op.check (codes "/p/a") (some 4) ∷ Op.set (codes "/p/a") value ∷ Op.erase (codes "/p/c") ∷ [];
  boundaries = 0 ∷ 1 ∷ 2 ∷ [];
}

commit-is_last_example :
    (b : Blocks start.prefix erase_c) × (built.txn ≡ flat (all_blocks b))
    × (commit zk 1 2 erase_c start
        ≡ (if is_last 2 (all_blocks b)
              then raise (txn_failed (owner 2 (all_blocks b)))
              else commit zk 0 2 erase_c)
            start)
    × (owner 2 (all_blocks b) < 3)
    × (start.world ≡ start.world)
unfolding runs
commit-is_last_example =
    commit-is_last zk contract 2 erase_c start start checked built refl refl 0 2 (codes "failed")
      start.world refl

erase-settled_example : erase zk 1 2 a_key 5 start ≡ (ok (some tt), emptied)
unfolding runs names height post_order Below
erase-settled_example =
    erase-settled zk 0 2 a_key 5 (codes "/p/a") (child (codes "b") leaf leaf) start emptied.world
      (done (Result.check ∷ Result.check ∷ Result.erase ∷ Result.erase ∷ [])) refl (omega arith)
      (refl, (refl, tt, tt)) refl tt

abbrev built_set : Batch
built_set = record {
  txn = Op.check (codes "/p/a") (some 4) ∷ Op.set (codes "/p/a") value ∷ [];
  boundaries = 0 ∷ 1 ∷ [];
}
