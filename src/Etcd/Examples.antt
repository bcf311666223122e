-- ===== src/Etcd/Examples.antt =====
-- The theorems on `ETCDClient` over the etcd of `Etcd.Local`.
mod Methods
use liboffkv.Base.{
  true, ◌≡◌, refl, codes, [], ◌∷◌, ◌++◌, none, some, false, List, Bytes, bytes_eq, if◌then◌else◌,
}
use liboffkv.Errors.{ok, throw, undefined}
use liboffkv.Key.{
  segments, scan, root, parent, rfind_slash, make_path, join, all_valid, validate_segment,
  all_printable,
}
use liboffkv.Key.Segments.{of_segments, spell}
use liboffkv.Client.{Transaction, TxnOp}
use liboffkv.Samples.{p_segment, a_segment, b_segment, value}
use liboffkv.Etcd.Service.{ResponseOp, TxnResponse, RequestOp, Target, equal, greater}
use liboffkv.Etcd.Naming
use liboffkv.Etcd.Session.{State}
use liboffkv.Etcd.Builder
use liboffkv.Etcd.Plan.{Plan, plan_erase, plan_set, plan_check, plan_create, plan_parent}
use liboffkv.Etcd.Methods.{parent_path}
use liboffkv.Etcd.Session.{lease_if}
use liboffkv.Etcd.Transactions.{add_check, add_op, add_each, make_plan, commit}
use liboffkv.Etcd.Refine.Requirements.{Versions, Requirement, probe, requirements, first_unmet}
use liboffkv.Etcd.Refine.Commit.{blame, commit-blame}
use liboffkv.Etcd.Refine.Indices.{IsAligned, make_plan-IsAligned}
use liboffkv.Etcd.Refine.Bounds.{Below, commit-Below}
use liboffkv.Etcd.Refine.Erase.{erase_and_set, commit-erase_and_set}
use liboffkv.Etcd.Naming.Ranges.{lex_lt}
use liboffkv.Etcd.Local.{etcd, run}

-- "/a" is there, with version 5.
abbrev versions : Versions
versions k = if bytes_eq k (codes "/p/" ++ 0 ∷ codes "a") then some 5 else none

abbrev start : State etcd
start = record {
  client = record {
    prefix = of_segments (p_segment ∷ []);
    lease_issuer = record { lease_id = 0; ping_sender = none };
  };
  world = versions;
}

-- A check of "/a" at version 5, and a create of "/b/a", which has no parent.
abbrev request : Transaction
request = record {
  checks = record { key = of_segments (a_segment ∷ []); version = 5 } ∷ [];
  ops = TxnOp.create (of_segments (b_segment ∷ a_segment ∷ [])) value false ∷ [];
}

abbrev a_key : Bytes
a_key = codes "/p/" ++ 0 ∷ codes "a"

abbrev b_key : Bytes
b_key = codes "/p/" ++ 0 ∷ codes "b"

abbrev ba_key : Bytes
ba_key = codes "/p/b/" ++ 0 ∷ codes "a"

abbrev planned : Plan
planned = record {
  builder = record {
    txn = record {
      compare =
          record { key = a_key; target = Target.version; result = equal; number = 5 }
          ∷ record { key = ba_key; target = Target.create; result = equal; number = 0 }
          ∷ record { key = b_key; target = Target.create; result = greater; number = 0 }
          ∷ [];
      success =
          RequestOp.put (record { key = ba_key; value = value; lease = 0; ignore_lease = false })
          ∷ [];
      failure = probe a_key false ∷ probe ba_key true ∷ probe b_key true ∷ [];
    };
    status = Builder.failure;
  };
  expected_existence = (false ∷ true ∷ []) ∷ [];
  create_indices = 0 ∷ [];
  set_indices = [];
  total_op_number = 1;
}

made_lem : make_plan etcd request start ≡ (ok planned, start)
unfolding make_plan add_each add_check add_op lease_if parent_path plan_check plan_create
    plan_parent Naming.as_path_string Naming.append_segments segments scan root parent rfind_slash
    make_path all_valid validate_segment all_printable bytes_eq spell Builder.make_compare
    Builder.add_version_compare Builder.add_check_exists Builder.add_check_not_exists
    Builder.on_success Builder.on_failure Builder.add_put_request Builder.add_range_request
    Builder.push_request
made_lem = refl

abbrev response : TxnResponse
response = record {
  succeeded = false;
  responses =
      ResponseOp.range (record {
        kvs = record { key = a_key; value = []; version = 5; lease = 0 } ∷ [];
        count = 1;
        revision = 1;
      })
      ∷ ResponseOp.range (record { kvs = []; count = 0; revision = 1 })
      ∷ ResponseOp.range (record { kvs = []; count = 0; revision = 1 })
      ∷ [];
  revision = 1;
}

commit-blame_example :
    (groups : List (List Requirement)) × (requirements (of_segments (p_segment ∷ [])) request
      ≡ ok groups)
    × (commit etcd request start ≡ (throw (blame (first_unmet versions 0 groups)), start))
unfolding bytes_eq
commit-blame_example =
    commit-blame etcd request planned start start response versions versions made_lem refl refl
      (refl, (refl, (refl, tt)))

commit-Below_example : Below 2 (commit etcd request start).0
unfolding bytes_eq
commit-Below_example = commit-Below etcd request planned start start response versions made_lem refl

-- A set of "/a".
abbrev setting : Transaction
setting = record { checks = []; ops = TxnOp.set (of_segments (a_segment ∷ [])) value ∷ [] }

abbrev setting_plan : Plan
setting_plan = record {
  builder = record {
    txn = record {
      compare = record { key = a_key; target = Target.create; result = greater; number = 0 } ∷ [];
      success =
          RequestOp.put (record { key = a_key; value = value; lease = 0; ignore_lease = false })
          ∷ probe a_key false
          ∷ [];
      failure = probe a_key true ∷ [];
    };
    status = Builder.failure;
  };
  expected_existence = (true ∷ []) ∷ [];
  create_indices = [];
  set_indices = 1 ∷ [];
  total_op_number = 2;
}

setting-made : make_plan etcd setting start ≡ (ok setting_plan, start)
unfolding make_plan add_each add_check add_op lease_if parent_path plan_check plan_create
    plan_parent Naming.as_path_string Naming.append_segments segments scan root parent rfind_slash
    make_path all_valid validate_segment all_printable bytes_eq spell Builder.make_compare
    Builder.add_version_compare Builder.add_check_exists Builder.add_check_not_exists
    Builder.on_success Builder.on_failure Builder.add_put_request Builder.add_range_request
    Builder.push_request plan_set
setting-made = refl

make_plan-IsAligned_example : IsAligned setting_plan
make_plan-IsAligned_example =
    make_plan-IsAligned etcd setting setting_plan start start (tt, tt) setting-made

-- An erase of "/a", and a set of "/b".
abbrev erasing : Transaction
erasing = erase_and_set etcd (of_segments (a_segment ∷ [])) (of_segments (b_segment ∷ [])) value

abbrev a_range : RequestOp
a_range =
    RequestOp.delete_range (record { key = codes "/p/a/"; range_end = codes "/p/a" ++ 48 ∷ [] })

abbrev erasing_plan : Plan
erasing_plan = record {
  builder = record {
    txn = record {
      compare =
          record { key = a_key; target = Target.create; result = greater; number = 0 }
          ∷ record { key = b_key; target = Target.create; result = greater; number = 0 }
          ∷ [];
      success =
          RequestOp.delete_range (record { key = a_key; range_end = [] })
          ∷ a_range
          ∷ RequestOp.put (record { key = b_key; value = value; lease = 0; ignore_lease = false })
          ∷ probe b_key false
          ∷ [];
      failure = probe a_key true ∷ probe b_key true ∷ [];
    };
    status = Builder.failure;
  };
  expected_existence = (true ∷ []) ∷ (true ∷ []) ∷ [];
  create_indices = [];
  set_indices = 2 ∷ [];
  total_op_number = 3;
}

-- Every key has version 5.
abbrev full : State etcd
full = record start { world = λ k. some 5 }

erasing-made : make_plan etcd erasing full ≡ (ok erasing_plan, full)
unfolding make_plan add_each add_check add_op lease_if parent_path plan_check plan_create
    plan_parent Naming.as_path_string Naming.append_segments segments scan root parent rfind_slash
    make_path all_valid validate_segment all_printable bytes_eq spell Builder.make_compare
    Builder.add_version_compare Builder.add_check_exists Builder.add_check_not_exists
    Builder.on_success Builder.on_failure Builder.add_put_request Builder.add_range_request
    Builder.push_request plan_erase plan_set Builder.add_delete_range_request
    Naming.make_subtree_range join
erasing-made = refl

abbrev accepted : TxnResponse
accepted = record {
  succeeded = true;
  responses =
      ResponseOp.delete_range
      ∷ ResponseOp.delete_range
      ∷ ResponseOp.put
      ∷ ResponseOp.range (record {
        kvs = record { key = b_key; value = []; version = 6; lease = 0 } ∷ [];
        count = 1;
        revision = 1;
      })
      ∷ [];
  revision = 1;
}

commit-erase_and_set_example : (commit etcd erasing full).0 ≡ throw undefined
unfolding bytes_eq lex_lt
commit-erase_and_set_example =
    commit-erase_and_set etcd (of_segments (a_segment ∷ [])) (of_segments (b_segment ∷ [])) value
      erasing_plan full full accepted (run erasing_plan.builder.txn.success full.world).0
      erasing-made refl refl (tt, (tt, (tt, (tt, tt))))
