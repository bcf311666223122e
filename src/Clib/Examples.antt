-- ===== src/Clib/Examples.antt =====
-- The theorems on the C interface, with Consul's client behind `offkv_create`.
use liboffkv.Base.{true, suc, List, ◌==◌, ◌≡◌, refl, ℕ, codes, some, false, [], ◌∷◌, none, bytes_eq}
use liboffkv.Errors.{ok, throw, txn_failed}
use liboffkv.Exec.{Exec}
use liboffkv.Client.{Transaction, TxnOp, TxnOpResult}
use liboffkv.Clib.Memory.{Memory, dup_strings}
use liboffkv.Clib.Memory.Leaks.{HandsOutOrNothing, dup_strings-HandsOut}
use liboffkv.Clib.Calls.{Env, CTxnOp, read_checks, read_ops, offkv_commit}
use liboffkv.Clib.Reports.{etxn, offkv_commit-reported}
use liboffkv.Key.{
  KeyPath, make_key, segments, scan, join, make_path, all_valid, validate_segment, all_printable,
  parent, root, rfind_slash,
}
use liboffkv.Key.Segments.{of_segments, spell}
use liboffkv.Samples.{p_segment, value}
use liboffkv.Clib.{pos, or_errcode, signed, offkv_create}
use liboffkv.Clib.Errcode.{offkv_create-pos}
use liboffkv.Consul.Commit.{back_index}
use liboffkv.Consul.Replies.{created}
use liboffkv.Consul.Naming
use liboffkv.Consul.Session.{State}
use liboffkv.Consul.Methods.{create, parent_check, put_op}
use liboffkv.Consul.Contract.{run, apply}
use liboffkv.Consul.Contract.Store.{lookup, upsert}
use liboffkv.Consul.Local.{consul}

-- The client has the prefix "/p"; "/a" is there, with version 5.
abbrev start : State consul
start = record {
  client = record {
    prefix = of_segments (p_segment ∷ []);
    address = codes "host";
    session_id = [];
    ping_sender = none;
  };
  world =
      (record { key = codes "p/a"; value = codes "old"; modify_index = 5; session = [] } ∷ [], 7);
}

created_lem : (offkv_create (create consul) (codes "/a/b") value false start).0 ≡ ok (pos 8)
unfolding offkv_create or_errcode signed make_key create parent_check put_op created back_index
    Naming.as_path_string Naming.append_segment join segments scan make_path all_valid
    validate_segment all_printable parent root rfind_slash bytes_eq spell run apply lookup upsert
created_lem = refl

offkv_create-pos_example :
    (k : KeyPath) × (make_key (codes "/a/b") ≡ ok k)
    × ((create consul k value false start).0 ≡ ok 8)
offkv_create-pos_example =
    offkv_create-pos (create consul) (codes "/a/b") value false start 8 created_lem

-- A heap on which nothing lies yet.
abbrev empty : Memory
empty = record { live = λ x. none; made = 0 }

-- The array and the first copy can be had, the second copy cannot.
dup_strings-HandsOut_example :
    HandsOutOrNothing empty.live
      (value ∷ value ∷ [])
      (dup_strings (λ n. n == 3) (value ∷ value ∷ []) empty)
dup_strings-HandsOut_example =
    dup_strings-HandsOut (λ n. n == 3) empty (λ x lt. refl) (value ∷ value ∷ [])

-- A client that refuses every transaction, and counts them.
abbrev refusing : Transaction → Exec ℕ (List TxnOpResult)
refusing t s = (throw (txn_failed 1), suc s)

abbrev env : Env ℕ (Unit {0})
env = record { client = 0; memory = empty; watch = none; txn_result = none }

abbrev set_a : CTxnOp
set_a = record { op = 1; lease = false; key = codes "/a"; value = value }

offkv_commit-reported_example : offkv_commit (λ n. false) refusing [] (set_a ∷ []) true env ≡ (
  ok etxn,
  record env {
    client = 1;
    txn_result = some (record { results = 0; nresults = 0; failed_op = 1 });
  },
)
unfolding read_checks read_ops make_key segments scan make_path all_valid validate_segment
    all_printable root bytes_eq
offkv_commit-reported_example =
    offkv_commit-reported (λ n. false) env refusing [] (set_a ∷ []) []
      (TxnOp.set (record { path = codes "/a" }) value ∷ []) refl refl
