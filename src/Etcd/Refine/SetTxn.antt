-- ===== src/Etcd/Refine/SetTxn.antt =====
-- etcd_client.hpp: the transaction that `set` sends in one turn.
use liboffkv.Base.{◌≡◌, refl, Bool, true, false, Bytes, List, [], ◌∷◌, ◌++◌, Option, none, some}
use liboffkv.Errors.{ok}
use liboffkv.Etcd.Service.{Compare, Target, equal, PutRequest, RequestOp, TxnRequest}
use liboffkv.Etcd.Builder.{
  make_compare, add_check_exists, add_lease_compare, on_success, on_failure, push_request,
  add_put_request, add_range_request, success,
}
use liboffkv.Etcd.Requests.{set_builder}
use liboffkv.Etcd.Refine.Runs.{parent_present, probe, query}

abbrev no_lease : Bool → Bytes → List Compare
no_lease true key = []
no_lease false key = record { key = key; target = Target.lease; result = equal; number = 0 } ∷ []

abbrev pub parent_probe : Option Bytes → List RequestOp
parent_probe none = []
parent_probe (some up) = probe up ∷ []

abbrev pub write : Bytes → Bytes → Bool → PutRequest
write key value expect_lease = record {
  key = key;
  value = value;
  lease = 0;
  ignore_lease = expect_lease;
}

abbrev pub set_txn : Option Bytes → Bytes → Bytes → Bool → TxnRequest
set_txn up key value expect_lease = record {
  compare = parent_present up ++ no_lease expect_lease key;
  success = RequestOp.put (write key value expect_lease) ∷ query key false ∷ [];
  failure = parent_probe up;
}

pub set_builder-eq :
    (up : Option Bytes) (key value : Bytes) (expect_lease : Bool)
    → set_builder up key value expect_lease
      ≡ ok (record { txn = set_txn up key value expect_lease; status = success })
unfolding set_builder make_compare add_check_exists add_lease_compare on_success on_failure
    push_request add_put_request add_range_request
set_builder-eq none key value true = refl
set_builder-eq none key value false = refl
set_builder-eq (some up) key value true = refl
set_builder-eq (some up) key value false = refl
