-- ===== src/Etcd/Builder.antt =====
-- etcd_client.hpp: `ETCDTransactionBuilder`. A failed assertion is an outcome.
use liboffkv.Base.{Bool, true, false, ℕ, Bytes, [], ◌∷◌, ◌++◌}
use liboffkv.Errors.{Outcome, ok, throw, undefined}
use liboffkv.Client.{Int64}
use liboffkv.Etcd.Service.{Target, Relation, equal, greater, RequestOp, TxnRequest}

-- `TBStatus`. The source leaves the member without a value until `on_success` or `on_failure`.
pub data TbStatus : Type 0 where
  unset success failure : TbStatus

pub record Builder : Type 0 where
  pub txn : TxnRequest
  pub status : TbStatus

abbrev pub empty : Builder
empty = record { txn = record { compare = []; success = []; failure = [] }; status = unset }

unfoldable pub make_compare : Bytes → Target → Relation → Int64 → Builder → Builder
make_compare key target result number b = record b {
  txn = record b.txn {
    compare =
        b.txn.compare
        ++ record { key = key; target = target; result = result; number = number } ∷ [];
  };
}

unfoldable pub add_check_exists : Bytes → Builder → Builder
unfolding make_compare
add_check_exists key b = make_compare key Target.create greater 0 b

unfoldable pub add_check_not_exists : Bytes → Builder → Builder
unfolding make_compare
add_check_not_exists key b = make_compare key Target.create equal 0 b

unfoldable pub add_version_compare : Bytes → Int64 → Builder → Builder
unfolding make_compare
add_version_compare key version b = make_compare key Target.version equal version b

unfoldable pub add_lease_compare : Bytes → Int64 → Builder → Builder
unfolding make_compare
add_lease_compare key lease b = make_compare key Target.lease equal lease b

unfoldable pub on_success : Builder → Builder
on_success b = record b { status = success }

unfoldable pub on_failure : Builder → Builder
on_failure b = record b { status = failure }

-- The assertion on the status, and the list to which the request goes.
unfoldable pub push_request : RequestOp → TbStatus → Builder → Outcome Builder
push_request r unset b = throw undefined
push_request r success b =
    ok (record b { txn = record b.txn { success = b.txn.success ++ r ∷ [] } })
push_request r failure b =
    ok (record b { txn = record b.txn { failure = b.txn.failure ++ r ∷ [] } })

unfoldable pub add_put_request : Bytes → Bytes → Int64 → Bool → Builder → Outcome Builder
unfolding push_request
add_put_request key value lease true b =
    push_request
      (RequestOp.put (record { key = key; value = value; lease = 0; ignore_lease = true })) b.status
      b
add_put_request key value lease false b =
    push_request
      (RequestOp.put (record { key = key; value = value; lease = lease; ignore_lease = false }))
      b.status b

-- One key, or all from the first up to and without the second.
pub data Range : Type 0 where
  key : Bytes → Range
  between : Bytes → Bytes → Range

-- `set_key_range_`; an empty key leaves the field at its default, which is the empty string.
abbrev pub range_key : Range → Bytes
range_key (key k) = k
range_key (between begin end) = begin

abbrev pub range_end_of : Range → Bytes
range_end_of (key k) = []
range_end_of (between begin end) = end

unfoldable pub add_range_request : Range → Bool → ℕ → Builder → Outcome Builder
unfolding push_request
add_range_request r keys_only limit b =
    push_request
      (RequestOp.range (record {
        key = range_key r;
        range_end = range_end_of r;
        limit = limit;
        keys_only = keys_only;
      }))
      b.status b

unfoldable pub add_delete_range_request : Range → Builder → Outcome Builder
unfolding push_request
add_delete_range_request r b =
    push_request (RequestOp.delete_range (record { key = range_key r; range_end = range_end_of r }))
      b.status b
