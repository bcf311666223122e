-- ===== src/Etcd/Plan.antt =====
-- etcd_client.hpp: how `commit` turns a transaction into requests, and what it notes about them.
use liboffkv.Base.{ℕ, ◌+◌, Bool, true, false, Bytes, List, [], ◌∷◌, ◌++◌, Option, none, some}
use liboffkv.Errors.{Outcome, ok, ◌>>=◌}
use liboffkv.Client.{Int64}
use liboffkv.Etcd.Builder.{
  Builder, empty, add_check_exists, add_check_not_exists, add_version_compare, on_success,
  on_failure, add_put_request, key, between, add_range_request, add_delete_range_request,
}

-- The locals of `commit`.
pub record Plan : Type 0 where
  pub builder : Builder
  pub expected_existence : List (List Bool)
  pub create_indices : List ℕ
  pub set_indices : List ℕ
  pub total_op_number : ℕ

abbrev pub no_plan : Plan
no_plan = record {
  builder = empty;
  expected_existence = [];
  create_indices = [];
  set_indices = [];
  total_op_number = 0;
}

unfoldable pub plan_check : Bytes → Int64 → Plan → Outcome Plan
plan_check path version plan = do
  b ←
      add_range_request (key path) false 1
        (on_failure (add_version_compare path version plan.builder))
  ok (record plan { builder = b })

-- The check that the parent exists, if it is not the root.
unfoldable pub plan_parent : Option Bytes → Builder → Outcome Builder
plan_parent none b = ok b
plan_parent (some q) b = add_range_request (key q) true 1 (on_failure (add_check_exists q b))

abbrev pub parent_expected : Option Bytes → List Bool
parent_expected none = []
parent_expected (some q) = true ∷ []

unfoldable pub plan_create : Option Bytes → Bytes → Bytes → Int64 → Plan → Outcome Plan
plan_create parent_path path value lease plan = do
  put ← add_put_request path value lease false (on_success (add_check_not_exists path plan.builder))
  range ← add_range_request (key path) true 1 (on_failure put)
  b ← plan_parent parent_path range
  ok (record plan {
    builder = b;
    expected_existence = plan.expected_existence ++ (false ∷ parent_expected parent_path) ∷ [];
    create_indices = plan.create_indices ++ plan.total_op_number ∷ [];
    total_op_number = plan.total_op_number + 1;
  })

unfoldable pub plan_set : Bytes → Bytes → Plan → Outcome Plan
plan_set path value plan = do
  put ← add_put_request path value 0 false (on_success (add_check_exists path plan.builder))
  range ← add_range_request (key path) false 1 put
  b ← add_range_request (key path) true 1 (on_failure range)
  ok (record plan {
    builder = b;
    expected_existence = plan.expected_existence ++ (true ∷ []) ∷ [];
    set_indices = plan.set_indices ++ (plan.total_op_number + 1) ∷ [];
    total_op_number = plan.total_op_number + 2;
  })

unfoldable pub plan_erase : Bytes → Bytes × Bytes → Plan → Outcome Plan
plan_erase path (begin, end) plan = do
  one ← add_delete_range_request (key path) (on_success (add_check_exists path plan.builder))
  all ← add_delete_range_request (between begin end) one
  b ← add_range_request (key path) true 1 (on_failure all)
  ok (record plan {
    builder = b;
    expected_existence = plan.expected_existence ++ (true ∷ []) ∷ [];
    total_op_number = plan.total_op_number + 1;
  })
