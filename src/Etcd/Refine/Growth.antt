-- ===== src/Etcd/Refine/Growth.antt =====
-- etcd_client.hpp, `commit`: a plan that has grown by some reads and expectations.
use liboffkv.Base.{
  map-append, ◌≡◌, refl, sym, ap, ◌∙◌, Bool, true, false, Bytes, List, [], ◌∷◌, ◌++◌, append_assoc,
  append-nil, Option, none, some, map, subst,
}
use liboffkv.Errors.{ok}
use liboffkv.Client.{Int64, TxnCheck}
use liboffkv.Etcd.Builder.{
  make_compare, add_check_exists, add_check_not_exists, on_success, on_failure, add_range_request,
  add_put_request, push_request,
}
use liboffkv.Etcd.Plan.{Plan, plan_create, plan_parent}
use liboffkv.Etcd.Refine.Requirements.{
  Requirement, absent, present, probe, request_of, op_group, expected, parent_item, concat,
}

-- A plan with the reads of more requirements, and more expectations.
pub record Grows (before after : Plan) (reads : List Requirement) (expects : List (List Bool))
    : Type 0 where
  pub failure : after.builder.txn.failure ≡ before.builder.txn.failure ++ map request_of reads
  pub expected_existence : after.expected_existence ≡ before.expected_existence ++ expects

pub Grows-refl : (plan : Plan) → Grows plan plan [] []
Grows-refl plan = record { failure = sym (append-nil _); expected_existence = sym (append-nil _) }

pub Grows-append :
    (a b c : Plan) (rs rs' : List Requirement) (es es' : List (List Bool))
    → Grows a b rs es
    → Grows b c rs' es'
    → Grows a c (rs ++ rs') (es ++ es')
Grows-append a b c rs rs' es es' g h = record {
  failure =
      h.failure
      ∙ ap (λ t. t ++ map request_of rs') g.failure
      ∙ append_assoc _ (map request_of rs) (map request_of rs')
      ∙ ap (λ t. a.builder.txn.failure ++ t) (sym (map-append request_of rs rs'));
  expected_existence =
      h.expected_existence ∙ ap (λ t. t ++ es') g.expected_existence ∙ append_assoc _ es es';
}

pub ok-injective : {A : Type 0} {a b : A} → ok a ≡ ok b → a ≡ b
ok-injective h = cc h

pub plan_create-Grows :
    (q : Option Bytes) (path value : Bytes) (id : Int64) (plan plan' : Plan)
    → plan_create q path value id plan ≡ ok plan'
    → Grows plan plan'
        (op_group ((path, false) ∷ parent_item q))
        (expected ((path, false) ∷ parent_item q) ∷ [])
unfolding plan_create plan_parent make_compare add_check_exists add_check_not_exists on_success
    on_failure add_put_request add_range_request push_request
plan_create-Grows none path value id plan plan' h =
    subst (λ r. Grows plan r (absent path ∷ []) ((false ∷ []) ∷ [])) (ok-injective h)
      (record { failure = refl; expected_existence = refl })
plan_create-Grows (some q) path value id plan plan' h =
    subst (λ r. Grows plan r (absent path ∷ present q ∷ []) ((false ∷ true ∷ []) ∷ []))
      (ok-injective h)
      (record { failure = append_assoc _ (probe path true ∷ []) _; expected_existence = refl })

pub concat-append :
    {A : Type 0} (xs ys : List (List A)) → concat (xs ++ ys) ≡ concat xs ++ concat ys
unfolding concat
concat-append [] ys = refl
concat-append (x ∷ xs) ys = ap (λ t. x ++ t) (concat-append xs ys) ∙ sym (append_assoc x _ _)

pub concat-nothing :
    (xs : List (Bytes × TxnCheck)) → Path (List (List Bool)) (concat (map (λ x. []) xs)) []
unfolding concat
concat-nothing [] = refl
concat-nothing (x ∷ xs) = concat-nothing xs

pub concat-single :
    (xs : List (List (Bytes × Bool))) → concat (map (λ x. expected x ∷ []) xs) ≡ map expected xs
unfolding concat
concat-single [] = refl
concat-single (x ∷ xs) = ap (λ t. expected x ∷ t) (concat-single xs)
