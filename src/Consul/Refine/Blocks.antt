-- ===== src/Consul/Refine/Blocks.antt =====
-- consul_client.hpp, `commit`: what the block of each check and operation holds.
use liboffkv.Base.{
  ℕ, ◌+◌, ◌<◌, ◌≡◌, refl, sym, ap, ◌∙◌, ◌⊎◌, inl, inr, Bool, true, false, Bool-cases, Bytes, List,
  [], ◌∷◌, ◌++◌, map, arith, length, length-append, append_assoc,
}
use liboffkv.Errors.{ok}
use liboffkv.Key.{parent}
use liboffkv.Base.{length-map, subst}
use liboffkv.Consul.Session.{create_session_if_needed}
use liboffkv.Exec.{returned, lift, >>=-eq-ok}
use liboffkv.Key.{KeyPath, root}
use liboffkv.Client.{TxnCheck, TxnOp, Kind}
use liboffkv.Consul.Service.{
  TxnOperation, get, check_not_exists, compare_set, lock, erase, erase_all, compare_erase, Ppconsul,
}
use liboffkv.Consul.Commit.{ResultKind, aux, Block}
use liboffkv.Consul.Session.{State, as_path}
use liboffkv.Consul.Methods.{parent_check, put_op}
use liboffkv.Consul.Transactions.{check_block, op_block}

-- How many entries an operation reports if its transaction succeeds. (`get_all` reports any number;
-- `commit` does not send it.)
abbrev pub reports : TxnOperation → ℕ
reports (check_not_exists key) = 0
reports (erase key) = 0
reports (erase_all prefix) = 0
reports (compare_erase key index) = 0
reports _ = 1

unfoldable pub reported : List TxnOperation → ℕ
reported [] = 0
reported (op ∷ ops) = reports op + reported ops

-- For each entry that an operation reports: whether it has written it.
abbrev pub marks : TxnOperation → List Bool
marks (check_not_exists key) = []
marks (erase key) = []
marks (erase_all prefix) = []
marks (compare_erase key index) = []
marks (TxnOperation.set key value) = true ∷ []
marks (compare_set key index value) = true ∷ []
marks (lock key value session) = true ∷ []
marks _ = false ∷ []

unfoldable pub writes : List TxnOperation → List Bool
writes [] = []
writes (op ∷ ops) = marks op ++ writes ops

-- The kinds of result that the caller sees.
unfoldable pub seen : List ResultKind → List Kind
seen [] = []
seen (ResultKind.create ∷ kinds) = Kind.create ∷ seen kinds
seen (ResultKind.set ∷ kinds) = Kind.set ∷ seen kinds
seen (aux ∷ kinds) = seen kinds

abbrev pub is_seen : ResultKind → Bool
is_seen ResultKind.create = true
is_seen ResultKind.set = true
is_seen aux = false

-- What the caller asked for: one result for each create and each set.
abbrev pub asked : TxnOp → List Kind
asked (TxnOp.create key value lease) = Kind.create ∷ []
asked (TxnOp.set key value) = Kind.set ∷ []
asked (TxnOp.erase key) = []

pub record IsBlock (kinds : List Kind) (b : Block) : Type 0 where
  pub nonempty : 0 < length b.ops
  pub aligned : length b.kinds ≡ reported b.ops
  pub shows : seen b.kinds ≡ kinds
  pub marked : map is_seen b.kinds ≡ writes b.ops

pub reported-append : (xs ys : List TxnOperation) → reported (xs ++ ys) ≡ reported xs + reported ys
unfolding reported
reported-append [] ys = omega arith
reported-append (x ∷ xs) ys = omega (arith, reported-append xs ys)

pub writes-append : (xs ys : List TxnOperation) → writes (xs ++ ys) ≡ writes xs ++ writes ys
unfolding writes
writes-append [] ys = refl
writes-append (x ∷ xs) ys =
    ap (λ r. marks x ++ r) (writes-append xs ys)
    ∙ sym (append_assoc (marks x) (writes xs) (writes ys))

pub seen-append : (xs ys : List ResultKind) → seen (xs ++ ys) ≡ seen xs ++ seen ys
unfolding seen
seen-append [] ys = refl
seen-append (ResultKind.create ∷ xs) ys = ap (λ r. Kind.create ∷ r) (seen-append xs ys)
seen-append (ResultKind.set ∷ xs) ys = ap (λ r. Kind.set ∷ r) (seen-append xs ys)
seen-append (aux ∷ xs) ys = seen-append xs ys

module _ (p : Ppconsul) where
  parent_check-cases :
      (up : KeyPath) (s t : State p) (gets : List TxnOperation)
      → parent_check p up s ≡ (ok gets, t)
      → (gets ≡ []) ⊎ ((name : Bytes) × (gets ≡ get name ∷ []))
  unfolding parent_check
  parent_check-cases up s t gets h = elim (Bool-cases (root up)) [
    | inl e ↦ inl (ground (arith, h, e))
    | inr e ↦
        let (name, u, named, rest) = >>=-eq-ok (as_path p up) _ s (rw e at h) in
        inr (name, ground (arith, rest))
  ]

  put_op-reports :
      (key value : Bytes) (lease : Bool) (s t : State p) (put : TxnOperation)
      → put_op p key value lease s ≡ (ok put, t)
      → (reports put ≡ 1) × (marks put ≡ true ∷ [])
  unfolding put_op
  put_op-reports key value false s t put h =
      (ap reports (sym (returned h)), ap marks (sym (returned h)))
  put_op-reports key value true s t put h =
      let (_, u, _, rest) = >>=-eq-ok (create_session_if_needed p) _ s h in
      (ap reports (sym (returned rest)), ap marks (sym (returned rest)))

  pub check_block-IsBlock :
      (check : TxnCheck) (b : Block) (s t : State p)
      → check_block p check s ≡ (ok b, t)
      → IsBlock [] b
  unfolding check_block reported seen writes
  check_block-IsBlock check b s t h =
      let (name, u, named, rest) = >>=-eq-ok (as_path p check.key) _ s h in
      subst (IsBlock []) (returned rest) (ground arith)

  reported-reads :
      (gets : List TxnOperation)
      → (gets ≡ []) ⊎ ((name : Bytes) × (gets ≡ get name ∷ []))
      → (reported gets ≡ length gets)
        × (seen (map (λ _. aux) gets ++ ResultKind.create ∷ []) ≡ Kind.create ∷ [])
        × (map is_seen (map (λ _. aux) gets ++ ResultKind.create ∷ []) ≡ writes gets ++ true ∷ [])
  unfolding reported seen writes
  reported-reads gets (inl e) = rw e (refl, refl, refl)
  reported-reads gets (inr (name, e)) = rw e (refl, refl, refl)

  create-IsBlock :
      (gets : List TxnOperation) (key : Bytes) (put : TxnOperation)
      → (gets ≡ []) ⊎ ((name : Bytes) × (gets ≡ get name ∷ []))
      → (reports put ≡ 1) × (marks put ≡ true ∷ [])
      → IsBlock (Kind.create ∷ []) (record {
        ops = gets ++ check_not_exists key ∷ put ∷ [];
        kinds = map (λ _. aux) gets ++ ResultKind.create ∷ [];
      })
  create-IsBlock gets key put cases (one, written) =
      let (counted, shows, marked) = reported-reads gets cases in
      record {
        nonempty = omega (arith, length-append gets (check_not_exists key ∷ put ∷ []));
        aligned =
            unfold reported in
            omega (
              arith,
              counted,
              one,
              reported-append gets (check_not_exists key ∷ put ∷ []),
              length-append (map (λ _. aux) gets) (ResultKind.create ∷ []),
              length-map gets (λ _. aux),
            );
        shows = shows;
        marked =
            marked
            ∙ sym (
                writes-append gets (check_not_exists key ∷ put ∷ [])
                ∙ ap (λ r. writes gets ++ r) (unfold writes in rw written refl));
      }

  pub op_block-IsBlock :
      (op : TxnOp) (b : Block) (s t : State p) → op_block p op s ≡ (ok b, t) → IsBlock (asked op) b
  unfolding op_block
  op_block-IsBlock (TxnOp.create key value lease) b s t h =
      let (name, u₁, _, h₁) = >>=-eq-ok (as_path p key) _ s h in
      let (up, u₂, _, h₂) = >>=-eq-ok (lift (parent key)) _ u₁ h₁ in
      let (gets, u₃, read, h₃) = >>=-eq-ok (parent_check p up) _ u₂ h₂ in
      let (put, u₄, written, h₄) = >>=-eq-ok (put_op p name value lease) _ u₃ h₃ in
      subst (IsBlock (Kind.create ∷ [])) (returned h₄) (
        create-IsBlock gets name put (parent_check-cases up u₂ u₃ gets read)
          (put_op-reports name value lease u₃ u₄ put written))
  op_block-IsBlock (TxnOp.set key value) b s t h =
      let (name, u, _, rest) = >>=-eq-ok (as_path p key) _ s h in
      subst (IsBlock (Kind.set ∷ [])) (returned rest) (unfold reported seen writes in ground arith)
  op_block-IsBlock (TxnOp.erase key) b s t h =
      let (name, u, _, rest) = >>=-eq-ok (as_path p key) _ s h in
      subst (IsBlock []) (returned rest) (unfold reported seen writes in ground arith)
