-- ===== src/Zk/Refine/Blocks.antt =====
-- zk_client.hpp, `commit`: the transaction is made of one block of operations for each check and each
-- operation of the caller.
use liboffkv.Base.{
  subst, ℕ, ◌≡◌, refl, sym, ap, ◌∙◌, List, [], ◌∷◌, ◌++◌, Bytes, some, append-nil, append_assoc,
  length, length-append, All, Each,
}
use liboffkv.Errors.{ok}
use liboffkv.Exec.{pure, returned, >>=-eq-ok}
use liboffkv.Key.{KeyPath}
use liboffkv.Client.{TxnCheck, TxnOp}
use liboffkv.Boundaries.Ends.{flat, ends}
use liboffkv.Zk.Service.{Op, Zk}
use liboffkv.Zk.Session.{State, expected, as_path_string, as_path}
use liboffkv.Zk.Methods.{mode}
use liboffkv.Zk.Erase.{fail_txn_on_no_entry, make_recursive_erase_query}
use liboffkv.Zk.Transactions.{Batch, close, add_checks, add_op, add_ops}
use liboffkv.Zk.Contract.{Contract}
use liboffkv.Zk.Refine.Levels.{then-eq-some}
use liboffkv.Zk.Refine.Query.{ErasesWithin, make_recursive_erase_query-Extends}

-- What a block asks of the service, for the client's prefix.
abbrev pub CheckBlock : KeyPath → TxnCheck → List Op → Type 0
CheckBlock prefix check block =
    (path : Bytes) × (as_path_string prefix check.key ≡ ok path)
    × (block ≡ Op.check path (expected check.version) ∷ [])

abbrev pub OpBlock : KeyPath → TxnOp → List Op → Type 0
OpBlock prefix (TxnOp.create key value lease) block =
    (path : Bytes) × (as_path_string prefix key ≡ ok path)
    × (block ≡ Op.create path value (mode lease) ∷ [])
OpBlock prefix (TxnOp.set key value) block =
    (path : Bytes) × (as_path_string prefix key ≡ ok path) × (block ≡ Op.set path value ∷ [])
OpBlock prefix (TxnOp.erase key) block =
    (path : Bytes) × (as_path_string prefix key ≡ ok path)
    × All (ErasesWithin path) block
    × ((more : List Op) × (block ≡ more ++ Op.erase path ∷ []))

-- The batch with one more block for each of these.
unfoldable pub extended : Batch → List (List Op) → Batch
extended b [] = b
extended b (block ∷ blocks) = extended (close b (b.txn ++ block)) blocks

txn-extended :
    (b : Batch) (blocks : List (List Op)) → (extended b blocks).txn ≡ b.txn ++ flat blocks
unfolding extended flat
txn-extended b [] = sym (append-nil b.txn)
txn-extended b (block ∷ blocks) =
    txn-extended (close b (b.txn ++ block)) blocks ∙ append_assoc b.txn block (flat blocks)

boundaries-extended :
    (b : Batch) (blocks : List (List Op))
    → (extended b blocks).boundaries ≡ b.boundaries ++ ends (length b.txn) blocks
unfolding extended ends
boundaries-extended b [] = sym (append-nil b.boundaries)
boundaries-extended b (block ∷ blocks) =
    rw
      (
        boundaries-extended (close b (b.txn ++ block)) blocks,
        append_assoc,
        length-append b.txn block,
      )
      refl

abbrev pub no_ops : Batch
no_ops = record { txn = []; boundaries = [] }

pub txn_of_blocks : (blocks : List (List Op)) → (extended no_ops blocks).txn ≡ flat blocks
txn_of_blocks = txn-extended no_ops

pub boundaries_of_blocks :
    (blocks : List (List Op)) → (extended no_ops blocks).boundaries ≡ ends 0 blocks
boundaries_of_blocks = boundaries-extended no_ops

pub extended-append :
    (b : Batch) (xs ys : List (List Op)) → extended (extended b xs) ys ≡ extended b (xs ++ ys)
unfolding extended
extended-append b [] ys = refl
extended-append b (x ∷ xs) ys = extended-append (close b (b.txn ++ x)) xs ys

module _ (p : Zk) where
  as_path-state :
      (s t : State p) (key : KeyPath) (path : Bytes)
      → as_path p key s ≡ (ok path, t)
      → (as_path_string s.prefix key ≡ ok path) × (s ≡ t)
  as_path-state s t key path h = (ap (λ q. q.0) h, ap (λ q. q.1) h)

  pub add_checks-CheckBlock :
      (b b' : Batch) (checks : List TxnCheck) (s s' : State p)
      → add_checks p b checks s ≡ (ok b', s')
      → (blocks : List (List Op)) × Each (CheckBlock s.prefix) checks blocks
        × (b' ≡ extended b blocks)
        × (s' ≡ s)
  unfolding add_checks extended
  add_checks-CheckBlock b b' [] s s' h = ([], tt, sym (returned h), sym (ap (λ q. q.1) h))
  add_checks-CheckBlock b b' (check ∷ checks) s s' h =
      let (path, t, named, rest) =
        >>=-eq-ok (as_path p check.key)
          (λ path.
            add_checks p (close b (b.txn ++ Op.check path (expected check.version) ∷ [])) checks)
          s h in
      let (name_eq, state_eq) = as_path-state s t check.key path named in
      let (blocks, each, e, same) =
        add_checks-CheckBlock (close b (b.txn ++ Op.check path (expected check.version) ∷ [])) b'
          checks s s' (rw (← state_eq) at rest) in
      (
        (Op.check path (expected check.version) ∷ []) ∷ blocks,
        ((path, name_eq, refl), each),
        e,
        same,
      )

module _ (p : Zk) (c : Contract p) where
  -- A step by which the client keeps its prefix, and the entries are left to the other clients.
  abbrev pub Reads : State p → State p → Type 0
  Reads s s' = c.Later s.world s'.world × (s'.prefix ≡ s.prefix)

  Reads-none : (s s' : State p) → s ≡ s' → Reads s s'
  Reads-none s s' e = subst (Reads s) e (c.same s.world, refl)

  pub Reads-then : {s t u : State p} → Reads s t → Reads t u → Reads s u
  Reads-then a b = (c.then_ a.0 b.0, b.1 ∙ a.1)

  add_op-OpBlock :
      (depth : ℕ) (txn longer : List Op) (op : TxnOp) (s s' : State p)
      → add_op p depth txn op s ≡ (ok (some longer), s')
      → (block : List Op) × OpBlock s.prefix op block × (longer ≡ txn ++ block) × Reads s s'
  unfolding add_op
  add_op-OpBlock depth txn longer (TxnOp.create key value lease) s s' h =
      let (path, t, named, rest) =
        >>=-eq-ok (as_path p key)
          (λ path. pure (some (txn ++ Op.create path value (mode lease) ∷ []))) s h in
      let (name_eq, state_eq) = as_path-state p s t key path named in
      (
        Op.create path value (mode lease) ∷ [],
        (path, name_eq, refl),
        cc (returned rest),
        Reads-none s s' (state_eq ∙ ap (λ q. q.1) rest),
      )
  add_op-OpBlock depth txn longer (TxnOp.set key value) s s' h =
      let (path, t, named, rest) =
        >>=-eq-ok (as_path p key) (λ path. pure (some (txn ++ Op.set path value ∷ []))) s h in
      let (name_eq, state_eq) = as_path-state p s t key path named in
      (
        Op.set path value ∷ [],
        (path, name_eq, refl),
        cc (returned rest),
        Reads-none s s' (state_eq ∙ ap (λ q. q.1) rest),
      )
  add_op-OpBlock depth txn longer (TxnOp.erase key) s s' h =
      let (path, t, named, rest) =
        >>=-eq-ok (as_path p key)
          (λ path. make_recursive_erase_query p depth fail_txn_on_no_entry path txn) s h in
      let (name_eq, state_eq) = as_path-state p s t key path named in
      let (x, ends) =
        make_recursive_erase_query-Extends p c depth fail_txn_on_no_entry path txn longer s s'
          (rw (← state_eq) at rest) in
      (x.extra, (path, name_eq, x.within, ends), x.appended, (x.later, x.prefix))

  pub add_ops-OpBlock :
      (depth : ℕ) (b b' : Batch) (ops : List TxnOp) (s s' : State p)
      → add_ops p depth b ops s ≡ (ok (some b'), s')
      → (blocks : List (List Op)) × Each (OpBlock s.prefix) ops blocks
        × (b' ≡ extended b blocks)
        × Reads s s'
  unfolding add_ops extended
  add_ops-OpBlock depth b b' [] s s' h =
      ([], tt, cc (returned h), Reads-none s s' (ap (λ q. q.1) h))
  add_ops-OpBlock depth b b' (op ∷ ops) s s' h =
      let (txn, t, added, rest) =
        then-eq-some p (add_op p depth b.txn op) (λ txn. add_ops p depth (close b txn) ops) s s'
          h in
      let (block, is_block, longer, reads) = add_op-OpBlock depth b.txn txn op s t added in
      let (blocks, each, e, more) = add_ops-OpBlock depth (close b txn) b' ops t s' rest in
      (
        block ∷ blocks,
        (is_block, subst (λ q. Each (OpBlock q) ops blocks) reads.1 each),
        e ∙ ap (λ q. extended (close b q) blocks) longer,
        Reads-then reads more,
      )
