-- ===== src/Zk/Refine/Commit.antt =====
-- zk_client.hpp: what `commit` tells its caller of a transaction.
use liboffkv.Base.{subst, ℕ, zero, suc, ◌≡◌, ap, ◌∙◌, List, ◌++◌, Option, none, some, Each, map}
use liboffkv.Errors.{Outcome, ok}
use liboffkv.Exec.{pure, returned, >>=-eq-ok, ◌>>=◌}
use liboffkv.Zk.Erase.{continue_with}
use liboffkv.Key.{KeyPath}
use liboffkv.Client.{TxnOpResult, Transaction}
use liboffkv.Boundaries.Ends.{flat, ends}
use liboffkv.Zk.Service.{Op, Result, Zk}
use liboffkv.Zk.Session.{State, Run, call}
use liboffkv.Zk.Transactions.{
  Batch, op_results, add_checks, add_ops, committed, commit_turn, commit, results_or,
}
use liboffkv.Zk.Contract.{Contract, run, all_done}
use liboffkv.Zk.Refine.Levels.{then-eq-some}
use liboffkv.Zk.Refine.Blocks.{
  CheckBlock, OpBlock, extended, no_ops, txn_of_blocks, boundaries_of_blocks, extended-append,
  add_checks-CheckBlock, Reads, add_ops-OpBlock,
}
use liboffkv.Zk.Refine.Kinds.{asked_for, op_results-asked_for}
use liboffkv.Zk.Refine.Decided.{committed-AllDone, committed-Aborted}

-- One block for each check and operation of the caller.
pub record Blocks (prefix : KeyPath) (t : Transaction) : Type 0 where
  pub checks : List (List Op)
  pub ops : List (List Op)
  pub are_checks : Each (CheckBlock prefix) t.checks checks
  pub are_ops : Each (OpBlock prefix) t.ops ops

abbrev pub all_blocks : {prefix : KeyPath} {t : Transaction} → Blocks prefix t → List (List Op)
all_blocks b = b.checks ++ b.ops

module _ (p : Zk) (c : Contract p) where
  -- The transaction that was put together at `t` has run on the entries, and these are its results.
  abbrev pub RanAll :
      {prefix : KeyPath} {t : Transaction}
      → Blocks prefix t
      → p.World
      → p.World
      → List TxnOpResult
      → Type 0
  RanAll blocks w after answers =
      (results : List Result) × (run 0 (flat (all_blocks blocks)) (c.view w)
        ≡ all_done (c.view after) results)
      × (answers ≡ op_results results)

  -- What follows a transaction that was put together at `u`.
  abbrev sent : List ℕ → List Op → State p → Outcome (Option (List TxnOpResult)) × State p
  sent boundaries txn u =
      committed p boundaries (p.commit txn u.world).0
        (record u { world = (p.commit txn u.world).1 })

  -- A turn that is not out of levels has sent one block for each check and operation.
  turn-Blocks :
      (depth : ℕ) (t : Transaction) (s s' : State p) (o : Option (List TxnOpResult))
      → commit_turn p depth t s ≡ (ok (some o), s')
      → (blocks : Blocks s.prefix t) × (u : State p) × Reads p c s u
        × (sent (ends 0 (all_blocks blocks)) (flat (all_blocks blocks)) u ≡ (ok o, s'))
  unfolding commit_turn
  turn-Blocks depth t s s' o h =
      let finish : Batch → Run p (Option (Option (List TxnOpResult))) = λ b. (do
        r ← call p (p.commit b.txn)
        outcome ← committed p b.boundaries r
        pure (some outcome)) in
      let (b, s₁, checked, rest) =
        >>=-eq-ok (add_checks p no_ops t.checks)
          (λ checked. do built ← add_ops p depth checked t.ops; continue_with p built finish) s h in
      let (b', u, added, last) = then-eq-some p (add_ops p depth b t.ops) finish s₁ s' rest in
      let (cs, are_checks, batch_eq, same) =
        add_checks-CheckBlock p no_ops b t.checks s s₁ checked in
      let (os, are_ops, batch_eq', reads) = add_ops-OpBlock p c depth b b' t.ops s₁ u added in
      let batch : b' ≡ extended no_ops (cs ++ os) =
        batch_eq' ∙ ap (λ q. extended q os) batch_eq ∙ extended-append no_ops cs os in
      let (outcome, v, decided, end) =
        >>=-eq-ok (committed p b'.boundaries (p.commit b'.txn u.world).0) (λ q. pure (some q))
          (record u { world = (p.commit b'.txn u.world).1 }) last in
      let txn_eq : b'.txn ≡ flat (cs ++ os) = ap (λ q. q.txn) batch ∙ txn_of_blocks (cs ++ os) in
      let ends_eq : b'.boundaries ≡ ends 0 (cs ++ os) =
        ap (λ q. q.boundaries) batch ∙ boundaries_of_blocks (cs ++ os) in
      let outcome_eq : outcome ≡ o = cc (returned end) in
      let state_eq : v ≡ s' = ap (λ q. q.1) end in
      let answer : sent b'.boundaries b'.txn u ≡ (ok o, s') = cc (decided, outcome_eq, state_eq) in
      (
        record {
          checks = cs;
          ops = os;
          are_checks = are_checks;
          are_ops = subst (λ q. Each (OpBlock q.prefix) t.ops os) same are_ops;
        },
        u,
        subst (λ q. Reads p c q u) same reads,
        rw (← txn_eq, ← ends_eq) answer,
      )

  -- What a call that began at `s`, ended at `s'` and returned these results has done.
  abbrev Answered : Transaction → List TxnOpResult → State p → State p → Type 0
  Answered t answers s s' =
      (w : p.World) × c.Later s.world w
      × ((blocks : Blocks s.prefix t) × RanAll blocks w s'.world answers)

  turn-Answered :
      (t : Transaction) (answers : List TxnOpResult) (s u s' : State p) (blocks : Blocks s.prefix t)
      → Reads p c s u
      → sent (ends 0 (all_blocks blocks)) (flat (all_blocks blocks)) u ≡ (ok (some answers), s')
      → Answered t answers s s'
  turn-Answered t answers s u s' blocks (later, _) h =
      let txn = flat (all_blocks blocks) in
      let (state_eq, (results, ran, e)) =
        committed-AllDone p c (ends 0 (all_blocks blocks)) txn (p.commit txn u.world).0 u.world
          (p.commit txn u.world).1 (record u { world = (p.commit txn u.world).1 }) s' answers
          (c.commits txn u.world) h in
      (
        u.world,
        later,
        (
          blocks,
          (
            results,
            subst (λ (q : State p). run 0 txn (c.view u.world) ≡ all_done (c.view q.world) results)
                state_eq ran,
            e,
          ),
        ),
      )

  turn-Reads :
      (t : Transaction) (s u s' : State p) (blocks : Blocks s.prefix t)
      → Reads p c s u
      → sent (ends 0 (all_blocks blocks)) (flat (all_blocks blocks)) u ≡ (ok none, s')
      → Reads p c s s'
  turn-Reads t s u s' blocks reads h =
      let txn = flat (all_blocks blocks) in
      let (state_eq, aborted) =
        committed-Aborted p c (ends 0 (all_blocks blocks)) (p.commit txn u.world).0
          (record u { world = (p.commit txn u.world).1 }) s' h in
      subst (Reads p c s) state_eq (c.then_ reads.0 (c.aborts txn u.world aborted), reads.1)

  -- What follows a turn.
  after_turn :
      (again : Run p (Option (List TxnOpResult))) (t : Transaction) (answers : List TxnOpResult)
      (o : Option (List TxnOpResult)) (s u v s' : State p) (blocks : Blocks s.prefix t)
      → Reads p c s u
      → sent (ends 0 (all_blocks blocks)) (flat (all_blocks blocks)) u ≡ (ok o, v)
      → ((r : State p) → again r ≡ (ok (some answers), s') → Answered t answers r s')
      → results_or p o again v ≡ (ok (some answers), s')
      → Answered t answers s s'
  after_turn again t answers (some results) s u v s' blocks reads h next last =
      let results_eq : results ≡ answers = cc (returned last) in
      let state_eq : v ≡ s' = ap (λ q. q.1) last in
      turn-Answered t answers s u s' blocks reads (cc (h, results_eq, state_eq))
  after_turn again t answers none s u v s' blocks reads h next last =
      let (later, prefix_eq) = turn-Reads t s u v blocks reads h in
      let (w, more, ran) = next v last in
      (
        w,
        c.then_ later more,
        subst (λ q. (bs : Blocks q t) × RanAll bs w s'.world answers) prefix_eq ran,
      )

  commit-Answered :
      (turns depth : ℕ) (t : Transaction) (s s' : State p) (answers : List TxnOpResult)
      → commit p turns depth t s ≡ (ok (some answers), s')
      → Answered t answers s s'
  unfolding commit
  commit-Answered zero depth t s s' answers h = absurd (cc (returned h))
  commit-Answered (suc turns) depth t s s' answers h =
      let (o, v, ran, rest) =
        then-eq-some p (commit_turn p depth t) (λ o. results_or p o (commit p turns depth t)) s s'
          h in
      let (blocks, u, reads, answer) = turn-Blocks depth t s v o ran in
      after_turn (commit p turns depth t) t answers o s u v s' blocks reads answer
        (λ r e. commit-Answered turns depth t r s' answers e) rest

  -- If `commit` returns, then at one moment during the call a transaction with one block of
  -- operations for each check and operation has run as a whole on the entries. The caller gets one
  -- result for each create and each set, in order.
  pub commit-RanAll :
      (turns depth : ℕ) (t : Transaction) (s s' : State p) (answers : List TxnOpResult)
      → commit p turns depth t s ≡ (ok (some answers), s')
      → (w : p.World) × c.Later s.world w
        × ((blocks : Blocks s.prefix t) × RanAll blocks w s'.world answers)
        × (map (λ r. r.kind) answers ≡ asked_for t.ops)
  commit-RanAll turns depth t s s' answers h =
      let (w, later, (blocks, (results, ran, e))) = commit-Answered turns depth t s s' answers h in
      (
        w,
        later,
        (blocks, (results, ran, e)),
        ap (map (λ r. r.kind)) e
            ∙ op_results-asked_for s.prefix t blocks.checks blocks.ops (c.view w) (c.view s'.world)
                results blocks.are_checks blocks.are_ops ran,
      )
