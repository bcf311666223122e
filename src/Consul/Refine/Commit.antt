-- ===== src/Consul/Refine/Commit.antt =====
-- consul_client.hpp: what `commit` tells its caller of a transaction.
use liboffkv.Base.{
  Each, ◌+◌, Bytes, map, length-map, ℕ, ◌<◌, ◌≡◌, refl, sym, ap, ◌∙◌, List, [], ◌∷◌, ◌++◌, arith,
  length,
}
use liboffkv.Errors.{ok, throw, txn_failed}
use liboffkv.Base.{length-append, subst}
use liboffkv.Client.{Kind}
use liboffkv.Consul.Refine.Blocks.{
  reported, writes, asked, IsBlock, check_block-IsBlock, op_block-IsBlock,
}
use liboffkv.Consul.Refine.Shape.{
  all_asked, none_asked, wanted, shape, owner-lt, answer-seen, chosen, Each-append,
}
use liboffkv.Exec.{returned, >>=-eq-ok, pure, ◌>>=◌}
use liboffkv.Client.{TxnOpResult, Transaction}
use liboffkv.Consul.Service.{KeyValue, done, fail, aborted, Ppconsul}
use liboffkv.Consul.Commit.{Block, Batch, add_block}
use liboffkv.Consul.Replies.{committed}
use liboffkv.Consul.Session.{State, Run}
use liboffkv.Consul.Transactions.{check_block, op_block, add_each, commit}
use liboffkv.Consul.Refine.Owner.{
  add_blocks, all_ops, all_kinds, owner, no_blocks, txn_of_blocks, kinds_of_blocks,
  lower_bound-owner,
}

module _ (p : Ppconsul) where
  module _ {A : Type 0} (f : A → Run p Block) where
    -- The blocks of all elements, in order.
    unfoldable pub blocks_of : List A → Run p (List Block)
    blocks_of [] = pure []
    blocks_of (x ∷ xs) = do block ← f x; blocks ← blocks_of xs; pure (block ∷ blocks)

    pub add_each_of_blocks :
        (b : Batch) (xs : List A) (blocks : List Block) (s s' : State p)
        → blocks_of xs s ≡ (ok blocks, s')
        → add_each p f b xs s ≡ (ok (add_blocks b blocks), s')
    unfolding add_each blocks_of add_blocks
    add_each_of_blocks b [] blocks s s' h = ground (arith, h)
    add_each_of_blocks b (x ∷ xs) blocks s s' h =
        let (block, t, made, rest) = >>=-eq-ok (f x) _ s h in
        let (more, u, others, last) = >>=-eq-ok (blocks_of xs) _ t rest in
        let ih = add_each_of_blocks (add_block b block) xs more t u others in
        rw (made, ih) (ground (arith, last))

  -- The blocks of a transaction: those of its checks, and then those of its operations.
  unfoldable pub transaction_blocks : Transaction → Run p (List Block)
  transaction_blocks t = do
    checks ← blocks_of (check_block p) t.checks
    ops ← blocks_of (op_block p) t.ops
    pure (checks ++ ops)

  add_blocks-append :
      (b : Batch) (xs ys : List Block) → add_blocks (add_blocks b xs) ys ≡ add_blocks b (xs ++ ys)
  unfolding add_blocks
  add_blocks-append b [] ys = refl
  add_blocks-append b (x ∷ xs) ys = add_blocks-append (add_block b x) xs ys

  commit-eq :
      (t : Transaction) (blocks : List Block) (s s' : State p)
      → transaction_blocks t s ≡ (ok blocks, s')
      → commit p t s ≡ (
        committed (add_blocks no_blocks blocks) (p.commit (all_ops blocks) s'.world).0,
        record s' { world = (p.commit (all_ops blocks) s'.world).1 },
      )
  unfolding commit transaction_blocks
  commit-eq t blocks s s' h =
      let (checks, u, checked, rest) = >>=-eq-ok (blocks_of (check_block p) t.checks) _ s h in
      let (ops, w, operated, last) = >>=-eq-ok (blocks_of (op_block p) t.ops) _ u rest in
      let same : checks ++ ops ≡ blocks = ground (arith, last) in
      let at_end : w ≡ s' = ap (λ q. q.1) last in
      rw
        (
          add_each_of_blocks (check_block p) no_blocks t.checks checks s u checked,
          add_each_of_blocks (op_block p) (add_blocks no_blocks checks) t.ops ops u w operated,
          add_blocks-append no_blocks checks ops,
          same,
          at_end,
          txn_of_blocks blocks,
        )
        refl

  blocks_of-IsBlock :
      {A : Type 0} (f : A → Run p Block) (wants : A → List Kind)
      → ((x : A) (b : Block) (s t : State p) → f x s ≡ (ok b, t) → IsBlock (wants x) b)
      → (xs : List A) (blocks : List Block) (s t : State p) → blocks_of f xs s ≡ (ok blocks, t)
      → Each IsBlock (map wants xs) blocks
  unfolding blocks_of
  blocks_of-IsBlock f wants each [] blocks s t h = subst (Each IsBlock []) (returned h) tt
  blocks_of-IsBlock f wants each (x ∷ xs) blocks s t h =
      let (b, u, made, rest) = >>=-eq-ok (f x) _ s h in
      let (bs, w, others, last) = >>=-eq-ok (blocks_of f xs) _ u rest in
      subst (Each IsBlock (map wants (x ∷ xs))) (returned last)
        (each x b s u made, blocks_of-IsBlock f wants each xs bs u w others)

  transaction_blocks-IsBlock :
      (t : Transaction) (blocks : List Block) (s s' : State p)
      → transaction_blocks t s ≡ (ok blocks, s')
      → Each IsBlock (wanted t) blocks
  unfolding transaction_blocks
  transaction_blocks-IsBlock t blocks s s' h =
      let (checks, u, checked, rest) = >>=-eq-ok (blocks_of (check_block p) t.checks) _ s h in
      let (ops, w, operated, last) = >>=-eq-ok (blocks_of (op_block p) t.ops) _ u rest in
      subst (Each IsBlock (wanted t)) (returned last) (
        Each-append (map none_asked t.checks) checks (map asked t.ops) ops
          (blocks_of-IsBlock (check_block p) none_asked (check_block-IsBlock p) t.checks checks s u
            checked)
          (blocks_of-IsBlock (op_block p) asked (op_block-IsBlock p) t.ops ops u w operated))

  module _ (t : Transaction) (blocks : List Block) (s s' : State p) (w : p.World)
      (built : transaction_blocks t s ≡ (ok blocks, s')) where
    -- If Consul aborts at any of the operations that were sent, `commit` throws `TxnFailed` with
    -- the index of the caller's check or operation to which that one belongs.
    pub commit-TxnFailed :
        (what : Bytes) (i : ℕ) (more : List ℕ)
        → p.commit (all_ops blocks) s'.world ≡ (fail (aborted what i more), w)
        → i < length (all_ops blocks)
        → (commit p t s ≡ (throw (txn_failed (owner i blocks)), record s' { world = w }))
          × (owner i blocks < length t.checks + length t.ops)
    unfolding committed
    commit-TxnFailed what i more refused lt =
        let (ne, len, _, _, _) =
          shape (wanted t) blocks (transaction_blocks-IsBlock t blocks s s' built) in
        (
          commit-eq t blocks s s' built ∙ rw (refused, lower_bound-owner i blocks ne lt) refl,
          omega (
            arith,
            owner-lt i blocks lt,
            len,
            length-append (map none_asked t.checks) (map asked t.ops),
            length-map t.checks none_asked,
            length-map t.ops asked,
          ),
        )

    -- If it succeeds and reports one entry for each read and each write that was sent, `commit` returns
    -- one result for each create and each set of the caller, in order, with the modify indices of the
    -- entries that are reported for the writes.
    pub commit-results :
        (results : List KeyValue)
        → p.commit (all_ops blocks) s'.world ≡ (done results, w)
        → length results ≡ reported (all_ops blocks)
        → (rs : List TxnOpResult) × (commit p t s ≡ (ok rs, record s' { world = w }))
          × (map (λ r. r.kind) rs ≡ all_asked (wanted t))
          × (map (λ r. r.version) rs ≡ chosen (writes (all_ops blocks)) results)
    unfolding committed
    commit-results results accepted counted =
        let (_, _, aligned, shows, marked) =
          shape (wanted t) blocks (transaction_blocks-IsBlock t blocks s s' built) in
        let (rs, e, kinds, versions) =
          answer-seen results (all_kinds blocks) (counted ∙ sym aligned) in
        (
          rs,
          commit-eq t blocks s s' built ∙ rw (accepted, kinds_of_blocks blocks, e) refl,
          kinds ∙ shows,
          versions ∙ ap (λ m. chosen m results) marked,
        )
