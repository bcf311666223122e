-- ===== src/Consul/Refine/Owner.antt =====
-- consul_client.hpp, `commit`: from the index of a failed operation to the caller's.
use liboffkv.Base.{
  ℕ, ◌<◌, ◌≡◌, sym, ◌∙◌, List, [], ◌∷◌, ◌++◌, append-nil, append_assoc, length, length-append, map,
  All,
}
use liboffkv.Consul.Service.{TxnOperation}
use liboffkv.Consul.Commit.{ResultKind, Block, Batch, add_block}
use liboffkv.Boundaries.{lower_bound}
use liboffkv.Boundaries.Ends
use liboffkv.Boundaries.Ends.{flat, ends, lower_bound-ends}

-- `add_block` for each block in turn.
unfoldable pub add_blocks : Batch → List Block → Batch
add_blocks b [] = b
add_blocks b (block ∷ blocks) = add_blocks (add_block b block) blocks

abbrev pub ops_of : List Block → List (List TxnOperation)
ops_of = map (λ block. block.ops)

-- The operations of all blocks, in order.
abbrev pub all_ops : List Block → List TxnOperation
all_ops blocks = flat (ops_of blocks)

unfoldable pub all_kinds : List Block → List ResultKind
all_kinds [] = []
all_kinds (block ∷ blocks) = block.kinds ++ all_kinds blocks

-- The index of the block that holds the operation at position `i`.
abbrev pub owner : ℕ → List Block → ℕ
owner i blocks = Ends.owner i (ops_of blocks)

abbrev pub NonEmpty : Block → Type 0
NonEmpty block = 0 < length block.ops

txn-add_blocks :
    (b : Batch) (blocks : List Block) → (add_blocks b blocks).txn ≡ b.txn ++ all_ops blocks
unfolding add_blocks add_block flat
txn-add_blocks b [] = sym (append-nil b.txn)
txn-add_blocks b (block ∷ blocks) =
    txn-add_blocks (add_block b block) blocks ∙ append_assoc b.txn block.ops (all_ops blocks)

kinds-add_blocks :
    (b : Batch) (blocks : List Block) → (add_blocks b blocks).kinds ≡ b.kinds ++ all_kinds blocks
unfolding add_blocks add_block all_kinds
kinds-add_blocks b [] = sym (append-nil b.kinds)
kinds-add_blocks b (block ∷ blocks) =
    kinds-add_blocks (add_block b block) blocks
    ∙ append_assoc b.kinds block.kinds (all_kinds blocks)

boundaries-add_blocks :
    (b : Batch) (blocks : List Block)
    → (add_blocks b blocks).boundaries ≡ b.boundaries ++ ends (length b.txn) (ops_of blocks)
unfolding add_blocks add_block ends
boundaries-add_blocks b [] = sym (append-nil b.boundaries)
boundaries-add_blocks b (block ∷ blocks) =
    rw (
      boundaries-add_blocks (add_block b block) blocks,
      append_assoc,
      length-append b.txn block.ops,
    )

All-ops_of : (blocks : List Block) → All NonEmpty blocks → All Ends.NonEmpty (ops_of blocks)
All-ops_of [] ne = tt
All-ops_of (block ∷ blocks) ne = (ne.0, All-ops_of blocks ne.1)

abbrev pub no_blocks : Batch
no_blocks = record { txn = []; boundaries = []; kinds = [] }

pub txn_of_blocks : (blocks : List Block) → (add_blocks no_blocks blocks).txn ≡ all_ops blocks
txn_of_blocks = txn-add_blocks no_blocks

pub kinds_of_blocks : (blocks : List Block) → (add_blocks no_blocks blocks).kinds ≡ all_kinds blocks
kinds_of_blocks = kinds-add_blocks no_blocks

-- The boundaries that `commit` records lead from any position to the block that holds it.
pub lower_bound-owner :
    (i : ℕ) (blocks : List Block)
    → All NonEmpty blocks
    → i < length (all_ops blocks)
    → lower_bound (add_blocks no_blocks blocks).boundaries i ≡ owner i blocks
lower_bound-owner i blocks ne lt =
    rw boundaries-add_blocks (lower_bound-ends i (ops_of blocks) (All-ops_of blocks ne) lt)
