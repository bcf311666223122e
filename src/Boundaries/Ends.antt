-- ===== src/Boundaries/Ends.antt =====
-- Operations that come in blocks, one block for each item of the caller, and the boundaries of the
-- blocks, which `commit` of consul_client.hpp and of zk_client.hpp record.
use native.Mathlib.Nat.{zero-add}
use liboffkv.Base.{
  subst, Bool-cases, inl, inr, ℕ, zero, suc, ◌+◌, ◌-◌, ◌<◌, ◌≡◌, refl, List, [], ◌∷◌, ◌++◌,
  append-nil, arith, length, length-append, ltb, if◌then◌else◌, All, some, get_elem?, take,
}
use liboffkv.Boundaries.{lower_bound}

module _ {A : Type 0} where
  abbrev pub NonEmpty : List A → Type 0
  NonEmpty block = 0 < length block

  -- All operations, in order.
  unfoldable pub flat : List (List A) → List A
  flat [] = []
  flat (block ∷ blocks) = block ++ flat blocks

  -- The position of the last operation of each block, where the first block begins at `n`.
  unfoldable pub ends : ℕ → List (List A) → List ℕ
  ends n [] = []
  ends n (block ∷ blocks) = (n + length block - 1) ∷ ends (n + length block) blocks

  -- The index of the block that holds the operation at position `i`.
  unfoldable pub owner : ℕ → List (List A) → ℕ
  owner i [] = 0
  owner i (block ∷ blocks) =
      let later = suc (owner (i - length block) blocks) in if ltb i (length block) then 0 else later

  -- Among the ends, `lower_bound` finds the block in which the position lies.
  lower_bound-ends_add :
      (n i : ℕ) (blocks : List (List A))
      → All NonEmpty blocks
      → i < length (flat blocks)
      → lower_bound (ends n blocks) (n + i) ≡ owner i blocks
  unfolding lower_bound ends owner flat
  lower_bound-ends_add n i [] ne lt = refl
  lower_bound-ends_add n i (block ∷ blocks) ne lt = elim (Bool-cases (ltb i (length block))) [
    | inl here ↦ ground (arith, here, ne.0)
    | inr beyond ↦
        let rest : i - length block < length (flat blocks) =
          ground (arith, beyond, length-append block (flat blocks)) in
        let same : n + length block + (i - length block) ≡ n + i = ground (arith, beyond) in
        let ih = lower_bound-ends_add (n + length block) (i - length block) blocks ne.1 rest in
        ground (
          arith,
          beyond,
          ne.0,
          subst
              (λ t.
                lower_bound (ends (n + length block) blocks) t ≡ owner (i - length block) blocks)
              same ih,
        )
  ]

  -- If no block is empty, then `lower_bound` on the positions of their last operations leads from the
  -- position of any operation to the index of the block that holds it.
  pub lower_bound-ends :
      (i : ℕ) (blocks : List (List A))
      → All NonEmpty blocks
      → i < length (flat blocks)
      → lower_bound (ends 0 blocks) i ≡ owner i blocks
  lower_bound-ends i blocks ne lt =
      subst (λ t. lower_bound (ends 0 blocks) t ≡ owner i blocks) (zero-add i)
        (lower_bound-ends_add 0 i blocks ne lt)

  pub owner-lt :
      (i : ℕ) (blocks : List (List A)) → i < length (flat blocks) → owner i blocks < length blocks
  unfolding owner flat
  owner-lt i [] lt = absurd (omega arith)
  owner-lt i (block ∷ blocks) lt =
      let long = length-append block (flat blocks) in
      elim (Bool-cases (ltb i (length block))) [
        | inl here ↦ ground (arith, here)
        | inr beyond ↦
            let rest : i - length block < length (flat blocks) = ground (arith, beyond, long) in
            ground (arith, beyond, owner-lt (i - length block) blocks rest)
      ]

  -- A block ends where as many operations lie behind as it and the blocks before it hold.
  ends-get_elem?_add :
      (n u e : ℕ) (blocks : List (List A))
      → All NonEmpty blocks
      → get_elem? (ends n blocks) u ≡ some e
      → (suc e ≡ n + length (flat (take (suc u) blocks))) × (u < length blocks)
  unfolding ends flat
  ends-get_elem?_add n u e [] ne h = absurd (cc h)
  ends-get_elem?_add n zero e (block ∷ blocks) ne h = ground (arith, h, ne.0, append-nil block)
  ends-get_elem?_add n (suc u) e (block ∷ blocks) ne h =
      let (ih, lt) = ends-get_elem?_add (n + length block) u e blocks ne.1 h in
      (omega (arith, ih, length-append block (flat (take (suc u) blocks))), omega (arith, lt))

  pub ends-get_elem? :
      (u e : ℕ) (blocks : List (List A))
      → All NonEmpty blocks
      → get_elem? (ends 0 blocks) u ≡ some e
      → (suc e ≡ length (flat (take (suc u) blocks))) × (u < length blocks)
  ends-get_elem? u e blocks ne h =
      let (same, lt) = ends-get_elem?_add 0 u e blocks ne h in (omega (arith, same), lt)

  pub ends-some :
      (n u : ℕ) (blocks : List (List A))
      → u < length blocks
      → (e : ℕ) × (get_elem? (ends n blocks) u ≡ some e)
  unfolding ends
  ends-some n u [] lt = absurd (omega arith)
  ends-some n zero (block ∷ blocks) lt = (n + length block - 1, refl)
  ends-some n (suc u) (block ∷ blocks) lt = ends-some (n + length block) u blocks (omega arith)
