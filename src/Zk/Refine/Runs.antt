-- ===== src/Zk/Refine/Runs.antt =====
-- zk_client.hpp, `erase`: what its transaction does to the entries.
use liboffkv.Base.{
  ◌≡◌, ◌⊎◌, inl, inr, refl, ap, ◌∙◌, subst, Bool-cases, true, false, Bytes, bytes_eq, bytes_eq_iff,
  List, [], ◌∷◌, ◌++◌, Option, none, some, ℕ, suc, arith, All, Option-cases, ◌≤◌,
}
use liboffkv.Zk.Service.{Op, Result}
use liboffkv.Zk.Contract.{apply, matches, Ran, all_done, failed_at, with_result, run}
use liboffkv.Zk.Contract.Store.{Node, lookup, remove, has_below, lookup-remove, lookup_of_has_below}
use liboffkv.Zk.Refine.Query.{Within, ErasesWithin}

-- Of the entries before, those at the path and below it are gone, and no other.
pub record Gone (path : Bytes) (before after : List Node) : Type 0 where
  pub gone : (k : Bytes) → Within path k → lookup k after ≡ none
  pub kept : (k : Bytes) → ¬ Within path k → lookup k after ≡ lookup k before

with_result-all_done :
    (r : Result) (ran : Ran) (t : List Node) (rs : List Result)
    → with_result r ran ≡ all_done t rs
    → (more : List Result) × (rs ≡ r ∷ more) × (ran ≡ all_done t more)
with_result-all_done r (all_done left results) t rs h =
    (results, ground (arith, h), ground (arith, h))
with_result-all_done r (failed_at i) t rs h = absurd (cc h)

with_result-failed_at :
    (r : Result) (ran : Ran) (j : ℕ) → with_result r ran ≡ failed_at j → ran ≡ failed_at j
with_result-failed_at r (all_done left results) j h = absurd (cc h)
with_result-failed_at r (failed_at i) j h = h

pub run-cons-all_done :
    (i : ℕ) (op : Op) (ops : List Op) (s t : List Node) (rs : List Result)
    → run i (op ∷ ops) s ≡ all_done t rs
    → (u : List Node) × (r : Result) × (more : List Result) × (apply op s ≡ some (u, r))
      × (rs ≡ r ∷ more)
      × (run (suc i) ops u ≡ all_done t more)
unfolding run
run-cons-all_done i op ops s t rs h = elim (Option-cases (apply op s)) [
  | inl e ↦ absurd (cc (rw (run, e) at h))
  | inr ((u, r), e) ↦
      let (more, shown, ran) = with_result-all_done r (run (suc i) ops u) t rs (rw (run, e) at h) in
      (u, r, more, e, shown, ran)
]

pub run-cons-failed_at :
    (i j : ℕ) (op : Op) (ops : List Op) (s : List Node)
    → run i (op ∷ ops) s ≡ failed_at j
    → ((j ≡ i) × (apply op s ≡ none))
      ⊎ ((u : List Node) × (r : Result) × (apply op s ≡ some (u, r))
          × (run (suc i) ops u ≡ failed_at j))
unfolding run
run-cons-failed_at i j op ops s h = elim (Option-cases (apply op s)) [
  | inl e ↦ inl (ground (arith, rw (run, e) at h), e)
  | inr ((u, r), e) ↦
      inr (u, r, e, with_result-failed_at r (run (suc i) ops u) j (rw (run, e) at h))
]

-- A failure is not before the first of the operations.
pub run-failed_at-le : (i j : ℕ) (ops : List Op) (s : List Node) → run i ops s ≡ failed_at j → i ≤ j
unfolding run
run-failed_at-le i j [] s h = absurd (cc h)
run-failed_at-le i j (op ∷ ops) s h = elim (run-cons-failed_at i j op ops s h) [
  | inl (e, _) ↦ omega (arith, e)
  | inr (u, r, _, ran) ↦ omega (arith, run-failed_at-le (suc i) j ops u ran)
]

-- An erasure takes away the entry at its path, below which there is none.
apply-erase :
    (k : Bytes) (s u : List Node) (r : Result)
    → apply (Op.erase k) s ≡ some (u, r)
    → (has_below k s ≡ false) × (u ≡ remove k s)
unfolding apply
apply-erase k s u r h = elim (Option-cases (lookup k s)) [
  | inl e ↦ absurd (cc (rw (apply, e) at h))
  | inr (n, e) ↦ elim (Bool-cases (has_below k s)) [
    | inl b ↦ absurd (cc (rw (apply, e, b) at h))
    | inr b ↦ (b, ground (arith, rw (apply, e, b) at h))
  ]
]

pub run-nil :
    (i : ℕ) (s t : List Node) (rs : List Result) → run i [] s ≡ all_done t rs → (t ≡ s) × (rs ≡ [])
unfolding run
run-nil i s t rs h = (ground (arith, h), ground (arith, h))

-- So a run of erasures that ends with that of the path leaves nothing there.
run-last :
    (i : ℕ) (path : Bytes) (more : List Op) (s t : List Node) (rs : List Result)
    → run i (more ++ Op.erase path ∷ []) s ≡ all_done t rs
    → (u : List Node) × (has_below path u ≡ false) × (t ≡ remove path u)
run-last i path [] s t rs h =
    let (u, r, out, e, _, ran) = run-cons-all_done i (Op.erase path) [] s t rs h in
    let (b, same) = apply-erase path s u r e in (s, b, (run-nil (suc i) u t out ran).0 ∙ same)
run-last i path (op ∷ more) s t rs h =
    let (u, r, out, e, _, ran) = run-cons-all_done i op (more ++ Op.erase path ∷ []) s t rs h in
    run-last (suc i) path more u t out ran

none-remove :
    (path k : Bytes) (u : List Node)
    → has_below path u ≡ false
    → Within path k
    → lookup k (remove path u) ≡ none
none-remove path k u b (inl e) =
    rw (lookup-remove k path u, e, (bytes_eq_iff path path).1 refl) refl
none-remove path k u b (inr below) =
    rw (lookup-remove k path u, lookup_of_has_below path k u b below) (ground arith)

kept-remove :
    (path k gone : Bytes) (s : List Node)
    → Within path gone
    → ¬ Within path k
    → lookup k (remove gone s) ≡ lookup k s
kept-remove path k gone s w n = elim (Bool-cases (bytes_eq gone k)) [
  | inl e ↦ absurd (n (subst (Within path) ((bytes_eq_iff gone k).0 e) w))
  | inr e ↦ rw (lookup-remove k gone s, e) refl
]

run-kept :
    (i : ℕ) (path k : Bytes) (ops : List Op) (s t : List Node) (rs : List Result)
    → All (ErasesWithin path) ops
    → run i ops s ≡ all_done t rs
    → ¬ Within path k
    → lookup k t ≡ lookup k s
run-kept i path k [] s t rs a h n = ap (lookup k) (run-nil i s t rs h).0
run-kept i path k (Op.erase gone ∷ ops) s t rs a h n =
    let (u, r, out, e, _, ran) = run-cons-all_done i (Op.erase gone) ops s t rs h in
    run-kept (suc i) path k ops u t out a.1 ran n
    ∙ ap (lookup k) (apply-erase gone s u r e).1
    ∙ kept-remove path k gone s a.0 n
run-kept i path k (Op.check q version ∷ ops) s t rs a h n = absurd a.0
run-kept i path k (Op.create q data_ mode ∷ ops) s t rs a h n = absurd a.0
run-kept i path k (Op.set q data_ ∷ ops) s t rs a h n = absurd a.0

pub run-Gone :
    (i : ℕ) (path : Bytes) (ops more : List Op) (s t : List Node) (rs : List Result)
    → All (ErasesWithin path) ops
    → ops ≡ more ++ Op.erase path ∷ []
    → run i ops s ≡ all_done t rs
    → Gone path s t
run-Gone i path ops more s t rs a e h =
    let (u, b, last) = run-last i path more s t rs (rw e at h) in
    record {
      gone = λ k w. ap (lookup k) last ∙ none-remove path k u b w;
      kept = λ k n. run-kept i path k ops s t rs a h n;
    }

-- What a check finds.
pub apply-check :
    (path : Bytes) (version : Option ℕ) (s u : List Node) (r : Result)
    → apply (Op.check path version) s ≡ some (u, r)
    → (u ≡ s) × ((n : Node) × (lookup path s ≡ some n) × (matches version n.data_version ≡ true))
unfolding apply
apply-check path version s u r h = elim (Option-cases (lookup path s)) [
  | inl e ↦ absurd (cc (rw (apply, e) at h))
  | inr (n, e) ↦ elim (Bool-cases (matches version n.data_version)) [
    | inl b ↦ (ground (arith, rw (apply, e, b) at h), (n, e, b))
    | inr b ↦ absurd (cc (rw (apply, e, b) at h))
  ]
]

pub apply-check_none :
    (path : Bytes) (version : Option ℕ) (s : List Node)
    → apply (Op.check path version) s ≡ none
    → (lookup path s ≡ none)
      ⊎ ((n : Node) × (lookup path s ≡ some n) × (matches version n.data_version ≡ false))
unfolding apply
apply-check_none path version s h = elim (Option-cases (lookup path s)) [
  | inl e ↦ inl e
  | inr (n, e) ↦ elim (Bool-cases (matches version n.data_version)) [
    | inl b ↦ absurd (cc (rw (apply, e, b) at h))
    | inr b ↦ inr (n, e, b)
  ]
]
