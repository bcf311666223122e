-- ===== src/Zk/Refine/Written.antt =====
-- zk_client.hpp: a creation or a write that ZooKeeper answers changes one entry.
use liboffkv.Base.{
  subst, ℕ, suc, ◌≡◌, ◌≢◌, inl, inr, refl, sym, ap, ◌∙◌, List, [], ◌∷◌, Bytes, bytes_eq,
  bytes_eq_iff, Option, none, some, true, Bool-cases, Option-cases, arith,
}
use liboffkv.Zk.Service.{done, CreateMode, Op, Result}
use liboffkv.Zk.Session.{version_of}
use liboffkv.Zk.Contract.{Sets, parent_of, apply, matches, may_bear, rewritten}
use liboffkv.Zk.Contract.Store.{Node, lookup, put, lookup-put}

-- The entry at the path has this value and version, and no other entry has changed.
abbrev pub Written : Bytes → Bytes → ℕ → List Node → List Node → Type 0
Written path value version before after =
    ((n : Node) × (lookup path after ≡ some n)
      × (n.value ≡ value)
      × (version_of n.data_version ≡ version))
    × ((k : Bytes) → k ≢ path → lookup k after ≡ lookup k before)

lookup-path : (path : Bytes) (s : List Node) (n : Node) → lookup path s ≡ some n → n.path ≡ path
unfolding lookup
lookup-path path [] n h = absurd (cc h)
lookup-path path (m ∷ s) n h = elim (Bool-cases (bytes_eq m.path path)) [
  | inl e ↦
      let same : m ≡ n = cc (rw (lookup, e) at h) in
      ap (λ (q : Node). q.path) (sym same) ∙ (bytes_eq_iff m.path path).0 e
  | inr e ↦ lookup-path path s n (rw (lookup, e) at h)
]

put-Written :
    (path : Bytes) (new : Node) (s : List Node)
    → new.path ≡ path
    → Written path new.value (version_of new.data_version) s (put new s)
put-Written path new s e = (
  (new, rw (lookup-put path new s, (bytes_eq_iff new.path path).1 e) refl, refl, refl),
  λ k ne. rw (lookup-put k new s) (ground (arith, bytes_eq_iff new.path k, e, ne)),
)

-- A creation that is answered.
pub create-Written :
    (path value : Bytes) (mode : CreateMode) (s t : List Node)
    → apply (Op.create path value mode) s ≡ some (t, Result.create)
    → (lookup path s ≡ none) × Written path value 1 s t
unfolding apply
create-Written path value mode s t h = elim (Option-cases (lookup path s)) [
  | inr (n, e) ↦ absurd (cc (rw (apply, e) at h))
  | inl e ↦ elim (Bool-cases (may_bear (parent_of path) s)) [
    | inr b ↦ absurd (cc (rw (apply, e, b) at h))
    | inl b ↦
        let new : Node = record { path = path; value = value; data_version = 0; mode = mode } in
        let same : put new s ≡ t = ground (arith, rw (apply, e, b) at h) in
        (e, subst (Written path value 1 s) same (put-Written path new s refl))
  ]
]

-- A write that is answered.
pub set-Written :
    (path value : Bytes) (version : Option ℕ) (s t : List Node) (v : ℕ)
    → Sets path value version s (done v) t
    → (n : Node) × (lookup path s ≡ some n)
      × (matches version n.data_version ≡ true)
      × (v ≡ suc n.data_version)
      × Written path value (version_of v) s t
set-Written path value version s t v (n, found, matched, raised, e) = (
  n,
  found,
  matched,
  raised,
  subst (Written path value (version_of v) s) (sym e) (
      subst (λ q. Written path value (version_of q) s (put (rewritten n value) s)) (sym raised)
        (put-Written path (rewritten n value) s (lookup-path path s n found))),
)
