-- ===== src/Etcd/Refine/Remove.antt =====
-- etcd_client.hpp: `erase`, over a service that keeps its contract.
use mathlib.Core.Path.{ap₂}
use liboffkv.Base.{
  ℕ, ◌+◌, ◌≡◌, refl, sym, ap, ◌∙◌, subst, Bool, true, false, ◌==◌, Bool-cases, inl, inr, Bytes,
  bytes_eq, bytes_eq_self, slash, List, [], ◌∷◌, ◌++◌, Option, none, if◌then◌else◌, All,
}
use liboffkv.Errors.{Outcome, ok, throw, no_entry}
use liboffkv.Key.Segments.{IsSegment, of_segments, spell}
use liboffkv.Client.Spec.{Erased, Erases}
use liboffkv.Etcd.Service.{TxnRequest, KeyValue, TxnResponse, Reply, answered, refused, Etcd}
use liboffkv.Etcd.Naming.{make_subtree_range}
use liboffkv.Etcd.Naming.Laws.{key_of}
use liboffkv.Etcd.Naming.Ranges.{in_range, subtree_bounds, make_subtree_range_lem, in_subtree}
use liboffkv.Etcd.Session.{State, commit_txn}
use liboffkv.Etcd.Methods.{erase}
use liboffkv.Etcd.Contract.{ComparesPresence, Contract}
use liboffkv.Etcd.Contract.Store.{lookup, covers, remove_within, lookup-remove_within}
use liboffkv.Etcd.Refine.Tree.{
  tree_of, IsKey, IsKey-cons, shown, shown-none_iff, Unchanged-same, key-ne, named,
}
use liboffkv.Etcd.Refine.RemoveTxn.{
  erase_txn, erase_builder-eq, read_erase, StoreErases, read_erase-StoreErases,
}

none_either : (b : Bool) → Path (Option (Bytes × ℕ)) (shown (if b then none else none)) none
none_either true = refl
none_either false = refl

covers-snoc :
    (begin x : Bytes) (c : ℕ) (key : Bytes)
    → covers begin (x ++ c ∷ []) key ≡ in_range key (begin, x ++ c ∷ [])
unfolding covers
covers-snoc begin [] c key = refl
covers-snoc begin (d ∷ x) c key = refl

-- The removal of a key and of the range below it.
module _ (ps k : List Bytes) (v : All IsSegment ps) (key : IsKey k) (s : List KeyValue) where
  abbrev name : Bytes
  name = key_of ps k

  abbrev below : Bytes × Bytes
  below = subtree_bounds ps k

  lookup-removed :
      (other : Bytes)
      → lookup other (remove_within below.0 below.1 (remove_within name [] s)) ≡ (
          if in_range other below
          then none
          else if bytes_eq name other
          then none
          else lookup other s)
  unfolding covers
  lookup-removed other =
      lookup-remove_within other below.0 below.1 (remove_within name [] s)
      ∙ ap₂ (λ (b : Bool) (o : Option KeyValue). if b then none else o)
          (covers-snoc below.0 (spell (ps ++ k)) (slash + 1) other)
          (lookup-remove_within other name [] s)

  Erased-removed :
      Erased (tree_of ps s) (tree_of ps (remove_within below.0 below.1 (remove_within name [] s))) k
  Erased-removed = (
    rw (lookup-removed name, bytes_eq_self name) (none_either _),
    λ t ts w inside.
        rw (lookup-removed (key_of ps (t ∷ ts)), in_subtree ps k t ts v key.valid w ∙ inside) refl,
    λ t ts w ne beside.
        rw
          (
            lookup-removed (key_of ps (t ∷ ts)),
            in_subtree ps k t ts v key.valid w ∙ beside,
            key-ne ps v (IsKey-cons t ts w) key ne,
          )
          refl,
  )

-- The answer, of the tree.
StoreErases-Erases :
    (ps k : List Bytes) (version : ℕ) (before after : List KeyValue)
    → All IsSegment ps
    → IsKey k
    → (o : Outcome (Unit {0}))
    → StoreErases (key_of ps k) (subtree_bounds ps k) version before after o
    → Erases (tree_of ps before) (tree_of ps after) k version o
StoreErases-Erases ps k version before after v key (ok _) (inl (kv, e, fits, gone)) = inl (
  λ absent. cc (sym (ap shown e) ∙ absent),
  elim fits [ inl zero ↦ inl zero | inr same ↦ inr (kv.value, rw (e, same) refl) ],
  subst (λ left. Erased (tree_of ps before) (tree_of ps left) k) (sym gone)
      (Erased-removed ps k v key before),
)
StoreErases-Erases ps k version before after v key (ok _) (inr (kv, e, nz, other, same)) =
    inr (nz, ((kv.value, kv.version), ap shown e, other), Unchanged-same ps same)
StoreErases-Erases ps k version before after v key (throw no_entry) (absent, same) =
    ((shown-none_iff _).1 absent, Unchanged-same ps same)
StoreErases-Erases ps k version before after v key (throw _) h = h

erase_txn-ComparesPresence :
    (key : Bytes) (range : Bytes × Bytes) (version : ℕ)
    → All ComparesPresence (erase_txn key range version).compare
erase_txn-ComparesPresence key range version = elim (Bool-cases (version == 0)) [
  | inl z ↦ rw z (refl, tt)
  | inr z ↦ rw z (tt, tt)
]

module _ (p : Etcd) (s : State p) (ps k : List Bytes) (v : All IsSegment ps) (key : IsKey k)
    (prefix : s.client.prefix ≡ of_segments ps) where
  abbrev pub sent : ℕ → TxnRequest
  sent version = erase_txn (key_of ps k) (subtree_bounds ps k) version

  range_named : make_subtree_range s.client.prefix (of_segments k) ≡ ok (subtree_bounds ps k)
  range_named =
      ap (λ q. make_subtree_range q (of_segments k)) prefix
      ∙ make_subtree_range_lem ps k v key.valid

  pub erase-eq :
      (version : ℕ) (r : Reply TxnResponse × p.World)
      → p.txn (sent version) s.world ≡ r
      → erase p (of_segments k) version s ≡ (read_erase r.0, record s { world = r.1 })
  unfolding erase commit_txn
  erase-eq version (answered r, u) e = rw (
    named p s ps prefix k key,
    range_named,
    erase_builder-eq (key_of ps k) (subtree_bounds ps k) version,
    e,
  )
  erase-eq version (refused code message, u) e = rw (
    named p s ps prefix k key,
    range_named,
    erase_builder-eq (key_of ps k) (subtree_bounds ps k) version,
    e,
  )

  -- For a prefix and a key of valid segments and an etcd that keeps its contract, `erase` meets
  -- `Erases` on the tree of entries below the prefix. It returns if the key has an entry: the key and
  -- all keys below it are gone, and no other, if the version is 0 or that of the entry, and nothing
  -- is changed if the version is another. It throws `NoEntry` if there is no entry, with nothing
  -- changed; any other exception reports the service.
  pub etcd_erase-Erases :
      (version : ℕ) (c : Contract p)
      → let r = erase p (of_segments k) version s in
        Erases (tree_of ps (c.view s.world)) (tree_of ps (c.view r.1.world)) k version r.0
  etcd_erase-Erases version c = rw (erase-eq version (p.txn (sent version) s.world) refl) (
      StoreErases-Erases ps k version _ _ v key _ (
        read_erase-StoreErases (key_of ps k) (subtree_bounds ps k) version _ _ c.Excessive _ (
          c.transactions (sent version) s.world
            (erase_txn-ComparesPresence (key_of ps k) (subtree_bounds ps k) version))))
