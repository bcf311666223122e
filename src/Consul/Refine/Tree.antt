-- ===== src/Consul/Refine/Tree.antt =====
-- The entries that Consul stores, seen as the tree of the client's keys.
use mathlib.Core.List.{append_cancel_left}
use liboffkv.Base.{
  ℕ, ◌≡◌, ◌≢◌, refl, sym, ap, ◌∙◌, false, Bool-cases, inl, inr, Bytes, bytes_eq, bytes_eq_iff,
  slash, List, [], ◌∷◌, ◌++◌, Option, none, some, arith, All, All-append,
}
use liboffkv.Key.Segments.{IsSegment}
pub use liboffkv.Key.Segments.{IsKey, IsKey-cons, IsKey-snoc}
use liboffkv.Key.Descendants.{is_below, is_below-append}
use liboffkv.Util.{starts_with}
use liboffkv.Base.{◌↔◌}
use liboffkv.Client.Spec.{Tree, HasParent, Unchanged, Written}
use liboffkv.Consul.Service.{KeyValue}
use liboffkv.Consul.Naming.Laws.{name_of, name_of-injective, starts_with-name_of}
use liboffkv.Consul.Contract.Store.{lookup, upsert, lookup-upsert}

abbrev pub shown : Option KeyValue → Option (Bytes × ℕ)
shown none = none
shown (some kv) = some (kv.value, kv.modify_index)

abbrev pub tree_of : List Bytes → List KeyValue → Tree
tree_of ps s k = shown (lookup (name_of (ps ++ k)) s)

pub append-ne-nil : (ps k : List Bytes) → k ≢ [] → ps ++ k ≢ []
append-ne-nil [] k n = n
append-ne-nil (p ∷ ps) k n = λ e. cc e

module _ (ps : List Bytes) (v : All IsSegment ps) where
  -- Different keys have different names.
  pub name-ne :
      {j k : List Bytes}
      → IsKey j
      → IsKey k
      → j ≢ k
      → bytes_eq (name_of (ps ++ k)) (name_of (ps ++ j)) ≡ false
  name-ne {j} {k} a b n = elim (Bool-cases (bytes_eq (name_of (ps ++ k)) (name_of (ps ++ j)))) [
    | inr e ↦ e
    | inl e ↦ absurd (
        n (
          sym (
            append_cancel_left ps k j (
              name_of-injective (ps ++ k) (ps ++ j) (append-ne-nil ps k b.nonempty)
                (append-ne-nil ps j a.nonempty) (All-append IsSegment ps k v b.valid)
                (All-append IsSegment ps j v a.valid) ((bytes_eq_iff _ _).0 e)))))
  ]

  pub name_below :
      {j k : List Bytes}
      → IsKey j
      → IsKey k
      → starts_with (name_of (ps ++ k) ++ slash ∷ []) (name_of (ps ++ j)) ≡ is_below k j
  name_below {j} {k} a b =
      starts_with-name_of (ps ++ k) (ps ++ j) (append-ne-nil ps k b.nonempty)
        (append-ne-nil ps j a.nonempty) (All-append IsSegment ps k v b.valid)
        (All-append IsSegment ps j v a.valid)
      ∙ is_below-append ps k j

  pub tree-upsert_self :
      (kv : KeyValue) (s : List KeyValue) (k : List Bytes)
      → kv.key ≡ name_of (ps ++ k)
      → tree_of ps (upsert kv s) k ≡ some (kv.value, kv.modify_index)
  tree-upsert_self kv s k e =
      rw (lookup-upsert (name_of (ps ++ k)) kv s, (bytes_eq_iff kv.key _).1 e)

  pub tree-upsert_ne :
      (kv : KeyValue) (s : List KeyValue) {j k : List Bytes}
      → kv.key ≡ name_of (ps ++ k)
      → IsKey j
      → IsKey k
      → j ≢ k
      → tree_of ps (upsert kv s) j ≡ tree_of ps s j
  tree-upsert_ne kv s {j} {k} e a b n =
      rw (lookup-upsert (name_of (ps ++ j)) kv s, e, name-ne a b n)

pub shown-none_iff : (o : Option KeyValue) → (shown o ≡ none) ↔ (o ≡ none)
shown-none_iff none = ground arith
shown-none_iff (some kv) = ground arith

-- The parent's entry, if the parent is not the root.
abbrev pub parent_name : List Bytes → List Bytes → Option Bytes
parent_name ps [] = none
parent_name ps (u ∷ us) = some (name_of (ps ++ u ∷ us))

abbrev pub ParentIn : Option Bytes → List KeyValue → Type 0
ParentIn none s = Unit
ParentIn (some up) s = lookup up s ≢ none

pub ParentIn-iff :
    (ps up : List Bytes) (s : List KeyValue)
    → ParentIn (parent_name ps up) s ↔ HasParent (tree_of ps s) up
ParentIn-iff ps [] s = (λ _. inl refl, λ _. tt)
ParentIn-iff ps (u ∷ us) s = (
  λ h. inr (λ e. h ((shown-none_iff _).0 e)),
  λ h e. elim h [ inl nil ↦ cc nil | inr there ↦ there ((shown-none_iff _).1 e) ],
)

pub Unchanged-same :
    (ps : List Bytes) {before after : List KeyValue}
    → after ≡ before
    → Unchanged (tree_of ps before) (tree_of ps after)
Unchanged-same ps e t ts w = ap (λ s. tree_of ps s (t ∷ ts)) e

-- A write under the name of a key.
pub Written-upsert :
    (ps : List Bytes) (before : List KeyValue) {after : List KeyValue} (k : List Bytes)
    (kv : KeyValue)
    → All IsSegment ps
    → IsKey k
    → kv.key ≡ name_of (ps ++ k)
    → after ≡ upsert kv before
    → Written (tree_of ps before) (tree_of ps after) k (kv.value, kv.modify_index)
Written-upsert ps before k kv v key name e = (
  ap (λ s. tree_of ps s k) e ∙ tree-upsert_self ps v kv before k name,
  λ t ts w n.
      ap (λ s. tree_of ps s (t ∷ ts)) e
      ∙ tree-upsert_ne ps v kv before name (IsKey-cons t ts w) key n,
)
