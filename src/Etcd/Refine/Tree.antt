-- ===== src/Etcd/Refine/Tree.antt =====
-- The entries that etcd stores, seen as the tree of the client's keys.
use mathlib.Core.List.{append_cancel_left}
use liboffkv.Base.{
  ℕ, ◌≡◌, ◌≢◌, refl, sym, ap, ◌∙◌, false, Bool-cases, inl, inr, Bytes, bytes_eq, bytes_eq_iff, List,
  [], ◌∷◌, ◌++◌, Option, none, some, arith, All, All-append, ◌↔◌,
}
use liboffkv.Errors.{ok}
pub use liboffkv.Key.Segments.{IsKey, IsKey-cons, IsKey-snoc}
use liboffkv.Key.Segments.{IsSegment, NoSlash, All-NoSlash, of_segments}
use liboffkv.Key.Parent.{root-cons, root-nil, parent-snoc}
use liboffkv.Key.Descendants.{spell-injective}
use liboffkv.Client.Spec.{Tree, HasParent, Unchanged, Written}
use liboffkv.Etcd.Service.{KeyValue, Etcd}
use liboffkv.Etcd.Naming.{as_path_string}
use liboffkv.Etcd.Naming.Laws.{mark, key_of, as_path_string_lem, mark-NoSlash}
use liboffkv.Etcd.Session.{State}
use liboffkv.Etcd.Methods.{parent_path}
use liboffkv.Etcd.Contract.Store.{lookup, upsert, lookup-upsert}

abbrev pub shown : Option KeyValue → Option (Bytes × ℕ)
shown none = none
shown (some kv) = some (kv.value, kv.version)

abbrev pub tree_of : List Bytes → List KeyValue → Tree
tree_of ps s k = shown (lookup (key_of ps k) s)

mark-ne-nil : (s : Bytes) (ss : List Bytes) → mark (s ∷ ss) ≢ []
unfolding mark
mark-ne-nil s [] = λ e. cc e
mark-ne-nil s (t ∷ ss) = λ e. cc e

mark-injective : (ss ts : List Bytes) → mark ss ≡ mark ts → ss ≡ ts
unfolding mark
mark-injective [] [] e = refl
mark-injective [] (t ∷ ts) e = absurd (unfold mark in mark-ne-nil t ts (sym e))
mark-injective (s ∷ ss) [] e = absurd (mark-ne-nil s ss e)
mark-injective (s ∷ []) (t ∷ []) e = cc e
mark-injective (s ∷ []) (t ∷ u ∷ ts) e =
    let nil : [] ≡ mark (u ∷ ts) = cc e in absurd (mark-ne-nil u ts (sym nil))
mark-injective (s ∷ r ∷ ss) (t ∷ []) e =
    let nil : mark (r ∷ ss) ≡ [] = cc e in absurd (mark-ne-nil r ss nil)
mark-injective (s ∷ r ∷ ss) (t ∷ u ∷ ts) e =
    let rest : mark (r ∷ ss) ≡ mark (u ∷ ts) = cc e in
    let same : r ∷ ss ≡ u ∷ ts = mark-injective (r ∷ ss) (u ∷ ts) rest in cc (same, e)

module _ (ps : List Bytes) (v : All IsSegment ps) where
  key_of-injective :
      (j k : List Bytes) → All IsSegment j → All IsSegment k → key_of ps j ≡ key_of ps k → j ≡ k
  key_of-injective j k a b e = mark-injective j k (
      append_cancel_left ps (mark j) (mark k) (
        spell-injective (ps ++ mark j) (ps ++ mark k)
          (All-append NoSlash ps (mark j) (All-NoSlash ps v) (mark-NoSlash j a))
          (All-append NoSlash ps (mark k) (All-NoSlash ps v) (mark-NoSlash k b)) e))

  -- Different keys are stored under different names.
  pub key-ne :
      {j k : List Bytes} → IsKey j → IsKey k → j ≢ k → bytes_eq (key_of ps k) (key_of ps j) ≡ false
  key-ne {j} {k} a b n = elim (Bool-cases (bytes_eq (key_of ps k) (key_of ps j))) [
    | inr e ↦ e
    | inl e ↦ absurd (n (sym (key_of-injective k j b.valid a.valid ((bytes_eq_iff _ _).0 e))))
  ]

  -- A write under the name of a key.
  pub Written-upsert :
      (before : List KeyValue) {after : List KeyValue} (k : List Bytes) (kv : KeyValue)
      → IsKey k
      → kv.key ≡ key_of ps k
      → after ≡ upsert kv before
      → Written (tree_of ps before) (tree_of ps after) k (kv.value, kv.version)
  Written-upsert before {after} k kv key name e = (
    rw (e, lookup-upsert (key_of ps k) kv before, (bytes_eq_iff kv.key _).1 name) refl,
    λ t ts w n.
        rw (e, lookup-upsert (key_of ps (t ∷ ts)) kv before, name, key-ne (IsKey-cons t ts w) key n)
          refl,
  )

pub shown-none_iff : (o : Option KeyValue) → (shown o ≡ none) ↔ (o ≡ none)
shown-none_iff none = ground arith
shown-none_iff (some kv) = ground arith

-- The name of the parent, if the parent is not the root.
abbrev pub parent_name : List Bytes → List Bytes → Option Bytes
parent_name ps [] = none
parent_name ps (u ∷ us) = some (key_of ps (u ∷ us))

abbrev pub ParentIn : Option Bytes → List KeyValue → Type 0
ParentIn none s = Unit
ParentIn (some up) s = lookup up s ≢ none

pub ParentIn-iff :
    (ps up : List Bytes) (s : List KeyValue)
    → ParentIn (parent_name ps up) s ↔ HasParent (tree_of ps s) up
ParentIn-iff ps [] s = (λ _. inl refl, λ _. tt)
ParentIn-iff ps (u ∷ us) s = (
  λ h. inr (λ e. h ((shown-none_iff _).0 e)),
  λ h e. elim h [ inl nil ↦ cc nil | inr there ↦ there ((shown-none_iff _).1 e) ],
)

pub Unchanged-same :
    (ps : List Bytes) {before after : List KeyValue}
    → after ≡ before
    → Unchanged (tree_of ps before) (tree_of ps after)
Unchanged-same ps e t ts w = ap (λ s. tree_of ps s (t ∷ ts)) e

module _ (p : Etcd) (s : State p) (ps : List Bytes)
    (prefix : s.client.prefix ≡ of_segments ps) where
  pub named :
      (k : List Bytes) → IsKey k → as_path_string s.client.prefix (of_segments k) ≡ ok (key_of ps k)
  named [] key = absurd (key.nonempty refl)
  named (t ∷ ts) key =
      ap (λ q. as_path_string q (of_segments (t ∷ ts))) prefix
      ∙ as_path_string_lem ps t ts key.valid

  pub parent_path_lem :
      (up : List Bytes) (last : Bytes)
      → All IsSegment up
      → All IsSegment (up ++ last ∷ [])
      → parent_path p (of_segments (up ++ last ∷ [])) s ≡ (ok (parent_name ps up), s)
  unfolding parent_path
  parent_path_lem [] last w a = rw (parent-snoc [] last a, root-nil)
  parent_path_lem (u ∷ us) last w a =
      rw (parent-snoc (u ∷ us) last a, root-cons u us, named (u ∷ us) (IsKey-cons u us w))
