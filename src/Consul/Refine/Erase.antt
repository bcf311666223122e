-- ===== src/Consul/Refine/Erase.antt =====
-- consul_client.hpp: `erase`, over a service that keeps its contract.
use liboffkv.Base.{
  ℕ, ◌≡◌, ◌≢◌, refl, sym, ap, ◌∙◌, subst, Bool, true, false, ◌==◌, ==_iff, Bool-cases, ◌⊎◌, inl,
  inr, Bytes, bytes_eq, bytes_eq_self, slash, List, [], ◌∷◌, ◌++◌, Option, none, some,
  if◌then◌else◌, arith, All,
}
use liboffkv.Errors.{Outcome, ok, throw, no_entry}
use liboffkv.Key.Segments.{IsSegment, of_segments}
use liboffkv.Util.{starts_with}
use liboffkv.Client.Spec.{IsServiceFailure, Erased, Erases}
use liboffkv.Consul.Service.{
  TxnOperation, KeyValue, Reply, done, fail, aborted, bad_status, other_error, Ppconsul,
}
use liboffkv.Consul.Naming.Laws.{name_of}
use liboffkv.Consul.Replies.{erased, rethrow}
use liboffkv.Consul.Session.{State}
use liboffkv.Consul.Methods.{erase}
use liboffkv.Consul.Contract.{LockFree, Contract, Agrees, run, all_done, failed_at}
use liboffkv.Consul.Contract.Store.{
  lookup, remove, remove_prefix, lookup-remove, lookup-remove_prefix,
}
use liboffkv.Consul.Refine.Tree.{
  tree_of, IsKey, IsKey-cons, shown, shown-none_iff, Unchanged-same, name-ne, name_below,
}
use liboffkv.Consul.Refine.Calls.{named}

abbrev pub removal : Bytes → ℕ → TxnOperation
removal key version =
    if version == 0 then TxnOperation.erase key else TxnOperation.compare_erase key version

abbrev pub erase_txn : Bytes → ℕ → List TxnOperation
erase_txn key version =
    TxnOperation.get key ∷ removal key version ∷ TxnOperation.erase_all (key ++ slash ∷ []) ∷ []

module _ (key : Bytes) (version : ℕ) (before after : List KeyValue) where
  abbrev StoreErases : Outcome (Unit {0}) → Type 0
  StoreErases (ok _) =
      ((kv : KeyValue) × (lookup key before ≡ some kv)
        × ((version ≡ 0) ⊎ (kv.modify_index ≡ version))
        × (after ≡ remove_prefix (key ++ slash ∷ []) (remove key before)))
      ⊎ ((kv : KeyValue) × (lookup key before ≡ some kv)
          × (version ≢ 0)
          × (kv.modify_index ≢ version)
          × (after ≡ before))
  StoreErases (throw no_entry) = (lookup key before ≡ none) × (after ≡ before)
  StoreErases (throw e) = IsServiceFailure e

erased_done :
    (key : Bytes) (version : ℕ) (before after results : List KeyValue) (n : ℕ) (o : Option KeyValue)
    → lookup key before ≡ o
    → run n 0 (erase_txn key version) before ≡ all_done after results
    → StoreErases key version before after (erased (done results))
unfolding run erased
erased_done key version before after results n none e h = absurd (ground (arith, e, h))
erased_done key version before after results n (some kv) e h = elim (Bool-cases (version == 0)) [
  | inl zero ↦ inl (kv, e, inl ((==_iff version 0).0 zero), ground (arith, e, h, zero))
  | inr nz ↦ elim (Bool-cases (kv.modify_index == version)) [
    | inl same ↦ inl (kv, e, inr ((==_iff _ version).0 same), ground (arith, e, h, nz, same))
    | inr other ↦ absurd (ground (arith, e, h, nz, other))
  ]
]

erased_aborted :
    (key what : Bytes) (version : ℕ) (before after : List KeyValue) (n first : ℕ) (more : List ℕ)
    (o : Option KeyValue)
    → lookup key before ≡ o
    → run n 0 (erase_txn key version) before ≡ failed_at first
    → after ≡ before
    → StoreErases key version before after (erased (fail (aborted what first more)))
unfolding run erased
erased_aborted key what version before after n first more none e h same =
    let at : first ≡ 0 = ground (arith, e, h) in rw at (e, same)
erased_aborted key what version before after n first more (some kv) e h same =
    elim (Bool-cases (version == 0)) [
      | inl zero ↦ absurd (ground (arith, e, h, zero))
      | inr nz ↦ elim (Bool-cases (kv.modify_index == version)) [
        | inl it ↦ absurd (ground (arith, e, h, nz, it))
        | inr other ↦
            let at : first ≡ 1 = ground (arith, e, h, nz, other) in
            rw at (inr (kv, e, ground (arith, nz), ground (arith, other), same))
      ]
    ]

-- The answer to the transaction, read by the handlers.
erased_lem :
    (key : Bytes) (version : ℕ) (before after : List KeyValue) (reply : Reply (List KeyValue))
    → Agrees (erase_txn key version) before reply after
    → StoreErases key version before after (erased reply)
erased_lem key version before after (done results) (n, pos, h) =
    erased_done key version before after results n (lookup key before) refl h
erased_lem key version before after (fail (aborted what first more)) (n, h, same) =
    erased_aborted key what version before after n first more (lookup key before) refl h same
erased_lem key version before after (fail (bad_status what)) _ = unfold erased rethrow in tt
erased_lem key version before after (fail (other_error what)) _ = unfold erased rethrow in tt

erase_txn-LockFree : (key : Bytes) (version : ℕ) → All LockFree (erase_txn key version)
erase_txn-LockFree key version = elim (Bool-cases (version == 0)) [
  | inl zero ↦ rw zero (tt, (tt, (tt, tt)))
  | inr nz ↦ rw nz (tt, (tt, (tt, tt)))
]

none_either : (b : Bool) → Path (Option (Bytes × ℕ)) (shown (if b then none else none)) none
none_either true = refl
none_either false = refl

-- The removal of a key and of all names that begin with it and a slash.
module _ (ps k : List Bytes) (v : All IsSegment ps) (key : IsKey k) (s : List KeyValue) where
  abbrev name : Bytes
  name = name_of (ps ++ k)

  lookup-removed :
      (other : Bytes)
      → lookup other (remove_prefix (name ++ slash ∷ []) (remove name s)) ≡ (
          if starts_with (name ++ slash ∷ []) other
          then none
          else if bytes_eq name other
          then none
          else lookup other s)
  lookup-removed other =
      lookup-remove_prefix other (name ++ slash ∷ []) (remove name s)
      ∙ ap (λ o. if starts_with (name ++ slash ∷ []) other then none else o)
          (lookup-remove other name s)

  Erased-removed :
      Erased (tree_of ps s) (tree_of ps (remove_prefix (name ++ slash ∷ []) (remove name s))) k
  Erased-removed = (
    rw (lookup-removed name, bytes_eq_self name) (none_either _),
    λ t ts w below.
        rw
          (lookup-removed (name_of (ps ++ t ∷ ts)), name_below ps v (IsKey-cons t ts w) key ∙ below)
          refl,
    λ t ts w ne beside.
        rw
          (
            lookup-removed (name_of (ps ++ t ∷ ts)),
            name_below ps v (IsKey-cons t ts w) key ∙ beside,
            name-ne ps v (IsKey-cons t ts w) key ne,
          )
          refl,
  )

-- The answer, of the tree.
StoreErases-Erases :
    (ps k : List Bytes) (version : ℕ) (before after : List KeyValue)
    → All IsSegment ps
    → IsKey k
    → (o : Outcome (Unit {0})) → StoreErases (name_of (ps ++ k)) version before after o
    → Erases (tree_of ps before) (tree_of ps after) k version o
StoreErases-Erases ps k version before after v key (ok _) (inl (kv, e, accepted, gone)) = inl (
  λ absent. cc (sym (ap shown e) ∙ absent),
  elim accepted [ inl zero ↦ inl zero | inr same ↦ inr (kv.value, rw (e, same) refl) ],
  subst (λ left. Erased (tree_of ps before) (tree_of ps left) k) (sym gone)
      (Erased-removed ps k v key before),
)
StoreErases-Erases ps k version before after v key (ok _) (inr (kv, e, nz, other, same)) =
    inr (nz, ((kv.value, kv.modify_index), ap shown e, other), Unchanged-same ps same)
StoreErases-Erases ps k version before after v key (throw no_entry) (absent, same) =
    ((shown-none_iff _).1 absent, Unchanged-same ps same)
StoreErases-Erases ps k version before after v key (throw _) h = h

module _ (p : Ppconsul) (s : State p) (ps k : List Bytes) (v : All IsSegment ps) (key : IsKey k)
    (prefix : s.client.prefix ≡ of_segments ps) where
  abbrev pub sent : ℕ → List TxnOperation
  sent version = erase_txn (name_of (ps ++ k)) version

  pub erase-eq :
      (version : ℕ)
      → erase p (of_segments k) version s ≡ (
        erased (p.commit (sent version) s.world).0,
        record s { world = (p.commit (sent version) s.world).1 },
      )
  unfolding erase
  erase-eq version = rw (named p s ps v prefix k key.valid)

  -- For a prefix and a key of valid segments and a Consul that keeps its contract, `erase` meets
  -- `Erases` on the tree of entries below the prefix. It returns if the key has an entry: the key and
  -- all keys below it are gone, and no other, if the version is 0 or that of the entry, and nothing
  -- is changed if the version is another. It throws `NoEntry` if there is no entry, with nothing
  -- changed; any other exception reports the service.
  pub erase-Erases :
      (version : ℕ) (c : Contract p)
      → let r = erase p (of_segments k) version s in
        Erases (tree_of ps (c.view s.world)) (tree_of ps (c.view r.1.world)) k version r.0
  erase-Erases version c = rw (erase-eq version) (
      StoreErases-Erases ps k version _ _ v key _ (
        erased_lem _ version _ _ _
          (c.commits (sent version) s.world (erase_txn-LockFree (name_of (ps ++ k)) version))))
