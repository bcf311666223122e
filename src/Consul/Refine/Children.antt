-- ===== src/Consul/Refine/Children.antt =====
-- consul_client.hpp: `get_children`, over a service that keeps its contract.
use liboffkv.Base.{
  ℕ, ◌≡◌, ◌≢◌, ◌↔◌, refl, sym, ap, ◌∙◌, Bool, true, inl, inr, Bytes, slash, List, [], ◌∷◌, ◌++◌,
  Option, none, some, arith, All, length, map, append_assoc, append-nil,
}
use liboffkv.Errors.{Outcome, ok, throw, ◌>>=◌, Outcome-cases}
use liboffkv.Key.Segments.{IsSegment, IsSegment-NoSlash, of_segments, spell}
use liboffkv.Client.{ChildrenResult}
use liboffkv.Client.Spec.{listed, Lists}
use liboffkv.Consul.Service.{
  TxnOperation, KeyValue, Reply, done, fail, aborted, bad_status, other_error, Ppconsul,
}
use liboffkv.Consul.Naming.{child_names, max_index, as_path_string}
use liboffkv.Consul.Replies.{WatchHandle, watch_if, no_entry_or_rethrow, rethrow}
use liboffkv.Consul.Session.{State}
use liboffkv.Consul.Methods.{get_children}
use liboffkv.Consul.Contract.{Contract, Agrees, run, all_done, failed_at}
use liboffkv.Consul.Refine.Tree.{append-ne-nil, tree_of, IsKey, shown, Unchanged-same}
use liboffkv.Consul.Refine.Calls.{named}
use liboffkv.Consul.Naming.Laws.{name_of}
use liboffkv.Consul.Contract.Store.{lookup, with_prefix}
use liboffkv.Consul.Commit.{back_index}
use liboffkv.Consul.Refine.Endings.{endings, endings-NoSlash, listed-endings}
use liboffkv.Consul.Refine.ChildNames.{
  child_path, name_of-child, back_index-snoc, present-eq-true_iff, listed-map, IsChild-map,
  child_names_lem,
}

abbrev children_txn : Bytes → List TxnOperation
children_txn name = TxnOperation.get_all (name ++ slash ∷ []) ∷ TxnOperation.get name ∷ []

-- What the method makes of the results of its transaction.
abbrev listing : Bool → Bytes → ℕ → List KeyValue → Outcome (ChildrenResult WatchHandle)
listing watch below g results = do
  last_index ← back_index results
  children ← child_names (length below) g results
  ok (record {
    children = children;
    watch = watch_if watch below (max_index last_index results) true;
  })

abbrev read_children :
    Bool → Bytes → ℕ → Reply (List KeyValue) → Outcome (ChildrenResult WatchHandle)
read_children watch below g (done results) = listing watch below g results
read_children watch below g (fail f) = throw (no_entry_or_rethrow f)

run_done :
    (name : Bytes) (before after results : List KeyValue) (n : ℕ) (o : Option KeyValue)
    → lookup name before ≡ o
    → run n 0 (children_txn name) before ≡ all_done after results
    → (kv : KeyValue) × (lookup name before ≡ some kv)
      × (after ≡ before)
      × (results ≡ with_prefix (name ++ slash ∷ []) before ++ kv ∷ [])
unfolding run
run_done name before after results n none e h = absurd (ground (arith, e, h))
run_done name before after results n (some kv) e h =
    (kv, e, ground (arith, e, h), ground (arith, e, h))

run_failed :
    (name : Bytes) (before : List KeyValue) (n first : ℕ) (o : Option KeyValue)
    → lookup name before ≡ o
    → run n 0 (children_txn name) before ≡ failed_at first
    → lookup name before ≡ none
unfolding run
run_failed name before n first none e h = e
run_failed name before n first (some kv) e h = absurd (ground (arith, e, h))

module _ (ps k : List Bytes) (v : All IsSegment ps) (key : IsKey k) where
  abbrev below : Bytes
  below = name_of (ps ++ k) ++ slash ∷ []

  present_iff :
      (s : List KeyValue) (t : Bytes)
      → IsSegment t
      → (listed (child_path k t) (map (child_path k) (endings below s)) ≡ true)
        ↔ (tree_of ps s (k ++ t ∷ []) ≢ none)
  present_iff s t seg =
      let shift : below ++ t ≡ name_of (ps ++ (k ++ t ∷ [])) =
        name_of-child (ps ++ k) t (append-ne-nil ps k key.nonempty)
        ∙ ap name_of (append_assoc ps k (t ∷ [])) in
      rw
        (
          listed-map k t (endings below s),
          listed-endings below t s (IsSegment-NoSlash t seg.plain),
          shift,
        )
        (present-eq-true_iff (lookup (name_of (ps ++ (k ++ t ∷ []))) s))

  listing-Lists :
      (watch : Bool) (before after : List KeyValue) (kv : KeyValue)
      → lookup (name_of (ps ++ k)) before ≡ some kv
      → after ≡ before
      → Lists
          (tree_of ps before)
          (tree_of ps after)
          k
          (listing watch below (length (name_of ps)) (with_prefix below before ++ kv ∷ []))
  listing-Lists watch before after kv e same =
      rw (back_index-snoc (with_prefix below before) kv, child_names_lem ps k v key kv before)
        (
          λ absent. cc (sym (ap shown e) ∙ absent),
          present_iff before,
          IsChild-map k _ (endings-NoSlash below before),
          Unchanged-same ps same,
        )

  read_children-Lists :
      (watch : Bool) (before after : List KeyValue) (reply : Reply (List KeyValue))
      → Agrees (children_txn (name_of (ps ++ k))) before reply after
      → Lists
          (tree_of ps before)
          (tree_of ps after)
          k
          (read_children watch below (length (name_of ps)) reply)
  unfolding no_entry_or_rethrow rethrow
  read_children-Lists watch before after (done results) (n, pos, h) =
      let (kv, e, same, found) = run_done (name_of (ps ++ k)) before after results n _ refl h in
      rw found (listing-Lists watch before after kv e same)
  read_children-Lists watch before after (fail (aborted what first more)) (n, h, same) =
      (ap shown (run_failed (name_of (ps ++ k)) before n first _ refl h), Unchanged-same ps same)
  read_children-Lists watch before after (fail (bad_status what)) _ = tt
  read_children-Lists watch before after (fail (other_error what)) _ = tt

module _ (p : Ppconsul) (s : State p) (ps k : List Bytes) (watch : Bool) (v : All IsSegment ps)
    (key : IsKey k) (prefix : s.client.prefix ≡ of_segments ps) where
  abbrev name : Bytes
  name = name_of (ps ++ k)

  global_prefix :
      (t : State p)
      → t.client.prefix ≡ of_segments ps
      → as_path_string t.client.prefix (record { path = [] }) ≡ ok (name_of ps)
  global_prefix t e =
      unfold spell in named p t ps v e [] tt ∙ ap (λ q. ok (name_of q)) (append-nil ps)

  get_children-eq :
      (r : Reply (List KeyValue) × p.World)
      → p.commit (children_txn name) s.world ≡ r
      → get_children p (of_segments k) watch s ≡ (
        read_children watch (name ++ slash ∷ []) (length (name_of ps)) r.0,
        record s { world = r.1 },
      )
  unfolding get_children
  get_children-eq (done results, w) e = elim (Outcome-cases (back_index results)) [
    | inr (x, f) ↦ rw (named p s ps v prefix k key.valid, e, f)
    | inl (i, f) ↦
        elim (Outcome-cases
          (child_names (length (name ++ slash ∷ [])) (length (name_of ps)) results)) [
            | inr (x, g) ↦ rw (named p s ps v prefix k key.valid, e, f, global_prefix s prefix, g)
            | inl (cs, g) ↦ rw (named p s ps v prefix k key.valid, e, f, global_prefix s prefix, g)
          ]
  ]
  get_children-eq (fail f, w) e = rw (named p s ps v prefix k key.valid, e)

  -- For a prefix and a key of valid segments and a Consul that keeps its contract: `get_children`
  -- lists paths of direct children of the key only, and the path of a direct child with a valid last
  -- segment exactly if that child has an entry; it throws `NoEntry` only if the key has none; it
  -- changes no entry, and any other exception reports the service.
  pub get_children-Lists :
      (c : Contract p)
      → let r = get_children p (of_segments k) watch s in
        Lists (tree_of ps (c.view s.world)) (tree_of ps (c.view r.1.world)) k r.0
  get_children-Lists c = rw (get_children-eq _ refl) (
      read_children-Lists ps k v key watch _ _ _
        (c.commits (children_txn name) s.world (tt, (tt, tt))))
