-- ===== src/Zk/Refine/Query.antt =====
-- zk_client.hpp, `make_recursive_erase_query_`: whatever the service lists, the query is extended
-- by erasures at the path and below it.
use liboffkv.Base.{
  ◌≡◌, ◌⊎◌, inl, inr, refl, sym, ap, ◌∙◌, subst, true, Bytes, slash, List, [], ◌∷◌, ◌++◌, Option,
  some, ℕ, zero, suc, append-nil, append_assoc, arith, All, All-append,
}
use liboffkv.Errors.{Outcome, ok}
use liboffkv.Exec.{returned}
use liboffkv.Util.{starts_with}
use liboffkv.Util.Laws.{starts_with-append}
use liboffkv.Zk.Service.{ErrorCode, error, Reply, done, fail, Op, Zk}
use liboffkv.Zk.Session.{State, Run}
use liboffkv.Zk.Erase.{
  EraseQueryFailures, ignore_no_entry, throw_no_entry, fail_txn_on_no_entry, child_path, each_child,
  erase_children, make_recursive_erase_query,
}
use liboffkv.Zk.Contract.{Contract}
use liboffkv.Exec.{pure}
use liboffkv.Zk.Refine.Levels.{then-eq-some}

-- The second path is the first one, or lies below it.
abbrev pub Within : Bytes → Bytes → Type 0
Within path k = (k ≡ path) ⊎ (starts_with (path ++ slash ∷ []) k ≡ true)

abbrev pub ErasesWithin : Bytes → Op → Type 0
ErasesWithin path (Op.erase k) = Within path k
ErasesWithin path _ = ⊥

starts_with_of_append : (x y k : Bytes) → starts_with (x ++ y) k ≡ true → starts_with x k ≡ true
unfolding starts_with
starts_with_of_append [] y k h = refl
starts_with_of_append (c ∷ x) y [] h = h
starts_with_of_append (c ∷ x) y (d ∷ k) h = ground (arith, h, starts_with_of_append x y k)

respell :
    (path name : Bytes)
    → child_path path name ++ slash ∷ [] ≡ (path ++ slash ∷ []) ++ (name ++ slash ∷ [])
respell path name = simp append_assoc

Within-child_path : (path name k : Bytes) → Within (child_path path name) k → Within path k
Within-child_path path name k (inl e) =
    inr
      (rw (e, ← append_assoc path (slash ∷ []) name) (starts_with-append (path ++ slash ∷ []) name))
Within-child_path path name k (inr below) = inr (
    starts_with_of_append (path ++ slash ∷ []) (name ++ slash ∷ []) k
      (subst (λ t. starts_with t k ≡ true) (respell path name) below))

All-child_path :
    (path name : Bytes) (ops : List Op)
    → All (ErasesWithin (child_path path name)) ops
    → All (ErasesWithin path) ops
All-child_path path name [] a = tt
All-child_path path name (Op.erase k ∷ ops) a =
    (Within-child_path path name k a.0, All-child_path path name ops a.1)
All-child_path path name (Op.check k version ∷ ops) a = absurd a.0
All-child_path path name (Op.create k data_ mode ∷ ops) a = absurd a.0
All-child_path path name (Op.set k data_ ∷ ops) a = absurd a.0

-- How the code ends the query at an entry.
abbrev pub EndsWell : EraseQueryFailures → Bytes → List Op → Type 0
EndsWell ignore_no_entry path extra = Unit
EndsWell _ path extra = (more : List Op) × (extra ≡ more ++ Op.erase path ∷ [])

ends_well :
    (behavior : EraseQueryFailures) (path : Bytes) (more : List Op)
    → EndsWell behavior path (more ++ Op.erase path ∷ [])
ends_well ignore_no_entry path more = tt
ends_well throw_no_entry path more = (more, refl)
ends_well fail_txn_on_no_entry path more = (more, refl)

module _ (p : Zk) (c : Contract p) where
  pub record Extends (path : Bytes) (s s' : State p) (query longer : List Op) : Type 0 where
    pub extra : List Op
    pub appended : longer ≡ query ++ extra
    pub within : All (ErasesWithin path) extra
    pub later : c.Later s.world s'.world
    pub prefix : s'.prefix ≡ s.prefix

  extends_by :
      (path : Bytes) (extra query longer : List Op) (s s' : State p)
      → All (ErasesWithin path) extra
      → Path
          (Outcome (Option (List Op)) × State p)
          (ok (some (query ++ extra)), s)
          (ok (some longer), s')
      → Extends path s s' query longer
  extends_by path extra query longer s s' a h =
      let longer_eq : query ++ extra ≡ longer = cc (returned h) in
      let state_eq : s ≡ s' = ap (λ q. q.1) h in
      record {
        extra = extra;
        appended = sym longer_eq;
        within = a;
        later = subst (λ t. c.Later s.world t.world) state_eq (c.same s.world);
        prefix = ap (λ t. t.prefix) (sym state_eq);
      }

  extends_then :
      {path : Bytes} {s t u : State p} {a b d : List Op}
      → Extends path s t a b
      → Extends path t u b d
      → Extends path s u a d
  extends_then {path} {s} {t} {u} {a} {b} {d} x y = record {
    extra = x.extra ++ y.extra;
    appended = y.appended ∙ rw (x.appended) (append_assoc a x.extra y.extra);
    within = All-append (ErasesWithin path) x.extra y.extra x.within y.within;
    later = c.then_ x.later y.later;
    prefix = y.prefix ∙ x.prefix;
  }

  -- A step on the way, or the end of the recursion's levels.
  abbrev Steps : Bytes → (List Op → Run p (Option (List Op))) → Type 0
  Steps path f =
      (query longer : List Op) (s s' : State p)
      → f query s ≡ (ok (some longer), s')
      → Extends path s s' query longer

  each_child-Extends :
      (path : Bytes) (visit : Bytes → List Op → Run p (Option (List Op)))
      → ((name : Bytes) → Steps path (visit name))
      → (names : List Bytes) → Steps path (each_child p visit names)
  unfolding each_child
  each_child-Extends path visit steps [] query longer s s' h =
      extends_by path [] query longer s s' tt (rw (append-nil query) h)
  each_child-Extends path visit steps (name ∷ names) query longer s s' h =
      let (q, t, visited, rest) =
        then-eq-some p (visit name query) (each_child p visit names) s s' h in
      extends_then (steps name query q s t visited)
        (each_child-Extends path visit steps names q longer t s' rest)

  module _ (path : Bytes) (visit : List Bytes → List Op → Run p (Option (List Op)))
      (steps : (names : List Bytes) → Steps path (visit names)) where
    -- The reply to `get_children` was this one, and it left the service at `s`.
    erase_children-Extends :
        (behavior : EraseQueryFailures) (reply : Reply (List Bytes)) (query longer : List Op)
        (s s' : State p)
        → erase_children p visit path behavior query reply s ≡ (ok (some longer), s')
        → (x : Extends path s s' query longer) × EndsWell behavior path x.extra
    unfolding erase_children extends_by extends_then
    erase_children-Extends behavior (done children) query longer s s' h =
        let (q, t, visited, rest) =
          then-eq-some p (visit children query) (λ q. pure (some (q ++ Op.erase path ∷ []))) s s'
            h in
        let x = steps children query q s t visited in
        let y = extends_by path (Op.erase path ∷ []) q longer t s' (inl refl, tt) rest in
        (extends_then x y, ends_well behavior path x.extra)
    erase_children-Extends ignore_no_entry (fail (error ErrorCode.no_entry what)) query longer s s'
          h =
        (extends_by path [] query longer s s' tt h, tt)
    erase_children-Extends throw_no_entry (fail (error ErrorCode.no_entry what)) query longer s s'
          h =
        absurd (cc (ap (λ q. q.0) h))
    erase_children-Extends fail_txn_on_no_entry (fail (error ErrorCode.no_entry what)) query longer
          s s' h =
        (extends_by path (Op.erase path ∷ []) query longer s s' (inl refl, tt) h, ([], refl))
    erase_children-Extends behavior (fail f) query longer s s' h = absurd (cc (ap (λ q. q.0) h))

  widen :
      (path name : Bytes) {s s' : State p} {query longer : List Op}
      → Extends (child_path path name) s s' query longer
      → Extends path s s' query longer
  widen path name x = record {
    extra = x.extra;
    appended = x.appended;
    within = All-child_path path name x.extra x.within;
    later = x.later;
    prefix = x.prefix;
  }

  -- If the recursion produces a query, then it has appended erasures at the path and below it,
  -- that of the path last unless the path had no entry and the caller ignores that.
  pub make_recursive_erase_query-Extends :
      (depth : ℕ) (behavior : EraseQueryFailures) (path : Bytes) (query longer : List Op)
      (s s' : State p)
      → make_recursive_erase_query p depth behavior path query s ≡ (ok (some longer), s')
      → (x : Extends path s s' query longer) × EndsWell behavior path x.extra
  unfolding make_recursive_erase_query
  make_recursive_erase_query-Extends zero behavior path query longer s s' h =
      absurd (cc (returned h))
  make_recursive_erase_query-Extends (suc depth) behavior path query longer s s' h =
      let visit : Bytes → List Op → Run p (Option (List Op)) =
        λ name. make_recursive_erase_query p depth ignore_no_entry (child_path path name) in
      let steps : (name : Bytes) → Steps path (visit name) = λ name q r t t' e.
        widen path name
          (make_recursive_erase_query-Extends depth ignore_no_entry (child_path path name) q r t t'
            e).0 in
      let (x, ends) =
        erase_children-Extends path (each_child p visit)
          (λ names. each_child-Extends path visit steps names) behavior
          (p.get_children path s.world).0 query longer
          (record s { world = (p.get_children path s.world).1 }) s' h in
      (
        record {
          extra = x.extra;
          appended = x.appended;
          within = x.within;
          later = c.then_ (c.lists path s.world) x.later;
          prefix = x.prefix;
        },
        ends,
      )
