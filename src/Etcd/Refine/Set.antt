-- ===== src/Etcd/Refine/Set.antt =====
-- etcd_client.hpp: `set`, over a service that keeps its contract and has no other client meanwhile.
use liboffkv.Base.{
  ℕ, zero, suc, not, inl, inr, ◌≡◌, ◌≢◌, refl, ap, ◌∙◌, subst, Bool, true, false, Bytes, List, [],
  ◌∷◌, ◌++◌, Option, none, some, arith, All, All-left,
}
use liboffkv.Errors.{Outcome, ok, throw, no_entry}
use liboffkv.Key.{KeyPath}
use liboffkv.Key.Segments.{IsSegment, of_segments}
use liboffkv.Client.{Int64}
use liboffkv.Client.Interface.{Settles}
use liboffkv.Etcd.Service.{
  TxnRequest, KeyValue, TxnResponse, Reply, answered, refused, unavailable, invalid_argument,
  other_code, Etcd,
}
use liboffkv.Etcd.Naming.Laws.{key_of}
use liboffkv.Etcd.Session.{State}
use liboffkv.Etcd.Methods.{set, set_loop, set_attempt}
use liboffkv.Etcd.Contract.{ComparesPresence, Contract}
use liboffkv.Etcd.Contract.Store.{lookup}
use liboffkv.Etcd.Refine.Tree.{
  tree_of, ParentIn-iff, parent_name, Written-upsert, Unchanged-same, IsKey-snoc, named,
  parent_path_lem,
}
use liboffkv.Etcd.Refine.SetTxn.{set_txn, set_builder-eq}
use liboffkv.Etcd.Refine.SetTurn.{read_set, Turn, read_set-Turn}

-- One of the two transactions that `set` sends is outside the service's limits.
abbrev pub Hopeless :
    (limits : TxnRequest → Type 0) → (ps up : List Bytes) → (last value : Bytes) → Type 0
Hopeless limits ps up last value =
    (expect_lease : Bool) × limits
      (set_txn (parent_name ps up) (key_of ps (up ++ last ∷ [])) value expect_lease)

module _ (ps up : List Bytes) (last value : Bytes) (v : All IsSegment ps)
    (w : All IsSegment (up ++ last ∷ [])) where
  abbrev name : Bytes
  name = key_of ps (up ++ last ∷ [])

  Turn-Settles :
      (limits : TxnRequest → Type 0) (hopeless : Type 0) (expect_lease : Bool)
      (before after : List KeyValue) (o : Outcome (Option Int64))
      → Turn (parent_name ps up) name value expect_lease before after limits o
      → o ≢ ok none
      → Settles hopeless (tree_of ps before) (tree_of ps after) up last value o
  Turn-Settles limits hopeless expect_lease before after (ok none) h some_version =
      absurd (some_version refl)
  Turn-Settles limits hopeless expect_lease before after (ok (some n)) (par, pos, (lease, e))
        some_version =
      (
        (ParentIn-iff ps up before).0 par,
        λ zero. omega (arith, zero),
        Written-upsert ps v before (up ++ last ∷ [])
            (record { key = name; value = value; version = n; lease = lease })
            (IsKey-snoc up last w) refl e,
      )
  Turn-Settles limits hopeless expect_lease before after (throw no_entry) (orphan, same) _ =
      (λ h. orphan ((ParentIn-iff ps up before).1 h), Unchanged-same ps same)
  Turn-Settles limits hopeless expect_lease before after (throw _) h _ = h

  module _ (p : Etcd) (c : Contract p) where
    abbrev key : KeyPath
    key = of_segments (up ++ last ∷ [])

    abbrev sent : Bool → TxnRequest
    sent expect_lease = set_txn (parent_name ps up) name value expect_lease

    pub set_attempt-eq :
        (expect_lease : Bool) (t : State p) (r : Reply TxnResponse × p.World)
        → t.client.prefix ≡ of_segments ps
        → p.txn (sent expect_lease) t.world ≡ r
        → set_attempt p key value expect_lease t ≡ (read_set r.0, record t { world = r.1 })
    unfolding set_attempt
    set_attempt-eq expect_lease t (answered r, u) prefix e = rw (
      parent_path_lem p t ps prefix up last (All-left IsSegment up (last ∷ []) w) w,
      named p t ps prefix (up ++ last ∷ []) (IsKey-snoc up last w),
      set_builder-eq (parent_name ps up) name value expect_lease,
      e,
    )
    set_attempt-eq expect_lease t (refused unavailable message, u) prefix e = rw (
      parent_path_lem p t ps prefix up last (All-left IsSegment up (last ∷ []) w) w,
      named p t ps prefix (up ++ last ∷ []) (IsKey-snoc up last w),
      set_builder-eq (parent_name ps up) name value expect_lease,
      e,
    )
    set_attempt-eq expect_lease t (refused invalid_argument message, u) prefix e = rw (
      parent_path_lem p t ps prefix up last (All-left IsSegment up (last ∷ []) w) w,
      named p t ps prefix (up ++ last ∷ []) (IsKey-snoc up last w),
      set_builder-eq (parent_name ps up) name value expect_lease,
      e,
    )
    set_attempt-eq expect_lease t (refused other_code message, u) prefix e = rw (
      parent_path_lem p t ps prefix up last (All-left IsSegment up (last ∷ []) w) w,
      named p t ps prefix (up ++ last ∷ []) (IsKey-snoc up last w),
      set_builder-eq (parent_name ps up) name value expect_lease,
      e,
    )

    sent-ComparesPresence :
        (expect_lease : Bool) (parent : Option Bytes)
        → All ComparesPresence (set_txn parent name value expect_lease).compare
    sent-ComparesPresence true none = tt
    sent-ComparesPresence true (some q) = (refl, tt)
    sent-ComparesPresence false none = (tt, tt)
    sent-ComparesPresence false (some q) = (refl, (tt, tt))

    -- A turn from any state, with what it answers and what it leaves.
    abbrev TurnFrom : Bool → State p → Outcome (Option Int64) × State p → Type 0
    TurnFrom expect_lease t (o, t') =
        (t'.client ≡ t.client)
        × Turn (parent_name ps up) name value expect_lease (c.view t.world) (c.view t'.world)
            c.Excessive o

    set_attempt-Turn :
        (expect_lease : Bool) (t : State p)
        → t.client.prefix ≡ of_segments ps
        → TurnFrom expect_lease t (set_attempt p key value expect_lease t)
    set_attempt-Turn expect_lease t prefix =
        rw (set_attempt-eq expect_lease t (p.txn (sent expect_lease) t.world) prefix refl) (
          refl,
          read_set-Turn (parent_name ps up) name value expect_lease _ _ c.Excessive _ (
              c.transactions (sent expect_lease) t.world
                (sent-ComparesPresence expect_lease (parent_name ps up))),
        )

    abbrev LoopSettles : ℕ → Bool → State p → Type 0
    LoopSettles turns expect_lease t =
        let r = set_loop p turns key value expect_lease t in
        Settles (Hopeless c.Excessive ps up last value) (tree_of ps (c.view t.world))
          (tree_of ps (c.view r.1.world)) up last value r.0

    -- A turn ends the loop, or changes nothing and what follows decides.
    next_turn :
        (n : ℕ) (expect_lease : Bool) (t : State p) (r : Outcome (Option Int64) × State p)
        → set_attempt p key value (not expect_lease) t ≡ r
        → TurnFrom (not expect_lease) t r
        → ((t' : State p) → r ≡ (ok none, t') → LoopSettles n (not expect_lease) t')
        → LoopSettles (suc n) expect_lease t
    unfolding set_loop
    next_turn n expect_lease t (ok (some x), t') e (_, h) next = rw e (
        Turn-Settles c.Excessive (Hopeless c.Excessive ps up last value) (not expect_lease)
          (c.view t.world) (c.view t'.world) (ok (some x)) h (λ q. cc q))
    next_turn n expect_lease t (throw x, t') e (_, h) next = rw e (
        Turn-Settles c.Excessive (Hopeless c.Excessive ps up last value) (not expect_lease)
          (c.view t.world) (c.view t'.world) (throw x) h (λ q. cc q))
    next_turn n expect_lease t (ok none, t') e (_, (same, _)) next =
        let r = set_loop p n key value (not expect_lease) t' in
        rw e (
          subst
            (λ before.
              Settles (Hopeless c.Excessive ps up last value) (tree_of ps before)
                (tree_of ps (c.view r.1.world)) up last value r.0)
            same (next t' refl))

    -- However many turns are left.
    goes_on :
        (n : ℕ) (expect_lease : Bool) (t : State p)
        → Hopeless c.Excessive ps up last value
        → t.client.prefix ≡ of_segments ps
        → LoopSettles n expect_lease t
    goes_on zero expect_lease t hopeless prefix =
        unfold set_loop in (hopeless, Unchanged-same ps refl)
    goes_on (suc n) expect_lease t hopeless prefix =
        let h = set_attempt-Turn (not expect_lease) t prefix in
        next_turn n expect_lease t (set_attempt p key value (not expect_lease) t) refl h (λ t' e.
          goes_on n (not expect_lease) t' hopeless
            (ap (λ x. x.prefix) (subst (TurnFrom (not expect_lease) t) e h).0 ∙ prefix))

    -- A turn that expects a lease is the last one, if the key is there.
    second_turn :
        (n : ℕ) (t : State p)
        → t.client.prefix ≡ of_segments ps
        → lookup name (c.view t.world) ≢ none
        → LoopSettles (suc n) false t
    second_turn n t prefix there =
        let h = set_attempt-Turn true t prefix in
        next_turn n false t (set_attempt p key value true t) refl h (λ t' e.
          let (client, (same, why)) = subst (TurnFrom true t) e h in
          elim why [
            | inl (x, _) ↦ absurd (cc x)
            | inr (inl (_, gone)) ↦ absurd (there gone)
            | inr (inr excessive) ↦
                goes_on n true t' (true, excessive) (ap (λ x. x.prefix) client ∙ prefix)
          ])

    first_turn :
        (n : ℕ) (t : State p) → t.client.prefix ≡ of_segments ps → LoopSettles (suc (suc n)) true t
    first_turn n t prefix =
        let h = set_attempt-Turn false t prefix in
        next_turn (suc n) true t (set_attempt p key value false t) refl h (λ t' e.
          let (client, (same, why)) = subst (TurnFrom false t) e h in
          let prefix' = ap (λ x. x.prefix) client ∙ prefix in
          elim why [
            | inl (_, (kv, found)) ↦
                second_turn n t' prefix' (λ q. cc (ap (lookup name) same, found, q))
            | inr (inl (x, _)) ↦ absurd (cc x)
            | inr (inr excessive) ↦ goes_on (suc n) false t' (false, excessive) prefix'
          ])

  -- For a prefix and a key of valid segments and an etcd that keeps its contract, with no other
  -- client between its calls: with two turns or more `set` ends, and meets `Sets` on the tree of
  -- entries below the prefix: a version is returned if the parent is the root or an entry, and
  -- then the key alone is written; `NoEntry` means that the parent is missing, with nothing changed;
  -- any other exception reports the service. Only if etcd refuses one of its two transactions whatever
  -- is stored, the turns may be used up, with nothing changed.
  pub etcd_set-Settles :
      (p : Etcd) (c : Contract p) (s : State p) (n : ℕ)
      → s.client.prefix ≡ of_segments ps
      → let r = set p (suc (suc n)) (of_segments (up ++ last ∷ [])) value s in
        Settles
          (Hopeless c.Excessive ps up last value)
          (tree_of ps (c.view s.world))
          (tree_of ps (c.view r.1.world))
          up
          last
          value
          r.0
  unfolding set
  etcd_set-Settles p c s n prefix = first_turn p c n s prefix
