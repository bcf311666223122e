-- ===== src/Etcd/Refine/Reads.antt =====
-- etcd_client.hpp: `get` and `exists`, over a service that keeps its contract.
use liboffkv.Base.{
  ℕ, ◌+◌, ◌≡◌, refl, ap, ◌∙◌, inl, inr, Bool, true, false, Option-cases, Bytes, List, [], ◌∷◌,
  Option, none, some, All, map,
}
use liboffkv.Errors.{no_entry, Outcome, ok, throw}
use liboffkv.Key.Segments.{IsSegment, of_segments}
use liboffkv.Client.Spec.{Gets, Exists}
use liboffkv.Etcd.Service.{
  RangeRequest, RangeResponse, KeyValue, Reply, answered, refused, WatchCreateRequest, Etcd,
  unavailable, invalid_argument, other_code,
}
use liboffkv.Etcd.Naming.Laws.{key_of}
use liboffkv.Etcd.Session.{State, watch_if, refusal}
use liboffkv.Etcd.Methods.{get, exists, read}
use liboffkv.Etcd.Contract
use liboffkv.Etcd.Contract.{Contract, Shows, IsSetUp, one, strip}
use liboffkv.Etcd.Contract.Store.{lookup}
use liboffkv.Etcd.Refine.Runs.{refusal-IsServiceFailure}
use liboffkv.Etcd.Refine.Tree.{tree_of, IsKey, shown, Unchanged-same, named}

abbrev request : Bytes → Bool → RangeRequest
request key keys_only = record { key = key; range_end = []; limit = 1; keys_only = keys_only }

shown_kvs :
    (n : ℕ) (key : Bytes) (keys_only : Bool) (s : List KeyValue) (r : RangeResponse)
    → r ≡ Contract.read n (request key keys_only) s
    → r.kvs ≡ map (strip keys_only) (one (lookup key s))
shown_kvs n key keys_only s r e = elim (Option-cases (lookup key s)) [
  | inl f ↦ ap (λ x. x.kvs) e ∙ rw f refl
  | inr (kv, f) ↦ ap (λ x. x.kvs) e ∙ rw f refl
]

module _ (p : Etcd) (c : Contract p) (s : State p) (ps k : List Bytes) (v : All IsSegment ps)
    (key : IsKey k) (prefix : s.client.prefix ≡ of_segments ps) where
  abbrev tree : State p → (List Bytes → Option (Bytes × ℕ))
  tree t = tree_of ps (c.view t.world)

  abbrev name : Bytes
  name = key_of ps k

  abbrev GetMeets : Bool → Type 0
  GetMeets watch = let r = get p (of_segments k) watch s in Gets (tree s) (tree r.1) k r.0

  abbrev ExistsMeets : Bool → Type 0
  ExistsMeets watch = let r = exists p (of_segments k) watch s in Exists (tree s) (tree r.1) k r.0

  abbrev watch_of : RangeResponse → WatchCreateRequest
  watch_of r = record { key = name; range_end = []; start_revision = r.revision + 1 }

  get_watched :
      (r : RangeResponse) (u : p.World) (kv : KeyValue) (w : Outcome (Unit {0}) × p.World)
      → p.range (request name false) s.world ≡ (answered r, u)
      → r.kvs ≡ kv ∷ []
      → lookup name (c.view s.world) ≡ some kv
      → p.create_watch (watch_of r) u ≡ w
      → IsSetUp w.0 × (c.view w.1 ≡ c.view s.world)
      → GetMeets true
  unfolding get read watch_if
  get_watched r u kv (ok _, w) e kvs there set_up (_, same) =
      rw (named p s ps prefix k key, e, kvs, set_up) (ap shown there, Unchanged-same ps same)
  get_watched r u kv (throw no_entry, w) e kvs there set_up (failure, _) = absurd failure
  get_watched r u kv (throw _, w) e kvs there set_up (failure, _) =
      rw (named p s ps prefix k key, e, kvs, set_up) failure

  get_found :
      (watch : Bool) (r : RangeResponse) (u : p.World) (kv : KeyValue)
      → p.range (request name false) s.world ≡ (answered r, u)
      → c.view u ≡ c.view s.world
      → r.kvs ≡ kv ∷ []
      → lookup name (c.view s.world) ≡ some kv
      → GetMeets watch
  get_found false r u kv e same kvs there =
      unfold get read watch_if in
      rw (named p s ps prefix k key, e, kvs) (ap shown there, Unchanged-same ps same)
  get_found true r u kv e same kvs there =
      let (set_up, left) = c.watches (watch_of r) u in
      get_watched r u kv (p.create_watch (watch_of r) u) e kvs there refl (set_up, left ∙ same)

  get_answered :
      (watch : Bool) (reply : Reply RangeResponse × p.World)
      → p.range (request name false) s.world ≡ reply
      → Shows (request name false) (c.view s.world) reply.0 (c.view reply.1)
      → GetMeets watch
  unfolding get read refusal
  get_answered watch (refused unavailable message, u) e h = rw (named p s ps prefix k key, e) tt
  get_answered watch (refused invalid_argument message, u) e h =
      rw (named p s ps prefix k key, e) tt
  get_answered watch (refused other_code message, u) e h = rw (named p s ps prefix k key, e) tt
  get_answered watch (answered r, u) e (shows, same) =
      let kvs = shown_kvs r.revision name false (c.view s.world) r shows in
      elim (Option-cases (lookup name (c.view s.world))) [
        | inl absent ↦
            let nil : r.kvs ≡ [] = kvs ∙ rw absent refl in
            rw (named p s ps prefix k key, e, nil) (ap shown absent, Unchanged-same ps same)
        | inr (kv, there) ↦
            let one_kv : r.kvs ≡ kv ∷ [] = kvs ∙ rw there refl in
            get_found watch r u kv e same one_kv there
      ]

  exists_watched :
      (r : RangeResponse) (u : p.World) (o : Option KeyValue) (w : Outcome (Unit {0}) × p.World)
      → p.range (request name true) s.world ≡ (answered r, u)
      → r.kvs ≡ map (strip true) (one o)
      → lookup name (c.view s.world) ≡ o
      → p.create_watch (watch_of r) u ≡ w
      → IsSetUp w.0 × (c.view w.1 ≡ c.view s.world)
      → ExistsMeets true
  unfolding exists read watch_if
  exists_watched r u none (ok _, w) e kvs there set_up (_, same) =
      rw (named p s ps prefix k key, e, kvs, set_up) (rw there refl, Unchanged-same ps same)
  exists_watched r u (some kv) (ok _, w) e kvs there set_up (_, same) =
      rw (named p s ps prefix k key, e, kvs, set_up) (rw there refl, Unchanged-same ps same)
  exists_watched r u o (throw x, w) e kvs there set_up (failure, _) =
      rw (named p s ps prefix k key, e, kvs, set_up) failure

  exists_found :
      (watch : Bool) (r : RangeResponse) (u : p.World) (o : Option KeyValue)
      → p.range (request name true) s.world ≡ (answered r, u)
      → c.view u ≡ c.view s.world
      → r.kvs ≡ map (strip true) (one o)
      → lookup name (c.view s.world) ≡ o
      → ExistsMeets watch
  exists_found true r u o e same kvs there =
      let (set_up, left) = c.watches (watch_of r) u in
      exists_watched r u o (p.create_watch (watch_of r) u) e kvs there refl (set_up, left ∙ same)
  exists_found false r u none e same kvs there =
      unfold exists read watch_if in
      rw (named p s ps prefix k key, e, kvs) (rw there refl, Unchanged-same ps same)
  exists_found false r u (some kv) e same kvs there =
      unfold exists read watch_if in
      rw (named p s ps prefix k key, e, kvs) (rw there refl, Unchanged-same ps same)

  exists_answered :
      (watch : Bool) (reply : Reply RangeResponse × p.World)
      → p.range (request name true) s.world ≡ reply
      → Shows (request name true) (c.view s.world) reply.0 (c.view reply.1)
      → ExistsMeets watch
  unfolding exists read
  exists_answered watch (refused code message, u) e h =
      rw (named p s ps prefix k key, e) (refusal-IsServiceFailure code message)
  exists_answered watch (answered r, u) e (shows, same) =
      exists_found watch r u (lookup name (c.view s.world)) e same
        (shown_kvs r.revision name true (c.view s.world) r shows) refl

  -- For a prefix and a key of valid segments and an etcd that keeps its contract: `get` returns the
  -- value and the version of the key's entry, and throws `NoEntry` only if there is none; `exists`
  -- returns that version, or 0 if there is none; neither changes an entry, and any other exception
  -- reports the service.
  pub etcd_get_exists-Gets :
      (watch : Bool)
      → let r = get p (of_segments k) watch s in
        let x = exists p (of_segments k) watch s in
        Gets (tree s) (tree r.1) k r.0 × Exists (tree s) (tree x.1) k x.0
  etcd_get_exists-Gets watch = (
    get_answered watch (p.range (request name false) s.world) refl
        (c.reads (request name false) s.world),
    exists_answered watch (p.range (request name true) s.world) refl
        (c.reads (request name true) s.world),
  )
