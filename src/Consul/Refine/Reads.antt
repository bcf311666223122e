-- ===== src/Consul/Refine/Reads.antt =====
-- consul_client.hpp: `get` and `exists`, over a service that keeps its contract.
use liboffkv.Base.{
  ℕ, ◌≡◌, refl, ap, ◌∙◌, inl, inr, Bool, false, Bytes, List, ◌++◌, Option, Option-cases, All,
}
use liboffkv.Errors.{Outcome, ok, throw}
use liboffkv.Key.Segments.{IsSegment, of_segments}
use liboffkv.Client.{ExistsResult, GetResult}
use liboffkv.Client.Spec.{Gets, Exists}
use liboffkv.Consul.Service.{
  KeyValue, Item, Reply, done, fail, bad_status, other_error, aborted, Ppconsul,
}
use liboffkv.Consul.Naming.Laws.{name_of}
use liboffkv.Consul.Replies.{WatchHandle, rethrow, got, present_index, watch_if}
use liboffkv.Consul.Session.{State}
use liboffkv.Consul.Methods.{get, exists}
use liboffkv.Consul.Contract.{Contract, Shows}
use liboffkv.Consul.Contract.Store.{lookup}
use liboffkv.Consul.Refine.Tree.{tree_of, IsKey, shown, Unchanged-same}
use liboffkv.Consul.Refine.Calls.{named}

-- What the methods make of the reply to their one call.
abbrev read_get : Bool → Bytes → Reply Item → Outcome (GetResult WatchHandle)
read_get watch name (done item) = got watch name item.index item.found
read_get watch name (fail f) = throw (rethrow f)

abbrev read_exists : Bool → Bytes → Reply Item → Outcome (ExistsResult WatchHandle)
read_exists watch name (done item) = ok (record {
  version = present_index item;
  watch = watch_if watch name (present_index item) false;
})
read_exists watch name (fail f) = throw (rethrow f)

module _ (ps k : List Bytes) (watch : Bool) (before after : List KeyValue) where
  abbrev name : Bytes
  name = name_of (ps ++ k)

  read_get-Gets :
      (reply : Reply Item)
      → Shows name before reply after
      → Gets (tree_of ps before) (tree_of ps after) k (read_get watch name reply)
  unfolding got rethrow
  read_get-Gets (fail (aborted what first more)) _ = tt
  read_get-Gets (fail (bad_status what)) _ = tt
  read_get-Gets (fail (other_error what)) _ = tt
  read_get-Gets (done item) (same, found, index) = elim (Option-cases (lookup name before)) [
    | inl absent ↦ rw (found ∙ absent) (ap shown absent, Unchanged-same ps same)
    | inr (kv, e) ↦ rw (found ∙ e) (rw (e, index kv e) refl, Unchanged-same ps same)
  ]

  read_exists-Exists :
      (reply : Reply Item)
      → Shows name before reply after
      → Exists (tree_of ps before) (tree_of ps after) k (read_exists watch name reply)
  unfolding present_index rethrow
  read_exists-Exists (fail (aborted what first more)) _ = tt
  read_exists-Exists (fail (bad_status what)) _ = tt
  read_exists-Exists (fail (other_error what)) _ = tt
  read_exists-Exists (done item) (same, found, index) = elim (Option-cases (lookup name before)) [
    | inl absent ↦ (rw (found ∙ absent, absent) refl, Unchanged-same ps same)
    | inr (kv, e) ↦ (rw (found ∙ e, e, index kv e) refl, Unchanged-same ps same)
  ]

module _ (p : Ppconsul) (s : State p) (ps k : List Bytes) (watch : Bool) (v : All IsSegment ps)
    (key : IsKey k) (prefix : s.client.prefix ≡ of_segments ps) where
  abbrev reply : Reply Item × p.World
  reply = p.item (name_of (ps ++ k)) s.world

  get-eq :
      (r : Reply Item × p.World)
      → reply ≡ r
      → get p (of_segments k) watch s
        ≡ (read_get watch (name_of (ps ++ k)) r.0, record s { world = r.1 })
  unfolding get
  get-eq (done item, w) e = rw (named p s ps v prefix k key.valid, e)
  get-eq (fail f, w) e = rw (named p s ps v prefix k key.valid, e)

  exists-eq :
      (r : Reply Item × p.World)
      → reply ≡ r
      → exists p (of_segments k) watch s
        ≡ (read_exists watch (name_of (ps ++ k)) r.0, record s { world = r.1 })
  unfolding exists
  exists-eq (done item, w) e = rw (named p s ps v prefix k key.valid, e)
  exists-eq (fail f, w) e = rw (named p s ps v prefix k key.valid, e)

  -- For a prefix and a key of valid segments and a Consul that keeps its contract: `get` returns the
  -- value and the version of the key's entry, and throws `NoEntry` only if there is none; `exists`
  -- returns that version, or 0 if there is none; neither changes an entry, and any other exception
  -- reports the service.
  pub get_exists-Gets :
      (c : Contract p)
      → let r = get p (of_segments k) watch s in
        let x = exists p (of_segments k) watch s in
        let tree : State p → (List Bytes → Option (Bytes × ℕ)) = λ t. tree_of ps (c.view t.world) in
        Gets (tree s) (tree r.1) k r.0 × Exists (tree s) (tree x.1) k x.0
  get_exists-Gets c = (
    rw (get-eq reply refl) (read_get-Gets ps k watch _ _ _ (c.items (name_of (ps ++ k)) s.world)),
    rw (exists-eq reply refl)
        (read_exists-Exists ps k watch _ _ _ (c.items (name_of (ps ++ k)) s.world)),
  )
