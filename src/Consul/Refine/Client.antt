-- ===== src/Consul/Refine/Client.antt =====
-- consul_client.hpp: `ConsulClient` as a client, over a service that keeps its contract.
use liboffkv.Base.{false, Bool, true, ◌⊎◌, ◌≡◌, refl, Bytes, List, ◌∷◌, [], ◌++◌, some, All}
use liboffkv.Errors.{Outcome, ok, throw}
use liboffkv.Exec.{Exec, pure, ◌>>=◌}
use liboffkv.Key.Segments.{IsSegment, IsKey, of_segments}
use liboffkv.Client.Spec.{Tree, Sets}
use liboffkv.Key.Descendants.{is_below}
use liboffkv.Client.Interface.{
  Client, KeepsSpec, Settles, GotBack, IsGone, create-get, erase-exists,
}
use liboffkv.Client.{Int64}
use liboffkv.Consul.Service.{Ppconsul}
use liboffkv.Consul.Replies.{WatchHandle}
use liboffkv.Consul.Session.{State}
use liboffkv.Consul.Methods.{create, exists, get_children, set, get, cas, erase}
use liboffkv.Consul.Transactions.{commit}
use liboffkv.Consul.Contract.{Contract}
use liboffkv.Consul.Refine.Tree.{tree_of}
use liboffkv.Consul.Refine.Create.{create-Creates, create-eq}
use liboffkv.Consul.Refine.Set.{set-Sets}
use liboffkv.Consul.Refine.Cas.{cas-Compares}
use liboffkv.Consul.Refine.Erase.{erase-Erases, erase-eq}
use liboffkv.Consul.Refine.Reads.{get_exists-Gets}

-- `set` and `commit` do not try again, so that they always end.
unfoldable pub consul_client : (p : Ppconsul) → Client (State p) WatchHandle
consul_client p = record {
  create = create p;
  exists = exists p;
  get_children = get_children p;
  set = λ key value. (do v ← set p key value; pure (some v));
  get = get p;
  cas = cas p;
  erase = erase p;
  commit = λ t. (do rs ← commit p t; pure (some rs));
}

Sets-Settles :
    {S : Type 0} (tree : S → Tree) (up : List Bytes) (last value : Bytes) (m : Exec S Int64) (s : S)
    (r : Outcome Int64 × S)
    → m s ≡ r
    → Sets (tree s) (tree r.1) up last value r.0
    → let q = (do v ← m; pure (some v)) in Settles ⊥ (tree s) (tree (q s).1) up last value (q s).0
Sets-Settles tree up last value m s (ok n, t) e h = rw e h
Sets-Settles tree up last value m s (throw x, t) e h = rw e h

-- A Consul client with a prefix of valid segments keeps the promises of `Client`.
pub consul_client-KeepsSpec :
    (p : Ppconsul) (c : Contract p) (ps : List Bytes)
    → All IsSegment ps
    → KeepsSpec
        (consul_client p)
        (λ s. tree_of ps (c.view s.world))
        (λ s. s.client.prefix ≡ of_segments ps)
        (λ up last value. ⊥)
unfolding consul_client
consul_client-KeepsSpec p c ps v = record {
  creates = λ up last value s w prefix. (
    create-Creates p s ps up last value v w prefix c,
    rw (create-eq p s ps up last value v w prefix) prefix,
  );
  sets = λ up last value s w prefix.
      Sets-Settles (λ t. tree_of ps (c.view t.world)) up last value
        (set p (of_segments (up ++ last ∷ [])) value) s _ refl
        (set-Sets p s ps up last value v w prefix c);
  compares =
      λ up last value version s w prefix. cas-Compares p s ps up last value v w prefix version c;
  erases = λ k version s key prefix. (
    erase-Erases p s ps k v key prefix version c,
    rw (erase-eq p s ps k v key prefix version) prefix,
  );
  gets = λ k watch s key prefix. (get_exists-Gets p s ps k watch v key prefix c).0;
  tells = λ k watch s key prefix. (get_exists-Gets p s ps k watch v key prefix c).1;
}

module _ (p : Ppconsul) (c : Contract p) (ps : List Bytes) (v : All IsSegment ps) (watch : Bool)
    (s s' : State p) (prefix : s.client.prefix ≡ of_segments ps) where
  -- For a prefix and a key of valid segments and a Consul that keeps its contract: if `create` without
  -- a lease returns, then a `get` that follows at once returns the value that was given and the
  -- version that `create` has returned, or throws an exception that reports the service.
  pub consul_create-get :
      (up : List Bytes) (last value : Bytes) (n : Int64)
      → All IsSegment (up ++ last ∷ [])
      → create p (of_segments (up ++ last ∷ [])) value false s ≡ (ok n, s')
      → GotBack value n (get p (of_segments (up ++ last ∷ [])) watch s').0
  unfolding consul_client
  consul_create-get =
      create-get (consul_client p) (λ t. tree_of ps (c.view t.world))
        (λ t. t.client.prefix ≡ of_segments ps) (λ up last value. ⊥)
        (consul_client-KeepsSpec p c ps v) watch s s' prefix

  -- For a prefix and keys of valid segments and a Consul that keeps its contract: if `erase` without a
  -- version returns for a key, then an `exists` that follows at once, for this key or a key below it,
  -- returns 0 or throws an exception that reports the service.
  pub consul_erase-exists :
      (k j : List Bytes)
      → IsKey k
      → IsKey j
      → (j ≡ k) ⊎ (is_below k j ≡ true)
      → erase p (of_segments k) 0 s ≡ (ok tt, s')
      → IsGone (exists p (of_segments j) watch s').0
  unfolding consul_client
  consul_erase-exists =
      erase-exists (consul_client p) (λ t. tree_of ps (c.view t.world))
        (λ t. t.client.prefix ≡ of_segments ps) (λ up last value. ⊥)
        (consul_client-KeepsSpec p c ps v) watch s s' prefix
