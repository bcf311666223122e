-- ===== src/Etcd/Refine/Client.antt =====
-- etcd_client.hpp: `ETCDClient` as a client, over a service that keeps its contract.
use liboffkv.Base.{ℕ, suc, ◌≡◌, refl, List, Bytes, some, All}
use liboffkv.Exec.{pure, ◌>>=◌}
use liboffkv.Key.Segments.{IsSegment, of_segments}
use liboffkv.Client.Interface.{Client, KeepsSpec}
use liboffkv.Etcd.Service.{Etcd}
use liboffkv.Etcd.Session.{State, WatchHandle}
use liboffkv.Etcd.Methods.{create, exists, get_children, set, get, cas, erase}
use liboffkv.Etcd.Transactions.{commit}
use liboffkv.Etcd.Contract.{Contract}
use liboffkv.Etcd.Refine.Tree.{tree_of}
use liboffkv.Etcd.Refine.Create.{etcd_create-Creates, create-eq, sent}
use liboffkv.Etcd.Refine.Set.{Hopeless, etcd_set-Settles}
use liboffkv.Etcd.Refine.Cas.{etcd_cas-Compares}
use liboffkv.Etcd.Refine.Remove.{etcd_erase-Erases, erase-eq}
use liboffkv.Etcd.Refine.Remove
use liboffkv.Etcd.Refine.Reads.{etcd_get_exists-Gets}

-- `set` may take so many turns; `commit` does not try again.
unfoldable pub etcd_client : (p : Etcd) → (turns : ℕ) → Client (State p) WatchHandle
etcd_client p turns = record {
  create = create p;
  exists = exists p;
  get_children = get_children p;
  set = set p turns;
  get = get p;
  cas = cas p;
  erase = erase p;
  commit = λ t. (do rs ← commit p t; pure (some rs));
}

-- An etcd client with a prefix of valid segments, over an etcd that keeps its contract, keeps the
-- promises of `Client`: those of `create` without a lease, `set`, `cas`, `erase`, `get` and `exists`.
-- With no other client between its calls, `set` ends within two turns, unless etcd refuses one of its
-- two transactions whatever is stored: then it may go on as long as it has turns, with nothing
-- changed.
pub etcd_client-KeepsSpec :
    (p : Etcd) (c : Contract p) (ps : List Bytes) (n : ℕ)
    → All IsSegment ps
    → KeepsSpec
        (etcd_client p (suc (suc n)))
        (λ s. tree_of ps (c.view s.world))
        (λ s. s.client.prefix ≡ of_segments ps)
        (Hopeless c.Excessive ps)
unfolding etcd_client
etcd_client-KeepsSpec p c ps n v = record {
  creates = λ up last value s w prefix. (
    etcd_create-Creates p s ps up last value v w prefix c,
    rw
        (create-eq p s ps up last value v w prefix
          (p.txn (sent p s ps up last value v w prefix) s.world) refl)
        prefix,
  );
  sets = λ up last value s w prefix. etcd_set-Settles ps up last value v w p c s n prefix;
  compares = λ up last value version s w prefix.
      etcd_cas-Compares p s ps up last value v w prefix version c;
  erases = λ k version s key prefix. (
    etcd_erase-Erases p s ps k v key prefix version c,
    rw
        (erase-eq p s ps k v key prefix version
          (p.txn (Remove.sent p s ps k v key prefix version) s.world) refl)
        prefix,
  );
  gets = λ k watch s key prefix. (etcd_get_exists-Gets p c s ps k v key prefix watch).0;
  tells = λ k watch s key prefix. (etcd_get_exists-Gets p c s ps k v key prefix watch).1;
}
