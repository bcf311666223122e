-- ===== src/Etcd/Examples/Methods.antt =====
-- etcd_client.hpp: the methods over the concrete service of `Etcd.Stored`, with the prefix "/p" and one
-- entry "/a", which has a lease.
use liboffkv.Base.{refl, inr, ℕ, ◌≡◌, Bytes, List, [], ◌∷◌, Option, none, codes}
use liboffkv.Key.Segments.{of_segments, IsKey, IsKey-cons}
use liboffkv.Samples.{p_segment, a_segment, p-IsSegment, a-IsSegment}
use liboffkv.Client.Interface.{KeepsSpec}
use liboffkv.Etcd.Naming.Laws.{key_of}
use liboffkv.Etcd.Session.{State}
use liboffkv.Errors.{ok}
use liboffkv.Etcd.Service.{Etcd, refused, invalid_argument}
use liboffkv.Etcd.Methods.{set}
use liboffkv.Etcd.Contract.{Contract}
use liboffkv.Etcd.Stored.{etcd, contract}
use liboffkv.Etcd.Refine.Tree.{tree_of}
use liboffkv.Etcd.Refine.Set.{Hopeless}
use liboffkv.Etcd.Refine.Endless.{set-endless}
use liboffkv.Etcd.Refine.Client.{etcd_client, etcd_client-KeepsSpec}

abbrev start : State etcd
start = record {
  client = record {
    prefix = of_segments (p_segment ∷ []);
    lease_issuer = record { lease_id = 0; ping_sender = none };
  };
  world =
      record {
        key = key_of (p_segment ∷ []) (a_segment ∷ []);
        value = codes "old_value";
        version = 5;
        lease = 9;
      }
      ∷ [];
}

abbrev tree : State etcd → List Bytes → Option (Bytes × ℕ)
tree s = tree_of (p_segment ∷ []) s.world

a-IsKey : IsKey (a_segment ∷ [])
a-IsKey = IsKey-cons a_segment [] (a-IsSegment, tt)

etcd_client-KeepsSpec_example :
    KeepsSpec
      (etcd_client etcd 2)
      tree
      (λ s. s.client.prefix ≡ of_segments (p_segment ∷ []))
      (λ up last value. Hopeless (λ t. ⊥) (p_segment ∷ []) up last value)
etcd_client-KeepsSpec_example =
    etcd_client-KeepsSpec etcd contract (p_segment ∷ []) 0 (p-IsSegment, tt)

-- The same service, but for a limit that no transaction keeps.
abbrev limited : Etcd
limited = record etcd { txn = λ t s. (refused invalid_argument (codes "too large"), s) }

abbrev limited_contract : Contract limited
limited_contract = record {
  view = λ s. s;
  Excessive = λ t. Unit;
  transactions = λ t s _. (inr tt, refl);
  reads = λ q s. (refl, refl);
  watches = λ q s. (tt, refl);
}

abbrev limited_start : State limited
limited_start = record { client = start.client; world = start.world }

set-endless_example :
    (set limited 7 (of_segments (a_segment ∷ [])) (codes "new_value") limited_start).0 ≡ ok none
set-endless_example =
    set-endless (p_segment ∷ []) [] a_segment (codes "new_value") (p-IsSegment, tt)
      (a-IsSegment, tt) limited limited_contract limited_start 7 refl (λ b u. tt)
