-- ===== src/Consul/Refine/Calls.antt =====
-- consul_client.hpp: what the methods send, with the paths named.
use liboffkv.Base.{
  ◌≡◌, ap, ◌∙◌, Bool, true, false, not, Bytes, List, [], ◌∷◌, ◌++◌, Option, none, some, All,
}
use liboffkv.Errors.{ok}
use liboffkv.Key.{root}
use liboffkv.Key.Segments.{IsSegment, of_segments}
use liboffkv.Key.Parent.{root-cons, root-nil}
use liboffkv.Consul.Service.{TxnOperation, Ppconsul}
use liboffkv.Consul.Naming.{as_path_string}
use liboffkv.Consul.Naming.Laws.{name_of, as_path_string_lem}
use liboffkv.Consul.Refine.Tree.{parent_name}
use liboffkv.Consul.Session.{State}
use liboffkv.Consul.Methods.{parent_check}

abbrev pub reads : Option Bytes → List TxnOperation
reads none = []
reads (some up) = TxnOperation.get up ∷ []

abbrev pub has : Option Bytes → Bool
has none = false
has (some up) = true

pub has-parent : (ps up : List Bytes) → not (root (of_segments up)) ≡ has (parent_name ps up)
has-parent ps [] = ap not root-nil
has-parent ps (u ∷ us) = ap not (root-cons u us)

module _ (p : Ppconsul) (s : State p) (ps : List Bytes) (v : All IsSegment ps)
    (prefix : s.client.prefix ≡ of_segments ps) where
  pub named :
      (k : List Bytes)
      → All IsSegment k
      → as_path_string s.client.prefix (of_segments k) ≡ ok (name_of (ps ++ k))
  named k w = ap (λ q. as_path_string q (of_segments k)) prefix ∙ as_path_string_lem ps k v w

  pub parent_check_lem :
      (up : List Bytes)
      → All IsSegment up
      → parent_check p (of_segments up) s ≡ (ok (reads (parent_name ps up)), s)
  unfolding parent_check
  parent_check_lem [] w = rw root-nil
  parent_check_lem (u ∷ us) w = rw (root-cons u us, named (u ∷ us) w)
