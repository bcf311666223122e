-- ===== src/Consul/Examples/Methods.antt =====
-- consul_client.hpp: the client over the concrete service of `Consul.Local`, with the prefix "/p" and one
-- entry "/a".
use liboffkv.Base.{
  ℕ, ◌≡◌, refl, true, false, inr, Bytes, bytes_eq, List, [], ◌∷◌, ◌++◌, Option, codes,
}
use liboffkv.Errors.{ok}
use liboffkv.Key.{
  root, parent, rfind_slash, segments, scan, join, make_path, all_valid, validate_segment,
  all_printable,
}
use liboffkv.Key.Segments.{of_segments, spell, IsKey, IsKey-cons}
use liboffkv.Key.Descendants.{is_below}
use liboffkv.Util.{starts_with}
use liboffkv.Samples.{p_segment, a_segment, b_segment, value, p-IsSegment, a-IsSegment, b-IsSegment}
use liboffkv.Client.Spec.{Lists}
use liboffkv.Client.Interface.{KeepsSpec, GotBack, IsGone}
use liboffkv.Consul.Naming
use liboffkv.Consul.Commit.{back_index}
use liboffkv.Consul.Replies.{created, erased}
use liboffkv.Consul.Session.{State}
use liboffkv.Consul.Methods.{create, parent_check, put_op, erase, get, exists, get_children}
use liboffkv.Consul.Contract.{run, apply}
use liboffkv.Consul.Contract.Store.{lookup, upsert, remove, remove_prefix}
use liboffkv.Consul.Local.{consul, contract}
use liboffkv.Consul.Refine.Tree.{tree_of}
use liboffkv.Consul.Refine.Children.{get_children-Lists}
use liboffkv.Consul.Refine.Client.{
  consul_client, consul_client-KeepsSpec, consul_create-get, consul_erase-exists,
}
use liboffkv.Consul.Examples.{start}

abbrev tree : State consul → List Bytes → Option (Bytes × ℕ)
tree s = tree_of (p_segment ∷ []) s.world.0

abbrev Ready : State consul → Type 0
Ready s = s.client.prefix ≡ of_segments (p_segment ∷ [])

a-IsKey : IsKey (a_segment ∷ [])
a-IsKey = IsKey-cons a_segment [] (a-IsSegment, tt)

ab-IsKey : IsKey (a_segment ∷ b_segment ∷ [])
ab-IsKey = IsKey-cons a_segment (b_segment ∷ []) (a-IsSegment, (b-IsSegment, tt))

consul_client-KeepsSpec_example : KeepsSpec (consul_client consul) tree Ready (λ up last value. ⊥)
consul_client-KeepsSpec_example =
    consul_client-KeepsSpec consul contract (p_segment ∷ []) (p-IsSegment, tt)

get_children-Lists_example :
    let r = get_children consul (of_segments (a_segment ∷ [])) true start in
    Lists (tree start) (tree r.1) (a_segment ∷ []) r.0
get_children-Lists_example =
    get_children-Lists consul start (p_segment ∷ []) (a_segment ∷ []) true (p-IsSegment, tt) a-IsKey
      refl contract

-- "/a/b" is created.
abbrev with_child : State consul
with_child = record start {
  world = (
    start.world.0
        ++ record { key = codes "p/a/b"; value = value; modify_index = 8; session = [] } ∷ [],
    8,
  );
}

created_lem :
    create consul (of_segments (a_segment ∷ b_segment ∷ [])) value false start ≡ (ok 8, with_child)
unfolding create parent_check put_op created back_index root parent rfind_slash segments scan join
    make_path all_valid validate_segment all_printable spell bytes_eq Naming.as_path_string
    Naming.append_segment run apply lookup upsert
created_lem = refl

consul_create-get_example :
    GotBack value 8 (get consul (of_segments (a_segment ∷ b_segment ∷ [])) true with_child).0
consul_create-get_example =
    consul_create-get consul contract (p_segment ∷ []) (p-IsSegment, tt) true start with_child refl
      (a_segment ∷ []) b_segment value 8 (a-IsSegment, (b-IsSegment, tt)) created_lem

-- "/a" is erased, with all below it.
abbrev emptied : State consul
emptied = record start { world = ([], 9) }

erased_lem : erase consul (of_segments (a_segment ∷ [])) 0 with_child ≡ (ok tt, emptied)
unfolding erase erased segments scan join make_path all_valid validate_segment all_printable spell
    bytes_eq Naming.as_path_string Naming.append_segment run apply lookup remove remove_prefix
    starts_with
erased_lem = refl

consul_erase-exists_example :
    IsGone (exists consul (of_segments (a_segment ∷ b_segment ∷ [])) true emptied).0
unfolding is_below bytes_eq
consul_erase-exists_example =
    consul_erase-exists consul contract (p_segment ∷ []) (p-IsSegment, tt) true with_child emptied
      refl (a_segment ∷ []) (a_segment ∷ b_segment ∷ []) a-IsKey ab-IsKey (inr refl) erased_lem
