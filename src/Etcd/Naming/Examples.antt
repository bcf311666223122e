-- ===== src/Etcd/Naming/Examples.antt =====
-- The theorems on etcd's keys and ranges, for the prefix "/p" and the path "/a/b".
use liboffkv.Base.{◌≡◌, Bytes, [], ◌∷◌, refl, codes, ◌++◌, arith}
use liboffkv.Errors.{ok}
use liboffkv.Key.{root, segments, scan}
use liboffkv.Key.Segments.{of_segments, spell}
use liboffkv.Key.Descendants.{is_below}
use liboffkv.Samples.{p_segment, a_segment, b_segment, p-IsSegment, a-IsSegment, b-IsSegment}
use liboffkv.Etcd.Naming.{
  append_segments, as_path_string, make_subtree_range, make_direct_children_range, unwrap_key,
}
use liboffkv.Etcd.Naming.Ranges.{in_range, is_child, subtree_range, direct_children_range}
use liboffkv.Etcd.Naming.Unwrap.{unwrap_key-as_path_string}

subtree_range_example :
    (r : Bytes × Bytes) × (k : Bytes) × (make_subtree_range
        (of_segments (p_segment ∷ []))
        (of_segments (a_segment ∷ []))
      ≡ ok r)
    × (as_path_string (of_segments (p_segment ∷ [])) (of_segments (a_segment ∷ b_segment ∷ []))
        ≡ ok k)
    × (in_range k r ≡ is_below (a_segment ∷ []) (a_segment ∷ b_segment ∷ []))
subtree_range_example =
    subtree_range (p_segment ∷ []) (a_segment ∷ []) a_segment (b_segment ∷ []) (p-IsSegment, tt)
      (a-IsSegment, tt) (a-IsSegment, (b-IsSegment, tt))

direct_children_range_example :
    (r : Bytes × Bytes) × (k : Bytes) × (make_direct_children_range
        (of_segments (p_segment ∷ []))
        (of_segments (a_segment ∷ []))
      ≡ ok r)
    × (as_path_string (of_segments (p_segment ∷ [])) (of_segments (a_segment ∷ b_segment ∷ []))
        ≡ ok k)
    × (in_range k r ≡ is_child (a_segment ∷ []) (a_segment ∷ b_segment ∷ []))
direct_children_range_example =
    direct_children_range (p_segment ∷ []) (a_segment ∷ []) a_segment (b_segment ∷ [])
      (p-IsSegment, tt) (a-IsSegment, tt) (a-IsSegment, (b-IsSegment, tt))

unwrap_key-as_path_string_example :
    unwrap_key (of_segments (p_segment ∷ [])) (codes "/p/a/" ++ 0 ∷ codes "b") ≡ ok (codes "/a/b")
unfolding as_path_string append_segments segments scan spell root
unwrap_key-as_path_string_example =
    unwrap_key-as_path_string (p_segment ∷ []) (a_segment ∷ []) b_segment
      (codes "/p/a/" ++ 0 ∷ codes "b") (a-IsSegment, (b-IsSegment, tt)) refl (omega arith)
