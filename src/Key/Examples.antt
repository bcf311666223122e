-- ===== src/Key/Examples.antt =====
-- key.hpp on concrete paths: the tests of unit_tests.cpp, and the theorems at one input.
use liboffkv.Base.{◌≡◌, ◌↔◌, refl, codes, [], ◌∷◌, ◌++◌, bytes_eq}
use liboffkv.Errors.{ok, throw, invalid_key}
use liboffkv.Key.{
  validate_segment, all_printable, scan, segments, all_valid, make_path, root, make_key, parent,
  join,
}
use liboffkv.Key.Segments.{IsPath, of_segments, make_path_iff}
use liboffkv.Base.{◌⊎◌}
use liboffkv.Key.{KeyPath}
use liboffkv.Key.Segments.{make_path_refused}
use liboffkv.Samples.{p_segment, a_segment, b_segment, p-IsSegment, a-IsSegment, b-IsSegment}
use liboffkv.Key.Parent.{IsKey, make_key_iff, parent-snoc, join-of_segments}

key : Unit {0}
unfolding make_key make_path segments scan all_valid validate_segment all_printable root bytes_eq
key = tt

key_validation_test :
    (make_key (codes "") ≡ throw (invalid_key (codes "")))
    × (make_key (codes "/") ≡ throw (invalid_key (codes "/")))
    × (make_key (codes "mykey") ≡ throw (invalid_key (codes "mykey")))
    × (make_key (codes "/mykey/child") ≡ ok (record { path = codes "/mykey/child" }))
    × (make_key (codes "/zookeeper/child") ≡ throw (invalid_key (codes "/zookeeper/child")))
    × (make_key (codes "/one/two//three") ≡ throw (invalid_key (codes "/one/two//three")))
    × (make_key (codes "/one/two/three/") ≡ throw (invalid_key (codes "/one/two/three/")))
    × (make_key (codes "/one/../three") ≡ throw (invalid_key (codes "/one/../three")))
    × (make_key (codes "/.../.../zookeper") ≡ ok (record { path = codes "/.../.../zookeper" }))
    × (make_key (codes "/test" ++ 0xFF ∷ []) ≡ throw (invalid_key (codes "/test" ++ 0xFF ∷ [])))
unfolding key
key_validation_test = (refl, refl, refl, refl, refl, refl, refl, refl, refl, refl)

make_path_iff_example :
    (make_path (codes "/a/b") ≡ ok (record { path = codes "/a/b" }))
    ↔ (IsPath (record { path = codes "/a/b" }) × (codes "/a/b" ≡ codes "/a/b"))
make_path_iff_example = make_path_iff (codes "/a/b") (record { path = codes "/a/b" })

make_path_refused_example :
    ((p : KeyPath) × (make_path (codes "a") ≡ ok p))
    ⊎ (make_path (codes "a") ≡ throw (invalid_key (codes "a")))
make_path_refused_example = make_path_refused (codes "a")

make_key_iff_example :
    (make_key (codes "/a") ≡ ok (record { path = codes "/a" }))
    ↔ (IsKey (record { path = codes "/a" }) × (codes "/a" ≡ codes "/a"))
make_key_iff_example = make_key_iff (codes "/a") (record { path = codes "/a" })

parent-snoc_example :
    parent (of_segments (a_segment ∷ b_segment ∷ [])) ≡ ok (of_segments (a_segment ∷ []))
parent-snoc_example = parent-snoc (a_segment ∷ []) b_segment (a-IsSegment, (b-IsSegment, tt))

join-of_segments_example :
    join (of_segments (p_segment ∷ [])) (of_segments (a_segment ∷ b_segment ∷ []))
    ≡ ok (of_segments (p_segment ∷ a_segment ∷ b_segment ∷ []))
join-of_segments_example =
    join-of_segments (p_segment ∷ []) (a_segment ∷ b_segment ∷ []) (p-IsSegment, tt)
      (a-IsSegment, (b-IsSegment, tt))
