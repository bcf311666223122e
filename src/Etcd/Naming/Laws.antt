-- ===== src/Etcd/Naming/Laws.antt =====
-- etcd_client.hpp: the keys of paths.
use liboffkv.Base.{
  append-nil, ◌≡◌, refl, sym, ap, ◌∙◌, ◌&&◌, Bytes, bytes_eq, slash, List, [], ◌∷◌, ◌++◌, arith,
  All,
}
use liboffkv.Errors.{ok}
use liboffkv.Key.Segments.{
  IsSegment, NoSlash, spell, spell-append, All-NoSlash, IsSegment-NoSlash, segments-spell,
  of_segments,
}
use liboffkv.Key.Parent.{root-cons}
use liboffkv.Key.Descendants.{is_below}
use liboffkv.Etcd.Naming.{append_segments, as_path_string}

-- The segments under which a path is stored: the last one is marked.
unfoldable pub mark : List Bytes → List Bytes
mark [] = []
mark (s ∷ []) = (0 ∷ s) ∷ []
mark (s ∷ t ∷ ss) = s ∷ mark (t ∷ ss)

append_segments-mark : (ss : List Bytes) → append_segments ss ≡ spell (mark ss)
unfolding append_segments mark spell
append_segments-mark [] = refl
append_segments-mark (s ∷ []) = ap (λ r. slash ∷ 0 ∷ r) (sym (append-nil s))
append_segments-mark (s ∷ t ∷ ss) = ap (λ r. slash ∷ (s ++ r)) (append_segments-mark (t ∷ ss))

-- The key of a path below the prefix `ps`.
abbrev pub key_of : List Bytes → List Bytes → Bytes
key_of ps ss = spell (ps ++ mark ss)

pub as_path_string_lem :
    (ps : List Bytes) (s : Bytes) (ss : List Bytes)
    → All IsSegment (s ∷ ss)
    → as_path_string (of_segments ps) (of_segments (s ∷ ss)) ≡ ok (key_of ps (s ∷ ss))
unfolding as_path_string
as_path_string_lem ps s ss v =
    rw (root-cons s ss, segments-spell (s ∷ ss) (All-NoSlash (s ∷ ss) v))
      (ap ok (
        ap (λ r. spell ps ++ r) (append_segments-mark (s ∷ ss))
        ∙ sym (spell-append ps (mark (s ∷ ss)))))

pub mark-below : (ss ts : List Bytes) → is_below ss (mark ts) ≡ is_below ss ts
unfolding is_below mark
mark-below [] [] = refl
mark-below [] (t ∷ []) = refl
mark-below [] (t ∷ u ∷ ts) = refl
mark-below (s ∷ ss) [] = refl
mark-below (s ∷ []) (t ∷ []) = ground arith
mark-below (s ∷ r ∷ ss) (t ∷ []) = ground arith
mark-below (s ∷ ss) (t ∷ u ∷ ts) = ap (λ b. bytes_eq s t && b) (mark-below ss (u ∷ ts))

pub mark-NoSlash : (ss : List Bytes) → All IsSegment ss → All NoSlash (mark ss)
unfolding mark
mark-NoSlash [] v = tt
mark-NoSlash (s ∷ []) v = ((omega arith, IsSegment-NoSlash s v.0.plain), tt)
mark-NoSlash (s ∷ t ∷ ss) v = (IsSegment-NoSlash s v.0.plain, mark-NoSlash (t ∷ ss) v.1)
