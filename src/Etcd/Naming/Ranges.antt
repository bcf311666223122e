-- ===== src/Etcd/Naming/Ranges.antt =====
-- etcd_client.hpp: which keys lie in the ranges of a path.
use mathlib.Core.Path.{ap₂}
use liboffkv.Base.{
  bytes_eq_self, not, ◌==◌, ℕ, ◌+◌, ◌<◌, ◌≡◌, refl, sym, ap, ◌∙◌, Bool, true, false, ◌&&◌, Bytes,
  bytes_eq, slash, List, [], ◌∷◌, ◌++◌, append_assoc, arith, All, All-append, ltb, if◌then◌else◌,
}
use liboffkv.Errors.{ok}
use liboffkv.Key.Segments.{IsSegment, NoSlash, spell, All-NoSlash, IsSegment-NoSlash, of_segments}
use liboffkv.Key.Parent.{join-of_segments}
use liboffkv.Key.Descendants.{is_below, is_below-append, starts_with-spell}
use liboffkv.Util.{starts_with}
use liboffkv.Etcd.Naming.{as_path_string, make_subtree_range, make_direct_children_range}
use liboffkv.Key.Descendants.{starts_with-same, starts_with-segment}
use liboffkv.Etcd.Naming.Laws.{as_path_string_lem, mark, mark-below, mark-NoSlash, key_of}

-- Byte strings in the order of etcd.
unfoldable pub lex_lt : Bytes → Bytes → Bool
lex_lt [] [] = false
lex_lt [] (b ∷ bs) = true
lex_lt (a ∷ as_) [] = false
lex_lt (a ∷ as_) (b ∷ bs) =
    let later = lex_lt as_ bs in if ltb a b then true else if a == b then later else false

-- A key lies in a range from its begin up to, and without, its end.
abbrev pub in_range : Bytes → Bytes × Bytes → Bool
in_range k r = not (lex_lt k r.0) && lex_lt k r.1

in_range-starts_with :
    (x : Bytes) (c : ℕ) (k : Bytes)
    → in_range k (x ++ c ∷ [], x ++ (c + 1) ∷ []) ≡ starts_with (x ++ c ∷ []) k
unfolding lex_lt starts_with
in_range-starts_with [] c [] = refl
in_range-starts_with [] c (d ∷ []) = ground arith
in_range-starts_with [] c (d ∷ e ∷ k) = ground arith
in_range-starts_with (a ∷ x) c [] = refl
in_range-starts_with (a ∷ x) c (d ∷ k) = ground (arith, in_range-starts_with x c k)

-- The second path is the first one with one more segment.
unfoldable pub is_child : List Bytes → List Bytes → Bool
is_child ss [] = false
is_child [] (t ∷ []) = true
is_child [] (t ∷ u ∷ ts) = false
is_child (s ∷ ss) (t ∷ ts) = bytes_eq s t && is_child ss ts

is_child-append : (ps ss ts : List Bytes) → is_child (ps ++ ss) (ps ++ ts) ≡ is_child ss ts
unfolding is_child
is_child-append [] ss ts = refl
is_child-append (p ∷ ps) ss ts = ground (arith, bytes_eq_self p, is_child-append ps ss ts)

-- The range of the keys below a path.
abbrev pub subtree_bounds : List Bytes → List Bytes → Bytes × Bytes
subtree_bounds ps ss = (spell (ps ++ ss) ++ slash ∷ [], spell (ps ++ ss) ++ (slash + 1) ∷ [])

pub make_subtree_range_lem :
    (ps ss : List Bytes)
    → All IsSegment ps
    → All IsSegment ss
    → make_subtree_range (of_segments ps) (of_segments ss) ≡ ok (subtree_bounds ps ss)
unfolding make_subtree_range
make_subtree_range_lem ps ss v w = rw (join-of_segments ps ss v w)

pub in_subtree :
    (ps ss : List Bytes) (t : Bytes) (ts : List Bytes)
    → All IsSegment ps
    → All IsSegment ss
    → All IsSegment (t ∷ ts)
    → in_range (key_of ps (t ∷ ts)) (subtree_bounds ps ss) ≡ is_below ss (t ∷ ts)
in_subtree ps ss t ts v w u =
    in_range-starts_with (spell (ps ++ ss)) slash (key_of ps (t ∷ ts))
    ∙ starts_with-spell (ps ++ ss) (ps ++ mark (t ∷ ts))
        (All-NoSlash (ps ++ ss) (All-append IsSegment ps ss v w))
        (All-append NoSlash ps (mark (t ∷ ts)) (All-NoSlash ps v) (mark-NoSlash (t ∷ ts) u))
    ∙ is_below-append ps ss (mark (t ∷ ts))
    ∙ mark-below ss (t ∷ ts)

-- For a prefix, a path and a further path `t ∷ ts` of valid segments, `make_subtree_range_` returns
-- a range that holds the key of the further path exactly if that lies strictly below the path.
pub subtree_range :
    (ps ss : List Bytes) (t : Bytes) (ts : List Bytes)
    → All IsSegment ps
    → All IsSegment ss
    → All IsSegment (t ∷ ts)
    → (r : Bytes × Bytes) × (k : Bytes) × (make_subtree_range (of_segments ps) (of_segments ss)
        ≡ ok r)
      × (as_path_string (of_segments ps) (of_segments (t ∷ ts)) ≡ ok k)
      × (in_range k r ≡ is_below ss (t ∷ ts))
subtree_range ps ss t ts v w u = (
  subtree_bounds ps ss,
  key_of ps (t ∷ ts),
  make_subtree_range_lem ps ss v w,
  as_path_string_lem ps t ts u,
  in_subtree ps ss t ts v w u,
)

spell-marked : (ss : List Bytes) → (x : Bytes) × (spell ss ++ slash ∷ 0 ∷ [] ≡ slash ∷ x)
unfolding spell
spell-marked [] = (0 ∷ [], refl)
spell-marked (s ∷ ss) = ((s ++ spell ss) ++ slash ∷ 0 ∷ [], refl)

-- A valid segment does not begin with the mark.
first-ne-zero : (s : Bytes) → IsSegment s → (c : ℕ) × (r : Bytes) × (s ≡ c ∷ r) × (0 < c)
first-ne-zero [] v = absurd (v.nonempty refl)
first-ne-zero (c ∷ r) v = (c, r, refl, omega (arith, v.plain.0.0))

starts_with-cons_mark :
    (s : Bytes) (ss : List Bytes) (t : Bytes) (ts : List Bytes)
    → NoSlash s
    → NoSlash t
    → starts_with (spell (s ∷ ss) ++ slash ∷ 0 ∷ []) (spell (t ∷ ts))
      ≡ (bytes_eq s t && starts_with (spell ss ++ slash ∷ 0 ∷ []) (spell ts))
unfolding spell
starts_with-cons_mark s ss t ts n m =
    let (x, e) = spell-marked ss in
    rw (append_assoc s (spell ss) (slash ∷ 0 ∷ []), e)
      (starts_with-same slash (s ++ slash ∷ x) (t ++ spell ts) ∙ starts_with-segment s t x ts n m)

-- A key begins with a spelling, a slash and the mark exactly for a child.
starts_with-mark :
    (ss ts : List Bytes)
    → All IsSegment ss
    → All IsSegment ts
    → starts_with (spell ss ++ slash ∷ 0 ∷ []) (spell (mark ts)) ≡ is_child ss ts
unfolding is_child mark
starts_with-mark [] [] v w = unfold spell starts_with in refl
starts_with-mark (s ∷ ss) [] v w = unfold spell starts_with in refl
starts_with-mark [] (t ∷ []) v w = unfold spell starts_with in refl
starts_with-mark [] (t ∷ u ∷ ts) v w =
    let (c, r, e, pos) = first-ne-zero t w.0 in
    unfold spell starts_with in rw e (ground (arith, pos))
starts_with-mark (s ∷ ss) (t ∷ []) v w =
    let (c, r, e, pos) = first-ne-zero s v.0 in
    unfold spell starts_with in rw e (ground (arith, pos))
starts_with-mark (s ∷ ss) (t ∷ u ∷ ts) v w =
    starts_with-cons_mark s ss t (mark (u ∷ ts)) (IsSegment-NoSlash s v.0.plain)
      (IsSegment-NoSlash t w.0.plain)
    ∙ ap (λ b. bytes_eq s t && b) (starts_with-mark ss (u ∷ ts) v.1 w.1)

mark-append :
    (ps : List Bytes) (t : Bytes) (ts : List Bytes) → mark (ps ++ t ∷ ts) ≡ ps ++ mark (t ∷ ts)
unfolding mark
mark-append [] t ts = refl
mark-append (p ∷ []) t ts = refl
mark-append (p ∷ q ∷ ps) t ts = ap (λ r. p ∷ r) (mark-append (q ∷ ps) t ts)

-- For a prefix, a path and a further path `t ∷ ts` of valid segments, `make_direct_children_range_`
-- returns a range that holds the key of the further path exactly if that is a child of the path.
pub direct_children_range :
    (ps ss : List Bytes) (t : Bytes) (ts : List Bytes)
    → All IsSegment ps
    → All IsSegment ss
    → All IsSegment (t ∷ ts)
    → (r : Bytes × Bytes) × (k : Bytes) × (make_direct_children_range
          (of_segments ps)
          (of_segments ss)
        ≡ ok r)
      × (as_path_string (of_segments ps) (of_segments (t ∷ ts)) ≡ ok k)
      × (in_range k r ≡ is_child ss (t ∷ ts))
unfolding make_direct_children_range
direct_children_range ps ss t ts v w u = (
  (spell (ps ++ ss) ++ slash ∷ 0 ∷ [], spell (ps ++ ss) ++ slash ∷ 1 ∷ []),
  key_of ps (t ∷ ts),
  rw (join-of_segments ps ss v w),
  as_path_string_lem ps t ts u,
  ap (λ r. in_range (key_of ps (t ∷ ts)) r) (two_bytes (spell (ps ++ ss)))
      ∙ in_range-starts_with (spell (ps ++ ss) ++ slash ∷ []) 0 (key_of ps (t ∷ ts))
      ∙ ap₂ starts_with (append_assoc (spell (ps ++ ss)) (slash ∷ []) (0 ∷ []))
          (ap spell (sym (mark-append ps t ts)))
      ∙ starts_with-mark (ps ++ ss) (ps ++ t ∷ ts) (All-append IsSegment ps ss v w)
          (All-append IsSegment ps (t ∷ ts) v u)
      ∙ is_child-append ps ss (t ∷ ts),
)
  where
    two_bytes :
        (x : Bytes)
        → ◌≡◌ {A = Bytes × Bytes}
            (x ++ slash ∷ 0 ∷ [], x ++ slash ∷ 1 ∷ [])
            ((x ++ slash ∷ []) ++ 0 ∷ [], (x ++ slash ∷ []) ++ (0 + 1) ∷ [])
    two_bytes x = rw (append_assoc x (slash ∷ []) (0 ∷ []), append_assoc x (slash ∷ []) (1 ∷ []))
