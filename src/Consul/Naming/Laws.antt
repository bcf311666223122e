-- ===== src/Consul/Naming/Laws.antt =====
-- consul_client.hpp: the names of paths in Consul.
use mathlib.Core.Path.{ap₂}
use liboffkv.Base.{
  ◌≢◌, ℕ, ◌≡◌, refl, sym, ap, ◌∙◌, Bytes, slash, List, [], ◌∷◌, ◌++◌, All, All-append, append_assoc,
  append-nil,
}
use mathlib.Core.List.{foldl}
use liboffkv.Errors.{ok}
use liboffkv.Key.Segments.{IsSegment, spell, All-NoSlash, segments-spell, of_segments}
use liboffkv.Key.Parent.{join-of_segments}
use liboffkv.Key.Descendants.{
  is_below, starts_with-spell, starts_with-same, spell-injective, is_below-append,
}
use liboffkv.Util.{starts_with}
use liboffkv.Consul.Naming.{append_segment, as_path_string}

-- The name of a path: its segments, with slashes between them.
unfoldable pub name_of : List Bytes → Bytes
name_of [] = []
name_of (s ∷ ss) = s ++ spell ss

foldl-append_segment :
    (c : ℕ) (r : Bytes) (ss : List Bytes) → foldl append_segment (c ∷ r) ss ≡ (c ∷ r) ++ spell ss
unfolding append_segment spell
foldl-append_segment c r [] = ap (λ t. c ∷ t) (sym (append-nil r))
foldl-append_segment c r (s ∷ ss) =
    foldl-append_segment c ((r ++ slash ∷ []) ++ s) ss ∙ ap (λ t. c ∷ t) (simp append_assoc)

name_of-foldl : (ss : List Bytes) → All IsSegment ss → foldl append_segment [] ss ≡ name_of ss
unfolding append_segment name_of
name_of-foldl [] v = refl
name_of-foldl ([] ∷ ss) v = absurd (v.0.nonempty refl)
name_of-foldl ((c ∷ s) ∷ ss) v = foldl-append_segment c s ss

-- `as_path_string_` names a path below the client's prefix, and never throws.
pub as_path_string_lem :
    (ps ss : List Bytes)
    → All IsSegment ps
    → All IsSegment ss
    → as_path_string (of_segments ps) (of_segments ss) ≡ ok (name_of (ps ++ ss))
unfolding as_path_string
as_path_string_lem ps ss v w =
    let both = All-append IsSegment ps ss v w in
    rw (join-of_segments ps ss v w, segments-spell (ps ++ ss) (All-NoSlash (ps ++ ss) both))
      (ap ok (name_of-foldl (ps ++ ss) both))

pub spell-name_of : (ss : List Bytes) → ss ≢ [] → spell ss ≡ slash ∷ name_of ss
unfolding name_of spell
spell-name_of [] n = absurd (n refl)
spell-name_of (s ∷ ss) n = refl

pub name_of-injective :
    (ss ts : List Bytes)
    → ss ≢ []
    → ts ≢ []
    → All IsSegment ss
    → All IsSegment ts
    → name_of ss ≡ name_of ts
    → ss ≡ ts
name_of-injective ss ts n m v w e =
    spell-injective ss ts (All-NoSlash ss v) (All-NoSlash ts w)
      (spell-name_of ss n ∙ ap (λ r. slash ∷ r) e ∙ sym (spell-name_of ts m))

-- A name begins with another one and a slash exactly for a descendant.
pub starts_with-name_of :
    (ss ts : List Bytes)
    → ss ≢ []
    → ts ≢ []
    → All IsSegment ss
    → All IsSegment ts
    → starts_with (name_of ss ++ slash ∷ []) (name_of ts) ≡ is_below ss ts
starts_with-name_of ss ts n m v w =
    sym (starts_with-same slash (name_of ss ++ slash ∷ []) (name_of ts))
    ∙ sym (ap₂ starts_with (ap (λ r. r ++ slash ∷ []) (spell-name_of ss n)) (spell-name_of ts m))
    ∙ starts_with-spell ss ts (All-NoSlash ss v) (All-NoSlash ts w)

append-nonempty : (xs : List Bytes) (y : Bytes) (ys : List Bytes) → xs ++ y ∷ ys ≢ []
append-nonempty [] y ys h = cc
append-nonempty (x ∷ xs) y ys h = cc

-- For a prefix, a key `s ∷ ss` and a further key `t ∷ ts` of valid segments: the stored name of the
-- further key begins with that of the key and a slash exactly if it lies strictly below the key.
pub starts_with-as_path_string :
    (ps ss ts : List Bytes) (s t : Bytes)
    → All IsSegment ps
    → All IsSegment (s ∷ ss)
    → All IsSegment (t ∷ ts)
    → (n m : Bytes) × (as_path_string (of_segments ps) (of_segments (s ∷ ss)) ≡ ok n)
      × (as_path_string (of_segments ps) (of_segments (t ∷ ts)) ≡ ok m)
      × (starts_with (n ++ slash ∷ []) m ≡ is_below (s ∷ ss) (t ∷ ts))
starts_with-as_path_string ps ss ts s t v w u = (
  name_of (ps ++ s ∷ ss),
  name_of (ps ++ t ∷ ts),
  as_path_string_lem ps (s ∷ ss) v w,
  as_path_string_lem ps (t ∷ ts) v u,
  starts_with-name_of (ps ++ s ∷ ss) (ps ++ t ∷ ts) (append-nonempty ps s ss)
        (append-nonempty ps t ts) (All-append IsSegment ps (s ∷ ss) v w)
        (All-append IsSegment ps (t ∷ ts) v u)
      ∙ is_below-append ps (s ∷ ss) (t ∷ ts),
)
