-- ===== src/Key/Parent.antt =====
-- key.hpp: `parent` and `operator /` on paths that the constructor accepts.
use liboffkv.Base.{
  if◌then◌else◌, true, false, ◌⊎◌, inl, inr, ◌≡◌, refl, sym, ap, ◌∙◌, ◌↔◌, Bytes, slash, List, [],
  ◌∷◌, ◌++◌, arith, All, All-append, All-left, All-right, append-nil, length, take-length-append,
  some, none,
}
use liboffkv.Errors.{ok, throw, invalid_key, >>=-eq-ok}
use liboffkv.Key.{KeyPath, root, make_path, make_key, rfind_slash, parent, join}
use liboffkv.Key.Segments.{
  IsSegment, NoSlash, spell, spell-append, IsSegment-NoSlash, of_segments, make_path_iff,
  make_path-of_segments,
}

rfind_slash-none : (s : Bytes) → NoSlash s → rfind_slash s ≡ none
unfolding rfind_slash
rfind_slash-none [] n = refl
rfind_slash-none (c ∷ s) n = ground (arith, rfind_slash-none s n.1, n.0)

-- The last slash is the one that has none behind it.
pub rfind_slash-append : (a s : Bytes) → NoSlash s → rfind_slash (a ++ slash ∷ s) ≡ some (length a)
unfolding rfind_slash
rfind_slash-append [] s n = rw (rfind_slash-none s n)
rfind_slash-append (c ∷ a) s n = rw (rfind_slash-append a s n)

pub spell-snoc : (ss : List Bytes) (s : Bytes) → spell (ss ++ s ∷ []) ≡ spell ss ++ slash ∷ s
unfolding spell
spell-snoc ss s = rw (spell-append ss (s ∷ []), append-nil s)

pub root-snoc : (ss : List Bytes) (s : Bytes) → root (of_segments (ss ++ s ∷ [])) ≡ false
unfolding root spell
root-snoc [] s = refl
root-snoc (t ∷ ts) s = refl

-- For a path of valid segments that is not the root, `parent` returns the path without its last
-- segment, and never throws.
pub parent-snoc :
    (ss : List Bytes) (s : Bytes)
    → All IsSegment (ss ++ s ∷ [])
    → parent (of_segments (ss ++ s ∷ [])) ≡ ok (of_segments ss)
unfolding parent
parent-snoc ss s v =
    rw
      (
        root-snoc ss s,
        spell-snoc ss s,
        rfind_slash-append (spell ss) s
            (IsSegment-NoSlash s (All-right IsSegment ss (s ∷ []) v).0.plain),
        take-length-append (spell ss) (slash ∷ s),
      )
      (make_path-of_segments ss (All-left IsSegment ss (s ∷ []) v))

-- The root is its own parent.
pub parent-root : parent (of_segments []) ≡ ok (of_segments [])
unfolding parent root spell
parent-root = refl

-- For two paths of valid segments, `/` returns the path with the segments of both, in order, and
-- never throws.
pub join-of_segments :
    (ss ts : List Bytes)
    → All IsSegment ss
    → All IsSegment ts
    → join (of_segments ss) (of_segments ts) ≡ ok (of_segments (ss ++ ts))
unfolding join
join-of_segments ss ts v w =
    rw (← spell-append ss ts) (make_path-of_segments (ss ++ ts) (All-append IsSegment ss ts v w))

-- A key is a path with at least one segment.
abbrev pub IsKey : KeyPath → Type 0
IsKey k =
    (ss : List Bytes) × (s : Bytes) × All IsSegment (ss ++ s ∷ [])
    × (k ≡ of_segments (ss ++ s ∷ []))

snoc-cases : (ss : List Bytes) → (ss ≡ []) ⊎ ((ts : List Bytes) × (t : Bytes) × (ss ≡ ts ++ t ∷ []))
snoc-cases [] = inl refl
snoc-cases (s ∷ ss) = elim (snoc-cases ss) [
  | inl e ↦ inr ([], s, ap (λ r. s ∷ r) e)
  | inr (ts, t, e) ↦ inr (s ∷ ts, t, ap (λ r. s ∷ r) e)
]

pub root-nil : root (of_segments []) ≡ true
unfolding root spell
root-nil = refl

pub root-cons : (s : Bytes) (ss : List Bytes) → root (of_segments (s ∷ ss)) ≡ false
unfolding root spell
root-cons s ss = refl

-- What the test on the root leaves.
IsKey-of_path :
    (ss : List Bytes) (k : KeyPath)
    → All IsSegment ss
    → (if root (of_segments ss) then throw (invalid_key (spell ss)) else ok (of_segments ss)) ≡ ok k
    → IsKey k × (k.path ≡ spell ss)
IsKey-of_path ss k v h = elim (snoc-cases ss) [
  | inl nil ↦ absurd (cc (h, nil, root-nil, ap (λ r. root (of_segments r)) nil))
  | inr (ts, t, cut) ↦
      let same : k ≡ of_segments (ts ++ t ∷ []) =
        ground (arith, h, cut, root-snoc ts t, ap (λ r. root (of_segments r)) cut) in
      ((ts, t, rw cut at v, same), ap (λ (q : KeyPath). q.path) same ∙ ap spell (sym cut))
]

-- The constructor of `Key` accepts exactly the valid paths other than the root, as they are.
pub make_key_iff : (s : Bytes) (k : KeyPath) → (make_key s ≡ ok k) ↔ (IsKey k × (k.path ≡ s))
unfolding make_key
make_key_iff s k = (
  λ h.
      let (p, made, checked) = >>=-eq-ok (make_path s) _ h in
      let ((ss, v, e), same) = (make_path_iff s p).0 made in
      let q : p ≡ of_segments ss = ap (λ r. record { path = r }) e in
      let (key, spelled) = IsKey-of_path ss k v (rw q at checked) in (key, spelled ∙ sym e ∙ same),
  λ ((ss, t, v, e), same).
      let text : s ≡ spell (ss ++ t ∷ []) = sym same ∙ ap (λ (q : KeyPath). q.path) e in
      rw (text, make_path-of_segments (ss ++ t ∷ []) v, root-snoc ss t) (ap ok (sym e)),
)
