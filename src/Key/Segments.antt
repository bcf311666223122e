-- ===== src/Key/Segments.antt =====
-- key.hpp: paths and their segments.
use liboffkv.Base.{
  Bool-cases, ◌⊎◌, inl, inr, is_slash, ==_iff, ℕ, true, ◌≡◌, refl, sym, ap, ◌∙◌, ◌≢◌, ◌↔◌, Bytes,
  slash, is_slash, List, [], ◌∷◌, ◌++◌, arith, All, All-append, append_assoc, append-nil, codes,
  bytes_eq_iff, ◌<◌,
}
use liboffkv.Errors.{>>=-eq-ok, throw, invalid_key, ok, throw, invalid_key}
use liboffkv.Key.{
  KeyPath, all_valid, make_path, KeyPath, is_empty, all_printable, validate_segment, scan, segments,
  all_valid, make_path,
}

-- A byte that a segment may hold, apart from the slash, which ends one.
abbrev pub IsPlain : ℕ → Type 0
IsPlain c = (0x1F < c) × (c < 0x7F) × (c ≢ slash)

-- The segments that the library accepts.
pub record IsSegment (s : Bytes) : Type 0 where
  pub plain : All IsPlain s
  pub nonempty : s ≢ []
  pub not_dot : s ≢ codes "."
  pub not_dots : s ≢ codes ".."
  pub not_zookeeper : s ≢ codes "zookeeper"

abbrev pub NoSlash : Bytes → Type 0
NoSlash s = All (λ c. c ≢ slash) s

-- The string that consists of these segments.
unfoldable pub spell : List Bytes → Bytes
spell [] = []
spell (s ∷ ss) = slash ∷ (s ++ spell ss)

pub spell-append : (ss ts : List Bytes) → spell (ss ++ ts) ≡ spell ss ++ spell ts
unfolding spell
spell-append [] ts = refl
spell-append (s ∷ ss) ts = ap (λ r. slash ∷ r) (simp (spell-append ss ts, append_assoc))

pub IsSegment-NoSlash : (s : Bytes) → All IsPlain s → NoSlash s
IsSegment-NoSlash [] p = tt
IsSegment-NoSlash (c ∷ s) p = (p.0.2, IsSegment-NoSlash s p.1)

all_printable_iff : (s : Bytes) → NoSlash s → (all_printable s ≡ true) ↔ All IsPlain s
unfolding all_printable
all_printable_iff [] n = (λ _. tt, λ _. refl)
all_printable_iff (c ∷ s) n = ground (arith, all_printable_iff s n.1, n.0)

is_empty_iff : (s : Bytes) → (is_empty s ≡ true) ↔ (s ≡ [])
is_empty_iff [] = ground arith
is_empty_iff (c ∷ s) = ground arith

-- The validation of one segment, read as a predicate.
pub validate_segment_iff : (s : Bytes) → NoSlash s → (validate_segment s ≡ true) ↔ IsSegment s
unfolding validate_segment
validate_segment_iff s n = (
  λ h. record {
    plain = ground (arith, all_printable_iff s n);
    nonempty = ground (arith, is_empty_iff s);
    not_dot = ground (arith, bytes_eq_iff s (codes "."));
    not_dots = ground (arith, bytes_eq_iff s (codes ".."));
    not_zookeeper = ground (arith, bytes_eq_iff s (codes "zookeeper"));
  },
  λ h. ground (
    arith,
    all_printable_iff s n,
    is_empty_iff s,
    bytes_eq_iff s (codes "."),
    bytes_eq_iff s (codes ".."),
    bytes_eq_iff s (codes "zookeeper"),
  ),
)

-- The loop cuts at every slash: what it returns spells the text that it was given.
scan-spell : (cur rest : Bytes) → spell (scan cur rest) ≡ slash ∷ (cur ++ rest)
unfolding scan spell
scan-spell cur [] = refl
scan-spell cur (c ∷ rest) =
    ground
      (arith, scan-spell [] rest, scan-spell (cur ++ c ∷ []) rest, append_assoc cur (c ∷ []) rest)

scan-NoSlash : (cur rest : Bytes) → NoSlash cur → All NoSlash (scan cur rest)
unfolding scan
scan-NoSlash cur [] n = (n, tt)
scan-NoSlash cur (c ∷ rest) n = ground (
  arith,
  scan-NoSlash [] rest tt,
  scan-NoSlash (cur ++ c ∷ []) rest,
  All-append (λ b. b ≢ slash) cur (c ∷ []) n,
)

-- A slash-free stretch goes to the segment at hand.
scan-append : (cur s rest : Bytes) → NoSlash s → scan cur (s ++ rest) ≡ scan (cur ++ s) rest
unfolding scan
scan-append cur [] rest n = ap (λ c. scan c rest) (sym (append-nil cur))
scan-append cur (c ∷ s) rest n =
    ground (arith, scan-append (cur ++ c ∷ []) s rest n.1, append_assoc cur (c ∷ []) s, n.0)

-- So the loop finds the segments again.
scan_of_spell :
    (s : Bytes) (ss : List Bytes) → NoSlash s → All NoSlash ss → scan [] (s ++ spell ss) ≡ s ∷ ss
unfolding scan spell
scan_of_spell s [] n ns = scan-append [] s [] n
scan_of_spell s (t ∷ ts) n ns =
    scan-append [] s (spell (t ∷ ts)) n ∙ ap (λ r. s ∷ r) (scan_of_spell t ts ns.0 ns.1)

pub All-NoSlash : (ss : List Bytes) → All IsSegment ss → All NoSlash ss
All-NoSlash [] v = tt
All-NoSlash (s ∷ ss) v = (IsSegment-NoSlash s v.0.plain, All-NoSlash ss v.1)

-- `segments` gives back the segments of which a string was spelled, if none of them holds a slash.
pub segments-spell : (ss : List Bytes) → All NoSlash ss → segments (spell ss) ≡ ok ss
unfolding segments spell
segments-spell [] n = refl
segments-spell (s ∷ ss) n = ap (λ r. ok r) (scan_of_spell s ss n.0 n.1)

-- And a string for which it succeeds is spelled by its result.
spell_of_segments :
    (s : Bytes) (ss : List Bytes) → segments s ≡ ok ss → (s ≡ spell ss) × All NoSlash ss
unfolding segments spell
spell_of_segments [] ss h = let e : [] ≡ ss = cc in rw (← e) (refl, tt)
spell_of_segments (c ∷ rest) ss h = elim (Bool-cases (is_slash c)) [
  | inl e ↦
      let same : scan [] rest ≡ ss = ground (arith, h, e) in
      rw (← same, scan-spell [] rest, (==_iff c slash).0 e) (refl, scan-NoSlash [] rest tt)
  | inr e ↦ absurd (ground (arith, h, e))
]

all_valid_iff : (ss : List Bytes) → All NoSlash ss → (all_valid ss ≡ true) ↔ All IsSegment ss
unfolding all_valid
all_valid_iff [] n = (λ _. tt, λ _. refl)
all_valid_iff (s ∷ ss) n = ground (arith, validate_segment_iff s n.0, all_valid_iff ss n.1)

-- The paths that the library accepts.
abbrev pub IsPath : KeyPath → Type 0
IsPath p = (ss : List Bytes) × All IsSegment ss × (p.path ≡ spell ss)

-- The path that consists of these segments.
abbrev pub of_segments : List Bytes → KeyPath
of_segments ss = record { path = spell ss }

-- The constructor accepts a string exactly if it is a sequence of valid segments, each behind a
-- slash, and it stores the string as it is.
pub make_path_iff : (s : Bytes) (p : KeyPath) → (make_path s ≡ ok p) ↔ (IsPath p × (p.path ≡ s))
unfolding make_path
make_path_iff s p = (
  λ h.
      let (ss, cut, checked) = >>=-eq-ok (segments s) _ h in
      let (spelled, clean) = spell_of_segments s ss cut in
      let same : p.path ≡ s = ground (arith, checked) in
      ((ss, (all_valid_iff ss clean).0 (ground (arith, checked)), same ∙ spelled), same),
  λ ((ss, v, e), same).
      rw
        (
          sym same ∙ e,
          segments-spell ss (All-NoSlash ss v),
          (all_valid_iff ss (All-NoSlash ss v)).1 v,
        )
        (ground (arith, e)),
)

pub make_path-of_segments :
    (ss : List Bytes) → All IsSegment ss → make_path (spell ss) ≡ ok (of_segments ss)
unfolding make_path
make_path-of_segments ss v =
    rw (segments-spell ss (All-NoSlash ss v), (all_valid_iff ss (All-NoSlash ss v)).1 v)

-- Every string that it refuses is reported as the invalid key that it is.
pub make_path_refused :
    (s : Bytes) → ((p : KeyPath) × (make_path s ≡ ok p)) ⊎ (make_path s ≡ throw (invalid_key s))
unfolding make_path segments
make_path_refused [] = inl (record { path = [] }, unfold all_valid in refl)
make_path_refused (c ∷ s) = elim (Bool-cases (is_slash c)) [
  | inr e ↦ inr (rw e)
  | inl e ↦ elim (Bool-cases (all_valid (scan [] s))) [
    | inl v ↦ inl (record { path = c ∷ s }, rw (e, v))
    | inr v ↦ inr (rw (e, v))
  ]
]

-- A key by its segments.
pub record IsKey (k : List Bytes) : Type 0 where
  pub nonempty : k ≢ []
  pub valid : All IsSegment k

pub IsKey-cons : (t : Bytes) (ts : List Bytes) → All IsSegment (t ∷ ts) → IsKey (t ∷ ts)
IsKey-cons t ts w = record { nonempty = λ e. cc e; valid = w }

pub IsKey-snoc : (up : List Bytes) (t : Bytes) → All IsSegment (up ++ t ∷ []) → IsKey (up ++ t ∷ [])
IsKey-snoc [] t w = IsKey-cons t [] w
IsKey-snoc (u ∷ us) t w = IsKey-cons u (us ++ t ∷ []) w
