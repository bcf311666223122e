-- ===== src/Etcd/Naming/Unwrap.antt =====
-- etcd_client.hpp: `unwrap_key_`, after `as_path_string_`.
use liboffkv.Base.{
  ℕ, zero, suc, ◌+◌, ◌-◌, ◌%◌, subst, ◌<◌, ◌≤◌, ◌≡◌, refl, sym, ap, ◌∙◌, Bytes, slash, List, [],
  ◌∷◌, ◌++◌, length, length-append, take, take-length-append, drop-length-append, append_assoc,
  arith, All, All-right,
}
use liboffkv.Errors.{ok}
use liboffkv.Key.Segments.{IsSegment, spell, spell-append, IsSegment-NoSlash, of_segments}
use liboffkv.Key.Parent.{rfind_slash-append, spell-snoc}
use liboffkv.Etcd.Naming.{size_mod, substr, unwrap_key, as_path_string}
use liboffkv.Etcd.Naming.Laws.{mark, key_of, as_path_string_lem}

mark-snoc : (ss : List Bytes) (s : Bytes) → mark (ss ++ s ∷ []) ≡ ss ++ (0 ∷ s) ∷ []
unfolding mark
mark-snoc [] s = refl
mark-snoc (t ∷ []) s = refl
mark-snoc (t ∷ u ∷ ss) s = ap (λ r. t ∷ r) (mark-snoc (u ∷ ss) s)

take_all : (n : ℕ) (s : Bytes) → length s ≤ n → take n s ≡ s
take_all zero [] h = refl
take_all zero (c ∷ s) h = absurd (omega arith)
take_all (suc n) [] h = refl
take_all (suc n) (c ∷ s) h = ap (λ r. c ∷ r) (take_all n s (omega arith))

-- The part of a text between two positions.
substr_middle :
    (a b c : Bytes) (pos count : ℕ)
    → pos ≡ length a
    → count ≡ length b
    → substr (a ++ (b ++ c)) pos count ≡ ok b
unfolding substr
substr_middle a b c pos count e f =
    rw (e, f, drop-length-append a (b ++ c), take-length-append b c)
      (ground (arith, length-append a (b ++ c)))

substr_rest :
    (a b : Bytes) (pos count : ℕ)
    → pos ≡ length a
    → length b ≤ count
    → substr (a ++ b) pos count ≡ ok b
unfolding substr
substr_rest a b pos count e h =
    rw (e, drop-length-append a b, take_all count b h) (ground (arith, length-append a b))

-- The key of a path, cut at its last slash.
key_of-snoc :
    (ps ss : List Bytes) (s : Bytes)
    → key_of ps (ss ++ s ∷ []) ≡ (spell ps ++ spell ss) ++ slash ∷ 0 ∷ s
key_of-snoc ps ss s =
    ap (λ r. spell (ps ++ r)) (mark-snoc ss s)
    ∙ ap spell (sym (append_assoc ps ss ((0 ∷ s) ∷ [])))
    ∙ spell-snoc (ps ++ ss) (0 ∷ s)
    ∙ ap (λ r. r ++ slash ∷ 0 ∷ s) (spell-append ps ss)

module _ (a b s : Bytes) (short : length ((a ++ b) ++ slash ∷ 0 ∷ s) < size_mod) where
  total : length ((a ++ b) ++ slash ∷ 0 ∷ s) ≡ length a + length b + (length s + 2)
  total = omega (arith, length-append (a ++ b) (slash ∷ 0 ∷ s), length-append a b)

  parents_part :
      substr
        ((a ++ b) ++ slash ∷ 0 ∷ s)
        (length a)
        ((length (a ++ b) + 1 + (size_mod - length a)) % size_mod)
      ≡ ok (b ++ slash ∷ [])
  parents_part =
      ap (λ t. substr t (length a) ((length (a ++ b) + 1 + (size_mod - length a)) % size_mod))
        (append_assoc a b (slash ∷ 0 ∷ s)
          ∙ ap (λ r. a ++ r) (sym (append_assoc b (slash ∷ []) (0 ∷ s))))
      ∙ substr_middle a (b ++ slash ∷ []) (0 ∷ s) (length a) _ refl
          (omega (arith, total, short, length-append a b, length-append b (slash ∷ [])))

  last_part :
      substr ((a ++ b) ++ slash ∷ 0 ∷ s) ((length (a ++ b) + 2) % size_mod) (size_mod - 1) ≡ ok s
  last_part =
      ap (λ t. substr t ((length (a ++ b) + 2) % size_mod) (size_mod - 1))
        (sym (append_assoc (a ++ b) (slash ∷ 0 ∷ []) s))
      ∙ substr_rest ((a ++ b) ++ slash ∷ 0 ∷ []) s _ (size_mod - 1)
          (omega (arith, total, short, length-append a b, length-append (a ++ b) (slash ∷ 0 ∷ [])))
          (omega (arith, total, short))

-- From the key under which a path is stored, `unwrap_key_` gives back the path without the
-- prefix and the mark.
pub unwrap_key_of_key :
    (ps ss : List Bytes) (s : Bytes)
    → All IsSegment (ss ++ s ∷ [])
    → length (key_of ps (ss ++ s ∷ [])) < size_mod
    → unwrap_key (of_segments ps) (key_of ps (ss ++ s ∷ [])) ≡ ok (spell (ss ++ s ∷ []))
unfolding unwrap_key
unwrap_key_of_key ps ss s v short =
    let e = key_of-snoc ps ss s in
    let small = rw e at short in
    let clean = IsSegment-NoSlash s (All-right IsSegment ss (s ∷ []) v).0.plain in
    rw
      (
        e,
        rfind_slash-append (spell ps ++ spell ss) (0 ∷ s) (omega arith, clean),
        parents_part (spell ps) (spell ss) s small,
        last_part (spell ps) (spell ss) s small,
      )
      (ap ok (append_assoc (spell ss) (slash ∷ []) s ∙ sym (spell-snoc ss s)))

as_path_string-snoc :
    (ps ss : List Bytes) (s : Bytes)
    → All IsSegment (ss ++ s ∷ [])
    → as_path_string (of_segments ps) (of_segments (ss ++ s ∷ [])) ≡ ok (key_of ps (ss ++ s ∷ []))
as_path_string-snoc ps [] s v = as_path_string_lem ps s [] v
as_path_string-snoc ps (t ∷ ss) s v = as_path_string_lem ps t (ss ++ s ∷ []) v

-- For a path of valid segments that is not the root, `unwrap_key_` turns the key under which the
-- path is stored back into the path, if the key's length fits in a `size_t`.
pub unwrap_key-as_path_string :
    (ps ss : List Bytes) (s k : Bytes)
    → All IsSegment (ss ++ s ∷ [])
    → as_path_string (of_segments ps) (of_segments (ss ++ s ∷ [])) ≡ ok k
    → length k < size_mod
    → unwrap_key (of_segments ps) k ≡ ok (of_segments (ss ++ s ∷ [])).path
unwrap_key-as_path_string ps ss s k v e short =
    let same : key_of ps (ss ++ s ∷ []) ≡ k = cc (as_path_string-snoc ps ss s v, e) in
    subst (λ q. length q < size_mod → unwrap_key (of_segments ps) q ≡ ok (spell (ss ++ s ∷ [])))
      same (unwrap_key_of_key ps ss s v) short
