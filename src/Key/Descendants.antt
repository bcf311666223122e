-- ===== src/Key/Descendants.antt =====
-- Descendants of a path, and how its spelling shows them.
use liboffkv.Base.{
  append_assoc, ◌∙◌, ℕ, ◌≡◌, ◌≢◌, refl, ap, ◌∙◌, ◌↔◌, Bool, true, false, ◌&&◌, Bytes, bytes_eq,
  bytes_eq_iff, slash, List, [], ◌∷◌, ◌++◌, arith, All, append_assoc,
}
use liboffkv.Key.{segments}
use liboffkv.Key.Segments.{NoSlash, spell, segments-spell}
use liboffkv.Util.{starts_with}

-- The second path lies strictly below the first.
unfoldable pub is_below : List Bytes → List Bytes → Bool
is_below [] [] = false
is_below [] (t ∷ ts) = true
is_below (s ∷ ss) [] = false
is_below (s ∷ ss) (t ∷ ts) = bytes_eq s t && is_below ss ts

pub is_below_iff :
    (ss ts : List Bytes)
    → (is_below ss ts ≡ true) ↔ ((u : Bytes) × (us : List Bytes) × (ts ≡ ss ++ u ∷ us))
unfolding is_below
is_below_iff [] [] = (λ h. cc h, λ (u, us, e). absurd (cc e))
is_below_iff [] (t ∷ ts) = (λ _. (t, ts, refl), λ _. refl)
is_below_iff (s ∷ ss) [] = (λ h. cc h, λ (u, us, e). absurd (cc e))
is_below_iff (s ∷ ss) (t ∷ ts) = (
  λ h.
      let (u, us, e) = (is_below_iff ss ts).0 (ground (arith, h)) in
      (u, us, ground (arith, h, e, bytes_eq_iff s t)),
  λ (u, us, e).
      let below = (is_below_iff ss ts).1 (u, us, ground (arith, e)) in
      ground (arith, e, below, bytes_eq_iff s t),
)

starts_with-slash :
    (x : Bytes) (ts : List Bytes) (c : ℕ) → c ≢ slash → starts_with (c ∷ x) (spell ts) ≡ false
unfolding starts_with spell
starts_with-slash x [] c n = refl
starts_with-slash x (t ∷ ts) c n = ground arith

pub starts_with-same : (c : ℕ) (p s : Bytes) → starts_with (c ∷ p) (c ∷ s) ≡ starts_with p s
unfolding starts_with
starts_with-same c p s = ground arith

-- Two slash-free stretches agree up to the slash only if they are equal.
pub starts_with-segment :
    (s t x : Bytes) (ts : List Bytes)
    → NoSlash s
    → NoSlash t
    → starts_with (s ++ slash ∷ x) (t ++ spell ts)
      ≡ (bytes_eq s t && starts_with (slash ∷ x) (spell ts))
unfolding starts_with bytes_eq
starts_with-segment [] [] x ts n m = refl
starts_with-segment [] (d ∷ t) x ts n m = ground (arith, m.0)
starts_with-segment (c ∷ s) [] x ts n m = starts_with-slash (s ++ slash ∷ x) ts c n.0
starts_with-segment (c ∷ s) (d ∷ t) x ts n m = ground (arith, starts_with-segment s t x ts n.1 m.1)

pub spell-slash : (ss : List Bytes) → (x : Bytes) × (spell ss ++ slash ∷ [] ≡ slash ∷ x)
unfolding spell
spell-slash [] = ([], refl)
spell-slash (s ∷ ss) = ((s ++ spell ss) ++ slash ∷ [], refl)

starts_with-cons :
    (s t : Bytes) (ss ts : List Bytes)
    → NoSlash s
    → NoSlash t
    → starts_with (spell (s ∷ ss) ++ slash ∷ []) (spell (t ∷ ts))
      ≡ (bytes_eq s t && starts_with (spell ss ++ slash ∷ []) (spell ts))
unfolding spell
starts_with-cons s t ss ts n m =
    let (x, e) = spell-slash ss in
    rw (append_assoc s (spell ss) (slash ∷ []), e)
      (starts_with-same slash (s ++ slash ∷ x) (t ++ spell ts) ∙ starts_with-segment s t x ts n m)

-- A spelling begins with another one and a slash exactly for a descendant.
pub starts_with-spell :
    (ss ts : List Bytes)
    → All NoSlash ss
    → All NoSlash ts
    → starts_with (spell ss ++ slash ∷ []) (spell ts) ≡ is_below ss ts
unfolding is_below
starts_with-spell [] [] n m = unfold starts_with spell in refl
starts_with-spell [] (t ∷ ts) n m = unfold starts_with spell in refl
starts_with-spell (s ∷ ss) [] n m = unfold starts_with spell in refl
starts_with-spell (s ∷ ss) (t ∷ ts) n m =
    starts_with-cons s t ss ts n.0 m.0
    ∙ ap (λ b. bytes_eq s t && b) (starts_with-spell ss ts n.1 m.1)

pub spell-injective :
    (ss ts : List Bytes) → All NoSlash ss → All NoSlash ts → spell ss ≡ spell ts → ss ≡ ts
spell-injective ss ts n m e = cc (segments-spell ss n, segments-spell ts m, ap segments e)

-- A common prefix does not matter.
pub is_below-append : (ps ss ts : List Bytes) → is_below (ps ++ ss) (ps ++ ts) ≡ is_below ss ts
unfolding is_below
is_below-append [] ss ts = refl
is_below-append (p ∷ ps) ss ts = ground (arith, bytes_eq_iff p p, is_below-append ps ss ts)
