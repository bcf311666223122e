-- ===== src/Clib/Memory/Layout.antt =====
-- clib.cpp: an array of strings on the heap, and what freeing it leaves.
use liboffkv.Base.{
  ℕ, zero, suc, ◌<◌, ◌≤◌, ◌≡◌, ◌≢◌, refl, sym, ap, ◌∙◌, Bytes, List, [], ◌∷◌, ◌++◌, Option, none,
  some, get_elem?, length, map, ◌==◌, ==_iff, Bool-cases, inl, inr, if◌then◌else◌, arith,
}
use liboffkv.Errors.{ok}
use liboffkv.Clib.Memory.{
  Block, chars, pointers, Memory, set_live, delete, load, free_string, free_from,
}

-- The copies of some strings, by address.
abbrev pub Copies : Type 0
Copies = List (ℕ × Bytes)

abbrev pub addresses : Copies → List ℕ
addresses = map (λ e. e.0)

abbrev pub copy_of : Bytes → Block
copy_of s = chars (s ++ 0 ∷ [])

-- The block at an address, where another one lies unless it is that of a copy.
unfoldable pub block_at : Copies → ℕ → Option Block → Option Block
block_at [] x base = base
block_at ((a, s) ∷ es) x base =
    let rest = block_at es x base in if x == a then some (copy_of s) else rest

-- The addresses go up, from above `k` to at most `n`.
unfoldable pub Rising : ℕ → Copies → ℕ → Type 0
Rising k [] n = k ≤ n
Rising k ((a, s) ∷ es) n = (k < a) × Rising a es n

-- From `i` on the array has the addresses of these copies.
unfoldable pub Points : List ℕ → ℕ → Copies → Type 0
Points all i [] = Unit
Points all i ((a, s) ∷ es) = (get_elem? all i ≡ some a) × Points all (suc i) es

-- Over `base`, the memory has the array `all` at `r` and these copies.
pub record Holds (base : ℕ → Option Block) (live : ℕ → Option Block) (r : ℕ) (all : List ℕ)
    (es : Copies) : Type 0 where
  pub array : live r ≡ some (pointers all)
  pub others : (x : ℕ) → x ≢ r → live x ≡ block_at es x (base x)

-- Above `n` there is nothing.
abbrev pub FreshAbove : ℕ → (ℕ → Option Block) → Type 0
FreshAbove n base = (x : ℕ) → n < x → base x ≡ none

pub block_at-below :
    (k x n : ℕ) (es : Copies) (b : Option Block) → Rising k es n → x ≤ k → block_at es x b ≡ b
unfolding block_at Rising
block_at-below k x n [] b up le = refl
block_at-below k x n ((a, s) ∷ es) b up le =
    ground (arith, up.0, le, block_at-below a x n es b up.1 (omega (arith, up.0)))

pub Rising-le : (k : ℕ) (es : Copies) (n : ℕ) → Rising k es n → k ≤ n
unfolding Rising
Rising-le k [] n up = up
Rising-le k ((a, s) ∷ es) n up = omega (arith, up.0, Rising-le a es n up.1)

pub block_at-above :
    (k x n : ℕ) (es : Copies) (b : Option Block) → Rising k es n → n < x → block_at es x b ≡ b
unfolding block_at Rising
block_at-above k x n [] b up lt = refl
block_at-above k x n ((a, s) ∷ es) b up lt =
    ground (arith, up.0, lt, Rising-le a es n up.1, block_at-above a x n es b up.1 lt)

pub set_live_self : (p : ℕ) (b : Option Block) (live : ℕ → Option Block) → set_live p b live p ≡ b
set_live_self p b live = ground arith

pub set_live-ne :
    (p x : ℕ) (b : Option Block) (live : ℕ → Option Block) → x ≢ p → set_live p b live x ≡ live x
set_live-ne p x b live ne = ground (arith, ne)

-- One copy is freed.
Holds-free :
    (base live : ℕ → Option Block) (r a n : ℕ) (s : Bytes) (all : List ℕ) (es : Copies)
    → a ≢ r
    → base a ≡ none
    → Rising a es n
    → Holds base live r all ((a, s) ∷ es)
    → Holds base (set_live a none live) r all es
unfolding block_at
Holds-free base live r a n s all es ne fresh up h = record {
  array = set_live-ne a r none live (λ e. ne (sym e)) ∙ h.array;
  others = λ x ne_r. elim (Bool-cases (x == a)) [
    | inl e ↦
        let same : x ≡ a = (==_iff x a).0 e in
        ap (λ y. set_live a none live y) same
        ∙ set_live_self a none live
        ∙ sym (
            ap (λ y. block_at es y (base y)) same
            ∙ block_at-below a a n es (base a) up (omega arith)
            ∙ fresh)
    | inr e ↦
        let ne_a : x ≢ a = λ same. cc (e, (==_iff x a).1 same) in
        set_live-ne a x none live ne_a ∙ h.others x ne_r ∙ rw e refl
  ];
}

load-Holds :
    (r i a : ℕ) (all : List ℕ) (m : Memory)
    → m.live r ≡ some (pointers all)
    → get_elem? all i ≡ some a
    → load r i m ≡ (ok a, m)
unfolding load
load-Holds r i a all m e f = rw (e, f) refl

free_string-some :
    (a : ℕ) (b : Block) (m : Memory)
    → m.live (suc a) ≡ some b
    → free_string (suc a) m ≡ (ok tt, record m { live = set_live (suc a) none m.live })
unfolding free_string delete
free_string-some a b m e = rw e refl

module _ (base : ℕ → Option Block) (n : ℕ) (fresh : FreshAbove n base) (r : ℕ) (above : n < suc r)
    (all : List ℕ) where
  free_array :
      (m : Memory)
      → Holds base m.live (suc r) all []
      → (m' : Memory) × (delete (suc r) m ≡ (ok tt, m')) × ((x : ℕ) → m'.live x ≡ base x)
  unfolding delete block_at
  free_array m h = (
    record m { live = set_live (suc r) none m.live },
    rw h.array refl,
    λ x. elim (Bool-cases (x == suc r)) [
      | inl e ↦
          let same : x ≡ suc r = (==_iff x (suc r)).0 e in
          ap (λ y. set_live (suc r) none m.live y) same
          ∙ set_live_self (suc r) none m.live
          ∙ sym (ap base same ∙ fresh (suc r) above)
      | inr e ↦
          let ne : x ≢ suc r = λ same. cc (e, (==_iff x (suc r)).1 same) in
          set_live-ne (suc r) x none m.live ne ∙ h.others x ne
    ],
  )

  -- The loop of `free_strings` frees the copies from `i` on and then the array.
  pub free_from-Holds :
      (i k top : ℕ) (es : Copies) (m : Memory)
      → suc r ≤ k
      → Rising k es top
      → Points all i es
      → Holds base m.live (suc r) all es
      → (m' : Memory) × (free_from (suc r) i (length es) m ≡ (ok tt, m'))
        × ((x : ℕ) → m'.live x ≡ base x)
  unfolding free_from Points Rising
  free_from-Holds i k top [] m le up points h = free_array m h
  free_from-Holds i k top ((zero, s) ∷ es) m le up points h = absurd (omega (arith, up.0))
  free_from-Holds i k top ((suc a, s) ∷ es) m le up points h =
      let ne : suc a ≢ suc r = λ e. omega (arith, up.0, le, e) in
      let there : m.live (suc a) ≡ some (copy_of s) =
        h.others (suc a) ne ∙ unfold block_at in ground arith in
      let freed =
        Holds-free base m.live (suc r) (suc a) top s all es ne
          (fresh (suc a) (omega (arith, up.0, le, above))) up.1 h in
      let (m', rest, same) =
        free_from-Holds (suc i) (suc a) top es (record m { live = set_live (suc a) none m.live })
          (omega (arith, up.0, le)) up.1 points.1 freed in
      (
        m',
        rw
            (
              load-Holds (suc r) i (suc a) all m h.array points.0,
              free_string-some a (copy_of s) m there,
            )
            rest,
        same,
      )
