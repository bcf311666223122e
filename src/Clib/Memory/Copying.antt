-- ===== src/Clib/Memory/Copying.antt =====
-- clib.cpp, the loop of `dup_strings`: it has copied all strings that were left, or freed what there was.
use liboffkv.Base.{
  ℕ, suc, ◌<◌, ◌≡◌, ◌≢◌, refl, sym, ap, ◌∙◌, Bytes, List, [], ◌∷◌, ◌++◌, Option, some, get_elem?,
  length, map, ◌==◌, ==_iff, true, false, Bool, Bool-cases, inl, inr, if◌then◌else◌, arith,
  append-nil, append_assoc, length-append, length-map,
}
use liboffkv.Errors.{Outcome, ok, throw, bad_alloc}
use liboffkv.Clib.Memory.{
  Block, pointers, Memory, set_live, store, new, dup_string, dup_from, free_strings,
}
use liboffkv.Clib.Memory.Layout.{
  Rising-le, Copies, addresses, copy_of, block_at, block_at-above, Rising, Points, Holds,
  FreshAbove, free_from-Holds, set_live_self, set_live-ne,
}

-- With one more copy at the end.
block_at-snoc :
    (es : Copies) (a x : ℕ) (s : Bytes) (b : Option Block)
    → block_at (es ++ (a, s) ∷ []) x b ≡ block_at es x (if x == a then some (copy_of s) else b)
unfolding block_at
block_at-snoc [] a x s b = refl
block_at-snoc ((c, t) ∷ es) a x s b = rw (block_at-snoc es a x s b) refl

Rising-snoc :
    (k : ℕ) (es : Copies) (n : ℕ) (s : Bytes)
    → Rising k es n
    → Rising k (es ++ (suc n, s) ∷ []) (suc n)
unfolding Rising
Rising-snoc k [] n s up = (omega arith, omega arith)
Rising-snoc k ((a, t) ∷ es) n s up = (up.0, Rising-snoc a es n s up.1)

addresses-append : (xs ys : Copies) → addresses (xs ++ ys) ≡ addresses xs ++ addresses ys
addresses-append [] ys = refl
addresses-append (x ∷ xs) ys = ap (λ r. x.0 ∷ r) (addresses-append xs ys)

get_elem?-append :
    {A : Type 0} (xs : List A) (y : A) (ys : List A) → get_elem? (xs ++ y ∷ ys) (length xs) ≡ some y
get_elem?-append [] y ys = refl
get_elem?-append (x ∷ xs) y ys = get_elem?-append xs y ys

length-snoc : {A : Type 0} (xs : List A) (y : A) → length (xs ++ y ∷ []) ≡ suc (length xs)
length-snoc xs y = omega (arith, length-append xs (y ∷ []))

pub Points-append :
    (before : List ℕ) (es : Copies) → Points (before ++ addresses es) (length before) es
unfolding Points
Points-append before [] = tt
Points-append before ((a, s) ∷ es) =
    let ih = Points-append (before ++ a ∷ []) es in
    (
      get_elem?-append before a (addresses es),
      rw (append_assoc before (a ∷ []) (addresses es), length-snoc before a) at ih,
    )

pub new-throw :
    (fails : ℕ → Bool) (b : Block) (m : Memory)
    → fails (suc m.made) ≡ true
    → new fails b m ≡ (throw bad_alloc, m)
unfolding new
new-throw fails b m e = rw e refl

pub new-ok :
    (fails : ℕ → Bool) (b : Block) (m : Memory)
    → fails (suc m.made) ≡ false
    → new fails b m ≡ (
      ok (suc m.made),
      record { live = set_live (suc m.made) (some b) m.live; made = suc m.made },
    )
unfolding new
new-ok fails b m e = rw e refl

store-next :
    (r p : ℕ) (ps : List ℕ) (i : ℕ) (m : Memory)
    → m.live r ≡ some (pointers ps)
    → i ≡ length ps
    → store r i p m
      ≡ (ok tt, record m { live = set_live r (some (pointers (ps ++ p ∷ []))) m.live })
unfolding store
store-next r p ps i m e same = rw (e, (==_iff i (length ps)).1 same) refl

module _ (fails : ℕ → Bool) (base : ℕ → Option Block) (n : ℕ) (fresh : FreshAbove n base) (r : ℕ)
    (above : n < suc r) where
  -- How the loop ends: with a copy of every string more, or with nothing left over `base`.
  abbrev pub Ended : Copies → List Bytes → Outcome (Unit {0}) × Memory → Type 0
  Ended es strings (ok _, m) =
      (more : Copies) × (map (λ e. e.1) more ≡ strings)
      × Holds base m.live (suc r) (addresses (es ++ more)) (es ++ more)
      × Rising (suc r) (es ++ more) m.made
  Ended es strings (throw e, m) = (e ≡ bad_alloc) × ((x : ℕ) → m.live x ≡ base x)

  with_copy-snoc :
      (es : Copies) (s : Bytes) (m : Memory) (x : ℕ)
      → Rising (suc r) es m.made
      → m.live x ≡ block_at es x (base x)
      → set_live (suc m.made) (some (copy_of s)) m.live x
        ≡ block_at (es ++ (suc m.made, s) ∷ []) x (base x)
  with_copy-snoc es s m x up before = elim (Bool-cases (x == suc m.made)) [
    | inl e ↦
        let lt : m.made < x = ground (arith, e) in
        rw (block_at-snoc es (suc m.made) x s (base x), e)
          (sym (block_at-above (suc r) x m.made es (some (copy_of s)) up lt))
    | inr e ↦ rw (block_at-snoc es (suc m.made) x s (base x), e) before
  ]

  -- One more copy is in the array.
  Holds-snoc :
      (es : Copies) (s : Bytes) (m : Memory)
      → Holds base m.live (suc r) (addresses es) es
      → Rising (suc r) es m.made
      → suc m.made ≢ suc r
      → Holds base
          (set_live
            (suc r)
            (some (pointers (addresses es ++ suc m.made ∷ [])))
            (set_live (suc m.made) (some (copy_of s)) m.live))
          (suc r)
          (addresses (es ++ (suc m.made, s) ∷ []))
          (es ++ (suc m.made, s) ∷ [])
  Holds-snoc es s m h up ne =
      let p = suc m.made in
      let with_copy : ℕ → Option Block = set_live p (some (copy_of s)) m.live in
      record {
        array =
            set_live_self (suc r) (some (pointers (addresses es ++ p ∷ []))) with_copy
            ∙ ap (λ q. some (pointers q)) (sym (addresses-append es ((p, s) ∷ [])));
        others = λ x ne_r.
            set_live-ne (suc r) x (some (pointers (addresses es ++ p ∷ []))) with_copy ne_r
            ∙ with_copy-snoc es s m x up (h.others x ne_r);
      }

  Ended-snoc :
      (es : Copies) (a : ℕ) (s : Bytes) (strings : List Bytes) (o : Outcome (Unit {0}) × Memory)
      → Ended (es ++ (a, s) ∷ []) strings o
      → Ended es (s ∷ strings) o
  Ended-snoc es a s strings (ok _, m) (more, same, h, up) = (
    (a, s) ∷ more,
    ap (λ q. s ∷ q) same,
    rw (append_assoc es ((a, s) ∷ []) more) at h,
    rw (append_assoc es ((a, s) ∷ []) more) at up,
  )
  Ended-snoc es a s strings (throw e, m) h = h

  pub dup_from-Ended :
      (es : Copies) (strings : List Bytes) (m : Memory)
      → Holds base m.live (suc r) (addresses es) es
      → Rising (suc r) es m.made
      → Ended es strings (dup_from fails (suc r) (length es) strings m)
  unfolding dup_from dup_string free_strings
  dup_from-Ended es [] m h up = ([], refl, rw (append-nil es) h, rw (append-nil es) up)
  dup_from-Ended es (s ∷ strings) m h up = elim (Bool-cases (fails (suc m.made))) [
    | inl e ↦
        let (m', freed, same) =
          free_from-Holds base n fresh r above (addresses es) 0 (suc r) m.made es m (omega arith) up
            (Points-append [] es) h in
        rw (new-throw fails (copy_of s) m e, freed) (refl, same)
    | inr e ↦
        let p = suc m.made in
        let lt = Rising-le (suc r) es m.made up in
        let ne : p ≢ suc r = λ same. omega (arith, lt, same) in
        let kept : set_live p (some (copy_of s)) m.live (suc r) ≡ some (pointers (addresses es)) =
          set_live-ne p (suc r) (some (copy_of s)) m.live (λ same. ne (sym same)) ∙ h.array in
        let stored =
          store-next (suc r) p (addresses es) (length es)
            (record { live = set_live p (some (copy_of s)) m.live; made = p }) kept
            (sym (length-map es (λ q. q.0))) in
        let rest =
          dup_from-Ended (es ++ (p, s) ∷ []) strings
            (record {
              live =
                  set_live (suc r) (some (pointers (addresses es ++ p ∷ [])))
                    (set_live p (some (copy_of s)) m.live);
              made = p;
            })
            (Holds-snoc es s m h up ne) (Rising-snoc (suc r) es m.made s up) in
        rw (new-ok fails (copy_of s) m e, stored)
          (Ended-snoc es p s strings _ (rw (length-snoc es (p, s)) at rest))
  ]
