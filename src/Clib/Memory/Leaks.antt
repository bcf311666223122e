-- ===== src/Clib/Memory/Leaks.antt =====
-- clib.cpp, `dup_strings`: it hands out copies of all strings, or nothing stays allocated.
use liboffkv.Base.{
  ℕ, suc, ◌<◌, ◌≡◌, refl, ◌∙◌, Bytes, List, [], ◌∷◌, Option, some, length, map, Bool, Bool-cases,
  inl, inr, arith, All, length-map,
}
use liboffkv.Errors.{Outcome, ok, throw, bad_alloc}
use liboffkv.Exec.{pure, continue}
use liboffkv.Clib.Memory.{Block, pointers, Memory, set_live, dup_strings, free_strings}
use liboffkv.Clib.Memory.Layout.{
  Copies, addresses, copy_of, block_at, Rising, Holds, FreshAbove, free_from-Holds, set_live_self,
  set_live-ne,
}
use liboffkv.Clib.Memory.Copying.{Points-append, new-throw, new-ok, Ended, dup_from-Ended}

All-map :
    {A : Type 0} (P Q : A → Type 0) → ((x : A) → P x → Q x) → (xs : List A) → All P xs → All Q xs
All-map P Q f [] a = tt
All-map P Q f (x ∷ xs) a = (f x a.0, All-map P Q f xs a.1)

-- The address of each copy holds it.
abbrev IsAt : Copies → ℕ → (b : ℕ → Option Block) → ℕ × Bytes → Type 0
IsAt es k b e = (k < e.0) × (block_at es e.0 (b e.0) ≡ some (copy_of e.1))

copies-IsAt : (k n : ℕ) (es : Copies) (b : ℕ → Option Block) → Rising k es n → All (IsAt es k b) es
unfolding Rising block_at
copies-IsAt k n [] b up = tt
copies-IsAt k n ((a, s) ∷ es) b up = (
  (up.0, ground arith),
  All-map (IsAt es a b) (IsAt ((a, s) ∷ es) k b)
      (λ e at_e. (omega (arith, up.0, at_e.0), ground (arith, at_e.0, at_e.1))) es
      (copies-IsAt a n es b up.1),
)

-- The array at `r` has a copy of every string, and `free_strings` gives all of it back.
pub record HandsOut (before : ℕ → Option Block) (strings : List Bytes) (r : ℕ) (m : Memory)
    : Type 0 where
  pub copies : Copies
  pub complete : map (λ e. e.1) copies ≡ strings
  pub array : m.live r ≡ some (pointers (addresses copies))
  pub contents : All (λ e. m.live e.0 ≡ some (copy_of e.1)) copies
  pub after : Memory
  pub frees : free_strings r (length strings) m ≡ (ok tt, after)
  pub as_before : (x : ℕ) → after.live x ≡ before x

abbrev pub HandsOutOrNothing :
    (before : ℕ → Option Block) → List Bytes → Outcome ℕ × Memory → Type 0
HandsOutOrNothing before strings (ok r, m) = HandsOut before strings r m
HandsOutOrNothing before strings (throw e, m) = (e ≡ bad_alloc) × ((x : ℕ) → m.live x ≡ before x)

-- The array before the loop.
Holds-nil :
    (r : ℕ) (base : ℕ → Option Block) → Holds base (set_live r (some (pointers [])) base) r [] []
unfolding block_at
Holds-nil r base = record {
  array = set_live_self r (some (pointers [])) base;
  others = λ x ne. set_live-ne r x (some (pointers [])) base ne;
}

Rising-nil : (r : ℕ) → Rising r [] r
unfolding Rising
Rising-nil r = omega arith

module _ (fails : ℕ → Bool) (m : Memory) (fresh : FreshAbove m.made m.live) where
  Ended-HandsOut :
      (strings : List Bytes) (o : Outcome (Unit {0}) × Memory)
      → Ended fails m.live m.made fresh m.made (omega arith) [] strings o
      → HandsOutOrNothing m.live strings (continue o.0 (λ _. pure (suc m.made)) o.1)
  unfolding free_strings
  Ended-HandsOut strings (throw e, m') ended = ended
  Ended-HandsOut strings (ok _, m') (copies, complete, h, up) =
      let (after, frees, same) =
        free_from-Holds m.live m.made fresh m.made (omega arith) (addresses copies) 0 (suc m.made)
          m'.made copies m' (omega arith) up (Points-append [] copies) h in
      record {
        copies = copies;
        complete = complete;
        array = h.array;
        contents =
            All-map (IsAt copies (suc m.made) m.live) (λ e. m'.live e.0 ≡ some (copy_of e.1))
              (λ e at_e. h.others e.0 (λ same. omega (arith, at_e.0, same)) ∙ at_e.1) copies
              (copies-IsAt (suc m.made) m'.made copies m.live up);
        after = after;
        frees = rw (← complete, length-map copies (λ e. e.1)) frees;
        as_before = same;
      }

  -- If nothing lies above the last address given out, then `dup_strings` returns an array of copies of
  -- all strings, each with its zero, and `free_strings` of it gives back all that was allocated. Or
  -- it throws `std::bad_alloc`, and what it had allocated is freed.
  pub dup_strings-HandsOut :
      (strings : List Bytes) → HandsOutOrNothing m.live strings (dup_strings fails strings m)
  unfolding dup_strings
  dup_strings-HandsOut strings = elim (Bool-cases (fails (suc m.made))) [
    | inl e ↦ rw (new-throw fails (pointers []) m e) (refl, λ x. refl)
    | inr e ↦ rw (new-ok fails (pointers []) m e) (
        Ended-HandsOut strings _ (
          dup_from-Ended fails m.live m.made fresh m.made (omega arith) [] strings
            (record { live = set_live (suc m.made) (some (pointers [])) m.live; made = suc m.made })
            (Holds-nil (suc m.made) m.live) (Rising-nil (suc m.made))))
  ]
