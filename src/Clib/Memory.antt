-- ===== src/Clib/Memory.antt =====
-- clib.cpp: the strings and arrays that the C interface hands out, on the heap. `fails` says which
-- allocations throw `std::bad_alloc`.
pub mod Layout
pub mod Copying
pub mod Leaks
use liboffkv.Base.{
  ℕ, zero, suc, ◌+◌, Bool, true, false, Bytes, List, [], ◌∷◌, ◌++◌, Option, none, some, get_elem?,
  length, map, ◌==◌, if◌then◌else◌,
}
use liboffkv.Errors.{Exception, ok, throw, bad_alloc, undefined}
use liboffkv.Exec.{Exec, pure, raise, ◌>>=◌, ◌>>◌, catch}
use liboffkv.Client.{Int64, Kind, TxnOpResult}

-- `offkv_TxnOpResult`, by the number of its operation.
pub record OpResult : Type 0 where
  pub op : ℕ
  pub version : Int64

-- What an address holds. The array of pointers is filled from the left: these are its elements so far.
pub data Block : Type 0 where
  chars : Bytes → Block
  pointers : List ℕ → Block
  results : List OpResult → Block

-- The blocks by address, none of them at 0, which is the null pointer. Addresses are not used again:
-- `made` is the last one.
pub record Memory : Type 0 where
  pub live : ℕ → Option Block
  pub made : ℕ

abbrev pub set_live : ℕ → Option Block → (ℕ → Option Block) → ℕ → Option Block
set_live p block live x = if x == p then block else live x

-- `delete[]`: of a pointer that is neither null nor live it is undefined behaviour.
abbrev freed : Option Block → ℕ → Exec Memory (Unit {0})
freed none p m = (throw undefined, m)
freed (some block) p m = (ok tt, record m { live = set_live p none m.live })

unfoldable pub delete : ℕ → Exec Memory (Unit {0})
delete zero m = (ok tt, m)
delete (suc p) m = freed (m.live (suc p)) (suc p) m

abbrev element : Option ℕ → Exec Memory ℕ
element none = raise undefined
element (some p) = pure p

abbrev element_of : Option Block → ℕ → Exec Memory ℕ
element_of (some (pointers ps)) i = element (get_elem? ps i)
element_of _ i = raise undefined

-- `r[i]`.
unfoldable pub load : ℕ → ℕ → Exec Memory ℕ
load r i m = element_of (m.live r) i m

abbrev filled : Option Block → ℕ → ℕ → ℕ → Exec Memory (Unit {0})
filled (some (pointers ps)) r i p m =
    if i == length ps
    then (ok tt, record m { live = set_live r (some (pointers (ps ++ p ∷ []))) m.live })
    else (throw undefined, m)
filled _ r i p m = (throw undefined, m)

-- `r[i] = p`, for the next element.
unfoldable pub store : ℕ → ℕ → ℕ → Exec Memory (Unit {0})
store r i p m = filled (m.live r) r i p m

unfoldable pub free_string : ℕ → Exec Memory (Unit {0})
free_string p = delete p

-- The loop of `free_strings`, from index `i` on.
unfoldable pub free_from : ℕ → ℕ → ℕ → Exec Memory (Unit {0})
free_from r i zero = delete r
free_from r i (suc n) = do p ← load r i; free_string p; free_from r (suc i) n

unfoldable pub free_strings : ℕ → ℕ → Exec Memory (Unit {0})
free_strings strings nstrings = free_from strings 0 nstrings

abbrev pub op_number : Kind → ℕ
op_number Kind.create = 0
op_number Kind.set = 1

module _ (fails : ℕ → Bool) where
  unfoldable pub new : Block → Exec Memory ℕ
  new block m = if fails (suc m.made) then (throw bad_alloc, m) else (
    ok (suc m.made),
    record { live = set_live (suc m.made) (some block) m.live; made = suc m.made },
  )

  -- The copy ends with a zero.
  unfoldable pub dup_string : Bytes → Exec Memory ℕ
  dup_string s = new (chars (s ++ 0 ∷ []))

  -- The loop of `dup_strings`, from index `i` on.
  unfoldable pub dup_from : ℕ → ℕ → List Bytes → Exec Memory (Unit {0})
  dup_from r i [] = pure tt
  dup_from r i (s ∷ strings) = do
    p ← catch (dup_string s) (λ e. do free_strings r i; raise e)
    store r i p
    dup_from r (suc i) strings

  unfoldable pub dup_strings : List Bytes → Exec Memory ℕ
  dup_strings strings = do r ← new (pointers []); dup_from r 0 strings; pure r

  unfoldable pub dup_txn_results : List TxnOpResult → Exec Memory ℕ
  dup_txn_results data_ =
      new (results (map (λ r. record { op = op_number r.kind; version = r.version }) data_))
