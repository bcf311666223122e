-- ===== src/Clib.antt =====
-- clib.cpp: how the C interface returns the outcomes of the C++ one.
pub mod Errcode
pub mod Memory
pub mod Calls
pub mod Reports
mod Examples
use liboffkv.Base.{
  ℕ, ◌-◌, ◌^◌, suc, Bool, true, false, Bytes, codes, Option, none, some, List, [], ◌∷◌, get_elem?,
  ltb, ◌==◌, if◌then◌else◌,
}
use liboffkv.Errors.{
  Exception, invalid_address, invalid_key, no_entry, entry_exists, no_children_for_ephemeral,
  connection_loss, txn_failed, service_error, bad_alloc, foreign, undefined, Outcome, ok, throw,
  ◌>>=◌,
}
use liboffkv.Exec.{Exec, lift, ◌>>=◌ as ◌>>>=◌}
use liboffkv.Key.{KeyPath, make_key}
use liboffkv.Client.{Int64, int64_mod, CasResult, cas_bool}

-- A signed number: `negsuc n` is -1 - n.
pub data ℤ : Type 0 where
  pos : ℕ → ℤ
  negsuc : ℕ → ℤ

-- The number with a 64-bit pattern.
unfoldable pub signed : Int64 → ℤ
signed v = if ltb v (2 ^ 63) then pos v else negsuc (int64_mod - 1 - v)

-- What is not an exception of the library is thrown on.
unfoldable pub to_errcode : Exception → Outcome ℤ
to_errcode (invalid_address what) = ok (negsuc 0)
to_errcode (invalid_key what) = ok (negsuc 1)
to_errcode no_entry = ok (negsuc 2)
to_errcode entry_exists = ok (negsuc 3)
to_errcode no_children_for_ephemeral = ok (negsuc 4)
to_errcode connection_loss = ok (negsuc 5)
to_errcode (txn_failed index) = ok (negsuc 6)
to_errcode (service_error what) = ok (negsuc 7)
to_errcode bad_alloc = ok (negsuc 8)
to_errcode (foreign what) = throw (foreign what)
to_errcode undefined = throw undefined

-- The cases of the `switch`, from -1 down.
abbrev descriptions : List Bytes
descriptions =
    codes "invalid address"
    ∷ codes "invalid key"
    ∷ codes "no entry"
    ∷ codes "entry exists"
    ∷ codes "attempt to create a child of ephemeral node"
    ∷ codes "connection loss"
    ∷ codes "transaction failed"
    ∷ codes "service error"
    ∷ codes "out of memory"
    ∷ []

unfoldable pub error_descr : ℤ → Option Bytes
error_descr (pos n) = none
error_descr (negsuc n) = get_elem? descriptions n

-- `try { return f(m); } catch (const std::exception &e) { return to_errcode(e); }`.
unfoldable pub or_errcode : {A : Type 0} → (A → ℤ) → Outcome A → Outcome ℤ
or_errcode f (ok a) = ok (f a)
or_errcode f (throw e) = to_errcode e

-- The outcome of a method in the state that the method leaves.
abbrev pub returning : {S A : Type 0} → (A → ℤ) → Exec S A → Exec S ℤ
returning f m s = (or_errcode f (m s).0, (m s).1)

-- The conversion of a C string to a `Key`, inside the `try`.
abbrev pub with_key : {S A : Type 0} → Bytes → (KeyPath → Exec S A) → Exec S A
with_key key m = lift (make_key key) >>>= m

module _ {S : Type 0} where
  -- `lease` is `flags & OFFKV_LEASE`.
  unfoldable pub offkv_create :
      (KeyPath → Bytes → Bool → Exec S Int64) → Bytes → Bytes → Bool → Exec S ℤ
  offkv_create create key value lease = returning signed (with_key key (λ k. create k value lease))

  unfoldable pub offkv_set : (KeyPath → Bytes → Exec S Int64) → Bytes → Bytes → Exec S ℤ
  offkv_set set key value = returning signed (with_key key (λ k. set k value))

  unfoldable pub offkv_erase : (KeyPath → Int64 → Exec S (Unit {0})) → Bytes → Int64 → Exec S ℤ
  offkv_erase erase key version = returning (λ _. pos 0) (with_key key (λ k. erase k version))

  unfoldable pub offkv_cas :
      (KeyPath → Bytes → Int64 → Exec S CasResult) → Bytes → Bytes → Int64 → Exec S ℤ
  offkv_cas cas key value version =
      returning (λ r. if cas_bool r then signed r.version else pos 0)
        (with_key key (λ k. cas k value version))
