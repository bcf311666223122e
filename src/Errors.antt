-- ===== src/Errors.antt =====
-- errors.hpp: the exceptions, and the outcome of code that may throw.
use liboffkv.Base.{ℕ, Bytes, ◌≡◌, refl, ◌⊎◌, inl, inr}

-- The classes of errors.hpp, `std::bad_alloc`, and any other `std::exception` by its text: the
-- client libraries' own errors and `std::logic_error` are of this kind. `undefined` is
-- no exception: it marks undefined behaviour, such as `back()` of an empty vector.
pub data Exception : Type 0 where
  invalid_address : Bytes → Exception
  invalid_key : Bytes → Exception
  no_entry : Exception
  entry_exists : Exception
  no_children_for_ephemeral : Exception
  connection_loss : Exception
  txn_failed : ℕ → Exception
  service_error : Bytes → Exception
  bad_alloc : Exception
  foreign : Bytes → Exception
  undefined : Exception

pub data Outcome {ℓ} (A : Type ℓ) : Type ℓ where
  ok : A → Outcome A
  throw : Exception → Outcome A

module _ {ℓ κ} {A : Type ℓ} {B : Type κ} where
  infixl 5 ◌>>=◌
  -- A throw skips what follows it.
  abbrev pub ◌>>=◌ : (step : Outcome A) → (next : A → Outcome B) → Outcome B
  throw raised >>= next = throw raised
  ok value >>= next = next value

  -- A block that returns ran what follows on the value of a step that returned.
  pub >>=-eq-ok :
      {result : B} (step : Outcome A) (next : A → Outcome B)
      → (step >>= next) ≡ ok result
      → (value : A) × (step ≡ ok value) × (next value ≡ ok result)
  >>=-eq-ok (throw raised) next returned = cc
  >>=-eq-ok (ok value) next returned = (value, refl, returned)

pub Outcome-cases {ℓ} :
    {A : Type ℓ} (o : Outcome A) → ((a : A) × (o ≡ ok a)) ⊎ ((e : Exception) × (o ≡ throw e))
Outcome-cases (ok a) = inl (a, refl)
Outcome-cases (throw e) = inr (e, refl)
