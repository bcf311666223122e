-- ===== src/Exec.antt =====
-- Methods that change an object or the service behind it, and that may throw: what was done before
-- a throw stays done, so the state comes back beside the exception too.
use liboffkv.Base.{ap, subst, ◌≡◌, refl}
use liboffkv.Errors.{Exception, Outcome, ok, throw}

abbrev pub Exec : Type 0 → Type 0 → Type 0
Exec S A = S → Outcome A × S

module _ {S A : Type 0} where
  abbrev pub pure : A → Exec S A
  pure a s = (ok a, s)

  abbrev pub raise : Exception → Exec S A
  raise e s = (throw e, s)

  abbrev pub lift : Outcome A → Exec S A
  lift r s = (r, s)

module _ {S A B : Type 0} where
  abbrev pub continue : Outcome A → (next : A → Exec S B) → Exec S B
  continue (throw raised) next after = (throw raised, after)
  continue (ok value) next after = next value after

  infixl 5 ◌>>=◌ ◌>>◌
  abbrev pub ◌>>=◌ : (step : Exec S A) → (next : A → Exec S B) → Exec S B
  ◌>>=◌ step next before = continue (step before).0 next (step before).1

  abbrev pub ◌>>◌ : (step : Exec S A) → (next : Exec S B) → Exec S B
  ◌>>◌ step next before = continue (step before).0 (λ _. next) (step before).1

module _ {S A : Type 0} where
  abbrev pub handle : Outcome A → (Exception → Exec S A) → Exec S A
  handle (ok a) h s = (ok a, s)
  handle (throw e) h s = h e s

  -- `try { m } catch (e) { h(e) }`.
  abbrev pub catch : Exec S A → (Exception → Exec S A) → Exec S A
  catch m h s = handle (m s).0 h (m s).1

module _ {S A B : Type 0} where
  continue-eq-ok :
      (r : Outcome A) (f : A → Exec S B) (t : S) {b : B} {s' : S}
      → continue r f t ≡ (ok b, s')
      → (a : A) × (r ≡ ok a) × (f a t ≡ (ok b, s'))
  continue-eq-ok (ok a) f t h = (a, refl, h)
  continue-eq-ok (throw e) f t h = absurd (cc (ap (λ q. q.0) h))

  -- A block that returns has returned at each step.
  pub >>=-eq-ok :
      (m : Exec S A) (f : A → Exec S B) (s : S) {b : B} {s' : S}
      → (m >>= f) s ≡ (ok b, s')
      → (a : A) × (t : S) × (m s ≡ (ok a, t)) × (f a t ≡ (ok b, s'))
  >>=-eq-ok m f s h =
      let (a, e, rest) = continue-eq-ok (m s).0 f (m s).1 h in
      (a, (m s).1, ap (λ r. (r, (m s).1)) e, rest)

module _ {S B : Type 0} where
  pub returned : {b b' : B} {s s' : S} → Path (Outcome B × S) (ok b, s) (ok b', s') → b ≡ b'
  returned h = cc (ap (λ q. q.0) h)

  -- What holds at the end of a block holds of what it returns, too.
  pub subst-returned :
      (P : B → S → Type 0) {b b' : B} {s s' : S}
      → Path (Outcome B × S) (ok b, s) (ok b', s')
      → P b s
      → P b' s'
  subst-returned P {b' = b'} {s = s} h holds =
      subst (λ t. P b' t) (ap (λ q. q.1) h) (subst (λ a. P a s) (returned h) holds)
