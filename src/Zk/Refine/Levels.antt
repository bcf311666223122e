-- ===== src/Zk/Refine/Levels.antt =====
-- zk_client.hpp: blocks of steps that may run out of levels, taken apart.
use liboffkv.Base.{◌≡◌, refl, ap, ◌∙◌, Option, none, some}
use liboffkv.Errors.{ok}
use liboffkv.Exec.{◌>>=◌, returned, >>=-eq-ok}
use liboffkv.Zk.Service.{Zk}
use liboffkv.Zk.Session.{State, Run}
use liboffkv.Zk.Erase.{continue_with}

module _ (p : Zk) where
  continue_with-eq-some :
      {A B : Type 0} (r : Option A) (f : A → Run p (Option B)) (t u : State p) {b : B}
      → continue_with p r f t ≡ (ok (some b), u)
      → (a : A) × (r ≡ some a) × (f a t ≡ (ok (some b), u))
  continue_with-eq-some none f t u h = absurd (cc (returned h))
  continue_with-eq-some (some a) f t u h = (a, refl, h)

  pub then-eq-some :
      {A B : Type 0} (m : Run p (Option A)) (f : A → Run p (Option B)) (s u : State p) {b : B}
      → (m >>= λ r. continue_with p r f) s ≡ (ok (some b), u)
      → (a : A) × (t : State p) × (m s ≡ (ok (some a), t)) × (f a t ≡ (ok (some b), u))
  then-eq-some m f s u h =
      let (r, t, ran, rest) = >>=-eq-ok m (λ r. continue_with p r f) s h in
      let (a, e, last) = continue_with-eq-some r f t u rest in
      (a, t, ran ∙ ap (λ q. (ok q, t)) e, last)
