-- ===== src/Clib/Errcode.antt =====
-- clib.cpp: the codes of the errors, and what a C caller can tell from a returned number.
use liboffkv.Base.{ℕ, ◌≡◌, refl, ap, ◌∙◌, Bool, Bytes, arith}
use liboffkv.Errors.{
  Exception, Outcome, ok, throw, foreign, undefined, invalid_address, invalid_key, no_entry,
  entry_exists, no_children_for_ephemeral, connection_loss, txn_failed, service_error, bad_alloc,
}
use liboffkv.Exec.{Exec, lift, >>=-eq-ok}
use liboffkv.Key.{KeyPath, make_key}
use liboffkv.Client.{Int64}
use liboffkv.Clib.{ℤ, pos, signed, to_errcode, or_errcode, offkv_create, with_key}

to_errcode-not_pos : (e : Exception) (n : ℕ) → ¬ (to_errcode e ≡ ok (pos n))
unfolding to_errcode
to_errcode-not_pos (invalid_address what) n h = cc
to_errcode-not_pos (invalid_key what) n h = cc
to_errcode-not_pos no_entry n h = cc
to_errcode-not_pos entry_exists n h = cc
to_errcode-not_pos no_children_for_ephemeral n h = cc
to_errcode-not_pos connection_loss n h = cc
to_errcode-not_pos (txn_failed i) n h = cc
to_errcode-not_pos (service_error what) n h = cc
to_errcode-not_pos bad_alloc n h = cc
to_errcode-not_pos (foreign what) n h = cc
to_errcode-not_pos undefined n h = cc

or_errcode-pos :
    {A : Type 0} (f : A → ℤ) (r : Outcome A) (n : ℕ)
    → or_errcode f r ≡ ok (pos n)
    → (a : A) × (r ≡ ok a) × (f a ≡ pos n)
unfolding or_errcode
or_errcode-pos f (ok a) n h = (a, refl, cc h)
or_errcode-pos f (throw e) n h = absurd (to_errcode-not_pos e n h)

signed-pos : (v n : ℕ) → signed v ≡ pos n → v ≡ n
unfolding signed
signed-pos v n h = ground (arith, h)

-- A call of `offkv_create` that returns a number that is not negative has created the key: the key
-- is valid, and `create` has returned this number as the version.
pub offkv_create-pos :
    {S : Type 0} (create : KeyPath → Bytes → Bool → Exec S Int64) (key value : Bytes) (lease : Bool)
    (s : S) (n : ℕ)
    → (offkv_create create key value lease s).0 ≡ ok (pos n)
    → (k : KeyPath) × (make_key key ≡ ok k) × ((create k value lease s).0 ≡ ok n)
unfolding offkv_create
offkv_create-pos {S = S} create key value lease s n h =
    let m : Exec S Int64 = with_key key (λ k. create k value lease) in
    let (v, done, same) = or_errcode-pos signed (m s).0 n h in
    let (k, t, is_key, rest) =
      >>=-eq-ok (lift (make_key key)) (λ k. create k value lease) s
        (ap (λ (o : Outcome Int64). (o, (m s).1)) done) in
    (
      k,
      ap (λ q. q.0) is_key,
      ap (λ u. (create k value lease u).0) (ap (λ q. q.1) is_key)
          ∙ ap (λ q. q.0) rest
          ∙ ap ok (signed-pos v n same),
    )
