-- ===== src/Util/Laws.antt =====
-- util.hpp: where `split_url` cuts.
use liboffkv.Base.{
  ◌⊎◌, inl, inr, ◌+◌, ◌++◌, take, codes, sym, ap, ◌∙◌, length, ◌≤◌, ℕ, zero, suc, ◌+◌, ◌<◌, true,
  false, Bool-cases, Option-cases, ◌≡◌, refl, ap, ◌⊎◌, inl, inr, Bytes, [], ◌∷◌, ◌++◌, none, some,
  take, drop, length, arith, codes, sym, ◌∙◌,
}
use native.Mathlib.Nat.{zero-add, suc-add}
use liboffkv.Errors.{Exception, ok, throw, invalid_address}
use liboffkv.Errors.{ok, throw, invalid_address}
use liboffkv.Util.{split_url, delim, starts_with, find, delim, split_url}

pub starts_with-append : (p s : Bytes) → starts_with p (p ++ s) ≡ true
unfolding starts_with
starts_with-append [] s = refl
starts_with-append (c ∷ p) s = ground (arith, starts_with-append p s)

pub split_of_starts_with : (p s : Bytes) → starts_with p s ≡ true → p ++ drop (length p) s ≡ s
unfolding starts_with
split_of_starts_with [] s h = refl
split_of_starts_with (c ∷ p) [] h = absurd (cc h)
split_of_starts_with (c ∷ p) (d ∷ s) h = ground (arith, split_of_starts_with p s)

-- The pattern stands in `s` at position `n`.
abbrev pub StandsAt : Bytes → ℕ → Bytes → Type 0
StandsAt p n s = starts_with p (drop n s) ≡ true

find-none : (p s : Bytes) → find p s ≡ none → (n : ℕ) → ¬ StandsAt p n s
unfolding find
find-none p [] h zero = ground arith
find-none p [] h (suc n) = ground arith
find-none p (c ∷ s) h zero = ground arith
find-none p (c ∷ s) h (suc n) = find-none p s (ground arith) n

first_of_suc :
    (p : Bytes) (c : ℕ) (s : Bytes) (k n : ℕ)
    → n ≡ suc k
    → starts_with p (c ∷ s) ≡ false
    → ((m : ℕ) → m < k → ¬ StandsAt p m s)
    → (m : ℕ) → m < n
    → ¬ StandsAt p m (c ∷ s)
first_of_suc p c s k n next e before zero lt = λ h. cc (h, e)
first_of_suc p c s k n next e before (suc m) lt = before m (omega arith)

-- `find` returns the first position at which the pattern stands.
find-some :
    (p s : Bytes) (n : ℕ)
    → find p s ≡ some n
    → StandsAt p n s × ((m : ℕ) → m < n → ¬ StandsAt p m s)
unfolding find
find-some p [] n h = elim (Bool-cases (starts_with p [])) [
  | inl e ↦ let zeroth : n ≡ 0 = ground (arith, h, e) in (rw zeroth e, λ m lt. absurd (omega arith))
  | inr e ↦ absurd (ground (arith, h, e))
]
find-some p (c ∷ s) n h = elim (Bool-cases (starts_with p (c ∷ s))) [
  | inl e ↦ let zeroth : n ≡ 0 = ground (arith, h, e) in (rw zeroth e, λ m lt. absurd (omega arith))
  | inr e ↦ elim (Option-cases (find p s)) [
    | inl f ↦ absurd (ground (arith, h, e, f))
    | inr (k, f) ↦
        let next : n ≡ suc k = ground (arith, h, e, f) in
        let (here, before) = find-some p s k f in
        (rw next here, first_of_suc p c s k n next e before)
  ]
]

length-take-le : (n : ℕ) (s : Bytes) → length (take n s) ≤ n
length-take-le zero s = omega arith
length-take-le (suc n) [] = omega arith
length-take-le (suc n) (c ∷ s) = omega (arith, length-take-le n s)

drop-add : (n k : ℕ) (s : Bytes) → drop (n + k) s ≡ drop k (drop n s)
drop-add zero k s = rw zero-add
drop-add (suc n) zero [] = rw suc-add
drop-add (suc n) (suc k) [] = rw suc-add
drop-add (suc n) k (c ∷ s) = rw suc-add (drop-add n k s)

take-append-drop : (n : ℕ) (s : Bytes) → take n s ++ drop n s ≡ s
take-append-drop zero s = refl
take-append-drop (suc n) [] = refl
take-append-drop (suc n) (c ∷ s) = ap (λ r. c ∷ r) (take-append-drop n s)

abbrev pub no_delim : Exception
no_delim = invalid_address (codes "URL must be of 'protocol://address' format")

-- `url` is `protocol`, "://" and `address`, and no "://" begins within `protocol`.
pub record IsSplit (url protocol address : Bytes) : Type 0 where
  pub whole : url ≡ protocol ++ (delim ++ address)
  pub first : (n : ℕ) → n < length protocol → ¬ StandsAt delim n url

IsSplit-at :
    (url : Bytes) (pos : ℕ)
    → StandsAt delim pos url
    → ((m : ℕ) → m < pos → ¬ StandsAt delim m url)
    → IsSplit url (take pos url) (drop (pos + length delim) url)
IsSplit-at url pos here before = record {
  whole =
      sym (take-append-drop pos url)
      ∙ ap (λ r. take pos url ++ r)
          (sym (split_of_starts_with delim (drop pos url) here)
            ∙ ap (λ r. delim ++ r) (sym (drop-add pos (length delim) url)));
  first = λ n lt. before n (omega (arith, length-take-le pos url));
}

-- `split_url` cuts a URL at its first "://", and throws `InvalidAddress` exactly if there is none.
pub split_url_cases :
    (url : Bytes)
    → ((protocol : Bytes) × (address : Bytes) × (split_url url ≡ ok (protocol, address))
        × IsSplit url protocol address)
      ⊎ ((split_url url ≡ throw no_delim) × ((n : ℕ) → ¬ StandsAt delim n url))
unfolding split_url
split_url_cases url = elim (Option-cases (find delim url)) [
  | inl e ↦ inr (rw (e, split_url), find-none delim url e)
  | inr (pos, e) ↦
      let (here, before) = find-some delim url pos e in
      inl (
        take pos url,
        drop (pos + length delim) url,
        rw (e, split_url),
        IsSplit-at url pos here before,
      )
]
