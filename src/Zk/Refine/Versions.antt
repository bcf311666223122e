-- ===== src/Zk/Refine/Versions.antt =====
-- zk_client.hpp: which versions of an entry the client's `zk::version` stands for.
use liboffkv.Base.{
  ℕ, zero, suc, ◌-◌, ◌%◌, ◌^◌, ◌≤◌, ◌≡◌, ◌≢◌, ◌⊎◌, inl, inr, Bool-cases, true, false, ◌==◌, arith,
}
use liboffkv.Client.{Int64}
use liboffkv.Zk.Session.{version_of, zk_version, expected}
use liboffkv.Zk.Contract.{matches}

-- The version of the caller stands for that of the entry: its lower 32 bits are all zero, which stands
-- for any version, or they are the entry's version.
abbrev pub Accepts : Int64 → ℕ → Type 0
Accepts version data_version = (version % 2 ^ 32 ≡ 0) ⊎ (version % 2 ^ 32 ≡ version_of data_version)

-- A version that fits into an `int32_t` stands for itself.
Accepts-eq :
    (version : Int64) (data_version : ℕ)
    → version ≢ 0
    → version ≤ 2 ^ 31
    → Accepts version data_version
    → version ≡ version_of data_version
Accepts-eq version data_version nz le (inl e) = omega (arith, nz, le, e)
Accepts-eq version data_version nz le (inr e) = omega (arith, nz, le, e)

pub zk_version-Accepts :
    (v data_version : ℕ) → matches (zk_version v) data_version ≡ true → Accepts (suc v) data_version
zk_version-Accepts v data_version h = elim (Bool-cases (v % 2 ^ 32 == 2 ^ 32 - 1)) [
  | inl e ↦
      let all_set : v % 2 ^ 32 ≡ 2 ^ 32 - 1 = ground (arith, e) in inl (omega (arith, all_set))
  | inr e ↦
      let not_all : v % 2 ^ 32 ≢ 2 ^ 32 - 1 = ground (arith, e) in
      let same : v % 2 ^ 32 ≡ data_version = ground (arith, rw e at h) in
      inr (omega (arith, not_all, same))
]

pub zk_version-refuses :
    (v data_version : ℕ)
    → matches (zk_version v) data_version ≡ false
    → ¬ Accepts (suc v) data_version
zk_version-refuses v data_version h accepts = elim (Bool-cases (v % 2 ^ 32 == 2 ^ 32 - 1)) [
  | inl e ↦ cc (rw e at h)
  | inr e ↦
      let not_all : v % 2 ^ 32 ≢ 2 ^ 32 - 1 = ground (arith, e) in
      let other : v % 2 ^ 32 ≢ data_version = ground (arith, rw e at h) in
      elim accepts [ inl z ↦ omega (arith, not_all, z) | inr z ↦ omega (arith, not_all, other, z) ]
]

pub expected-Accepts :
    (version : Int64) (data_version : ℕ)
    → matches (expected version) data_version ≡ true
    → Accepts version data_version
expected-Accepts zero data_version h = inl (omega arith)
expected-Accepts (suc v) data_version h =
    let ne : (suc v == 0) ≡ false = ground arith in
    let down : suc v - 1 ≡ v = omega arith in zk_version-Accepts v data_version (rw (ne, down) at h)

pub expected-refuses :
    (version : Int64) (data_version : ℕ)
    → matches (expected version) data_version ≡ false
    → ¬ Accepts version data_version
expected-refuses zero data_version h = absurd (cc h)
expected-refuses (suc v) data_version h =
    let ne : (suc v == 0) ≡ false = ground arith in
    let down : suc v - 1 ≡ v = omega arith in zk_version-refuses v data_version (rw (ne, down) at h)
