-- ===== src/Zk/Refine/Checks.antt =====
-- zk_client.hpp, `erase`: what the checks at the beginning of its transaction tell.
use liboffkv.Base.{
  ◌≡◌, inl, inr, sym, ap, ◌∙◌, subst, true, false, Bytes, List, [], ◌∷◌, ◌++◌, none, some, arith,
  All, Bool,
}
use liboffkv.Client.{Int64}
use liboffkv.Zk.Service.{Op, Result}
use liboffkv.Zk.Session.{expected}
use liboffkv.Zk.Erase.{checks}
use liboffkv.Zk.Refine.Versions.{Accepts, expected-Accepts, expected-refuses}
use liboffkv.Zk.Contract.{run, all_done, failed_at}
use liboffkv.Zk.Contract.Store.{Node, lookup}
use liboffkv.Zk.Refine.Query.{ErasesWithin}
use liboffkv.Zk.Refine.Runs.{
  Gone, run-cons-all_done, run-cons-failed_at, run-failed_at-le, run-Gone, apply-check,
  apply-check_none,
}

-- The entry is at the path, in a version that the caller's stands for or not.
abbrev pub Present : Bytes → Int64 → Bool → List Node → Type 0
Present path version true s = (n : Node) × (lookup path s ≡ some n) × Accepts version n.data_version
Present path version false s =
    (n : Node) × (lookup path s ≡ some n) × ¬ Accepts version n.data_version

abbrev pub Sends : Bytes → Int64 → List Op → Type 0
Sends path version extra =
    All (ErasesWithin path) extra × ((more : List Op) × (extra ≡ more ++ Op.erase path ∷ []))

-- The transaction has run.
pub Gone-checks :
    (path : Bytes) (version : Int64) (extra : List Op) (s t : List Node) (rs : List Result)
    → Sends path version extra
    → run 0 (checks path version ++ extra) s ≡ all_done t rs
    → Present path version true s × Gone path s t
Gone-checks path version extra s t rs (a, (more, ends)) h =
    let (u, r, out, e, _, ran) =
      run-cons-all_done 0 (Op.check path none) (Op.check path (expected version) ∷ extra) s t rs
        h in
    let (v, q, out', f, _, ran') =
      run-cons-all_done 1 (Op.check path (expected version)) extra u t out ran in
    let (same, _) = apply-check path none s u r e in
    let (same', (n, found, matched)) = apply-check path (expected version) u v q f in
    (
      subst (Present path version true) same
          (n, found, expected-Accepts version n.data_version matched),
      subst (λ z. Gone path z t) (same' ∙ same) (run-Gone 2 path extra more v t out' a ends ran'),
    )

-- It has failed at the check of the version.
pub Present-checks :
    (path : Bytes) (version : Int64) (extra : List Op) (s : List Node)
    → run 0 (checks path version ++ extra) s ≡ failed_at 1
    → Present path version false s
Present-checks path version extra s h =
    elim (run-cons-failed_at 0 1 (Op.check path none) (Op.check path (expected version) ∷ extra) s
      h) [
        | inl (e, _) ↦ absurd (omega (arith, e))
        | inr (u, r, e, ran) ↦
            let (same, (n, there, _)) = apply-check path none s u r e in
            elim (run-cons-failed_at 1 1 (Op.check path (expected version)) extra u ran) [
              | inr (v, q, _, ran') ↦ absurd (omega (arith, run-failed_at-le 2 1 extra v ran'))
              | inl (_, f) ↦ elim (apply-check_none path (expected version) u f) [
                | inl gone ↦ absurd (cc (sym gone ∙ ap (lookup path) same ∙ there))
                | inr (m, found, refused) ↦ (
                  m,
                  ap (lookup path) (sym same) ∙ found,
                  expected-refuses version m.data_version refused,
                )
              ]
            ]
      ]

-- It has failed at the first check.
pub none-checks :
    (path : Bytes) (version : Int64) (extra : List Op) (s : List Node)
    → run 0 (checks path version ++ extra) s ≡ failed_at 0
    → lookup path s ≡ none
none-checks path version extra s h =
    elim (run-cons-failed_at 0 0 (Op.check path none) (Op.check path (expected version) ∷ extra) s
      h) [
        | inr (u, r, e, ran) ↦
            absurd
              (omega (arith, run-failed_at-le 1 0 (Op.check path (expected version) ∷ extra) u ran))
        | inl (_, e) ↦ elim (apply-check_none path none s e) [
          | inl gone ↦ gone
          | inr (m, found, refused) ↦ absurd (cc refused)
        ]
      ]
