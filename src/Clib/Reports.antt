-- ===== src/Clib/Reports.antt =====
-- clib.cpp, `offkv_commit`: what a C caller learns of a transaction.
use liboffkv.Base.{
  ℕ, suc, ◌-◌, ◌^◌, ◌≡◌, refl, Bool, true, Bool-cases, inl, inr, List, map, some, length,
  if◌then◌else◌,
}
use liboffkv.Errors.{Outcome, ok, throw, txn_failed}
use liboffkv.Exec.{Exec, ◌>>=◌, catch}
use liboffkv.Client.{TxnCheck, TxnOp, TxnOpResult, Transaction}
use liboffkv.Clib.{ℤ, pos, negsuc, to_errcode}
use liboffkv.Clib.Memory.{OpResult, op_number, results, set_live, new, dup_txn_results}
use liboffkv.Clib.Calls.{
  CTxnCheck, CTxnOp, Env, read_checks, read_ops, on_client, answer, if_txn_failed, offkv_commit,
}

-- `OFFKV_ETXN` and `OFFKV_ENOMEM`.
abbrev pub etxn : ℤ
etxn = negsuc 6

abbrev pub enomem : ℤ
enomem = negsuc 8

-- The results as clib.h has them.
abbrev pub c_results : List TxnOpResult → List OpResult
c_results = map (λ r. record { op = op_number r.kind; version = r.version })

module _ {S W : Type 0} (fails : ℕ → Bool) (env : Env S W) where
  -- What a C caller gets, by the outcome of the client's `commit`.
  abbrev pub reported : Outcome (List TxnOpResult) × S → Outcome ℤ × Env S W
  reported (throw (txn_failed i), s) = (
    ok etxn,
    record env {
      client = s;
      txn_result = some (record { results = 0; nresults = 0; failed_op = i });
    },
  )
  reported (throw e, s) = (to_errcode e, record env { client = s })
  reported (ok rs, s) =
      let p = suc env.memory.made in
      if fails p then (ok enomem, record env { client = s }) else (
        ok (pos 0),
        record env {
          client = s;
          memory = record {
            live = set_live p (some (results (c_results rs))) env.memory.live;
            made = p;
          };
          txn_result = some (record { results = p; nresults = length rs; failed_op = 2 ^ 64 - 1 });
        },
      )

  handled :
      (commit : Exec S (List TxnOpResult)) (o : Outcome (List TxnOpResult) × S)
      → commit env.client ≡ o
      → catch (on_client commit >>= answer fails true) (if_txn_failed fails true) env ≡ reported o
  unfolding to_errcode dup_txn_results new
  handled commit (throw (txn_failed i), s) e = rw e refl
  handled commit (throw e, s) h = rw h refl
  handled commit (ok rs, s) h = elim (Bool-cases (fails (suc env.memory.made))) [
    | inl b ↦ rw (h, b) refl
    | inr b ↦ rw (h, b) refl
  ]

  -- If the arguments of `offkv_commit` are valid and `p_result` is not null, then its caller gets
  -- `OFFKV_ETXN` and the index of the failed operation if the client throws `TxnFailed`, and the code
  -- of any other exception with `*p_result` as it was. If the client returns, the caller gets 0
  -- and an array of all the results, or `OFFKV_ENOMEM` if that cannot be allocated.
  pub offkv_commit-reported :
      (commit : Transaction → Exec S (List TxnOpResult)) (checks : List CTxnCheck)
      (ops : List CTxnOp) (cs : List TxnCheck) (os : List TxnOp)
      → read_checks checks ≡ ok cs
      → read_ops ops ≡ ok os
      → offkv_commit fails commit checks ops true env
        ≡ reported (commit (record { checks = cs; ops = os }) env.client)
  unfolding offkv_commit
  offkv_commit-reported commit checks ops cs os e f =
      rw (e, f) (handled (commit (record { checks = cs; ops = os })) _ refl)
