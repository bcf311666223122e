-- ===== src/Zk/Refine/Decided.antt =====
-- zk_client.hpp: what `commit` makes of the reply to its transaction.
use liboffkv.Base.{ℕ, ◌≡◌, ◌≢◌, ap, List, Option, none, some, Bool-cases, inl, inr, get_elem?, ◌==◌}
use liboffkv.Errors.{ok}
use liboffkv.Exec.{returned}
use liboffkv.Client.{TxnOpResult}
use liboffkv.Boundaries.{lower_bound}
use liboffkv.Zk.Service.{Op, Result, Reply, error, transaction_failed, done, fail, Zk}
use liboffkv.Zk.Session.{State}
use liboffkv.Zk.Transactions.{op_results, decide, committed}
use liboffkv.Zk.Contract.{Contract, Agrees, IsAborted, run, all_done}

module _ (p : Zk) (c : Contract p) where
  decide-ne-some :
      (o : Option ℕ) (u i : ℕ) (s s' : State p) (answers : List TxnOpResult)
      → decide p o u i s ≢ (ok (some answers), s')
  decide-ne-some none u i s s' answers h = cc (ap (λ q. q.0) h)
  decide-ne-some (some b) u i s s' answers h = elim (Bool-cases (b == i)) [
    | inl e ↦ cc (ap (λ q. q.0) (rw e at h))
    | inr e ↦ cc (returned (rw e at h))
  ]

  decide-state :
      (o : Option ℕ) (u i : ℕ) (s s' : State p) → decide p o u i s ≡ (ok none, s') → s ≡ s'
  decide-state none u i s s' h = absurd (cc (ap (λ q. q.0) h))
  decide-state (some b) u i s s' h = elim (Bool-cases (b == i)) [
    | inl e ↦ absurd (cc (ap (λ q. q.0) (rw e at h)))
    | inr e ↦ ap (λ q. q.1) (rw e at h)
  ]

  pub committed-AllDone :
      (boundaries : List ℕ) (txn : List Op) (reply : Reply (List Result)) (w after : p.World)
      (s s' : State p) (answers : List TxnOpResult)
      → Agrees txn (c.view w) reply (c.view after)
      → committed p boundaries reply s ≡ (ok (some answers), s')
      → (s ≡ s')
        × ((results : List Result) × (run 0 txn (c.view w) ≡ all_done (c.view after) results)
            × (answers ≡ op_results results))
  unfolding committed
  committed-AllDone boundaries txn (done results) w after s s' answers agrees h =
      (ap (λ q. q.1) h, (results, agrees, cc (returned h)))
  committed-AllDone boundaries txn (fail (error code what)) w after s s' answers agrees h =
      absurd (cc (ap (λ q. q.0) h))
  committed-AllDone boundaries txn (fail (transaction_failed i what)) w after s s' answers agrees
        h =
      absurd (
        decide-ne-some (get_elem? boundaries (lower_bound boundaries i)) (lower_bound boundaries i)
          i s s' answers h)

  -- A turn that is to be repeated has failed.
  pub committed-Aborted :
      (boundaries : List ℕ) (reply : Reply (List Result)) (s s' : State p)
      → committed p boundaries reply s ≡ (ok none, s')
      → (s ≡ s') × IsAborted reply
  unfolding committed
  committed-Aborted boundaries (done results) s s' h = absurd (cc (returned h))
  committed-Aborted boundaries (fail (error code what)) s s' h = absurd (cc (ap (λ q. q.0) h))
  committed-Aborted boundaries (fail (transaction_failed i what)) s s' h = (
    decide-state (get_elem? boundaries (lower_bound boundaries i)) (lower_bound boundaries i) i s s'
        h,
    tt,
  )
