-- ===== src/Zk/Refine/Erase.antt =====
-- zk_client.hpp: what `erase` does, whatever the other clients of the service do meanwhile.
use liboffkv.Base.{
  ℕ, zero, suc, subst, ◌≡◌, ◌⊎◌, inl, inr, ap, true, false, Bytes, List, ◌++◌, Option, some, Bool,
}
use liboffkv.Errors.{ok}
use liboffkv.Exec.{pure, returned, >>=-eq-ok, ◌>>=◌}
use liboffkv.Key.{KeyPath}
use liboffkv.Client.{Int64}
use liboffkv.Zk.Service.{error, transaction_failed, Reply, done, fail, Op, Result, Zk}
use liboffkv.Zk.Session.{State, Run, call, as_path_string}
use liboffkv.Zk.Erase.{
  throw_no_entry, make_recursive_erase_query, checks, erased, erase_turn, erase_loop, erase,
  again_unless,
}
use liboffkv.Zk.Contract.{Contract, Agrees, IsAborted}
use liboffkv.Zk.Refine.Levels.{then-eq-some}
use liboffkv.Zk.Refine.Query.{make_recursive_erase_query-Extends}
use liboffkv.Zk.Refine.Runs.{Gone}
use liboffkv.Zk.Refine.Checks.{Present, Sends, Gone-checks, Present-checks}

module _ (p : Zk) (c : Contract p) where
  -- At `w` the entry was there: in a version that the caller's stands for, and then it is gone with all below it
  -- and nothing else has changed, or in another version, and then nothing has changed at all.
  abbrev pub Done : Bytes → Int64 → p.World → p.World → Type 0
  Done path version w after =
      (Present path version true (c.view w) × Gone path (c.view w) (c.view after))
      ⊎ (Present path version false (c.view w) × c.Later w after)

  erased-Done :
      (path : Bytes) (version : Int64) (extra : List Op) (reply : Reply (List Result))
      (w after : p.World) (s s' : State p)
      → Sends path version extra
      → Agrees (checks path version ++ extra) (c.view w) reply (c.view after)
      → (IsAborted reply → c.Later w after)
      → erased p reply s ≡ (ok true, s')
      → Done path version w after
  unfolding erased
  erased-Done path version extra (done results) w after s s' sends agrees later h =
      inl (Gone-checks path version extra (c.view w) (c.view after) results sends agrees)
  erased-Done path version extra (fail (transaction_failed zero what)) w after s s' sends agrees
        later h =
      absurd (cc (ap (λ q. q.0) h))
  erased-Done path version extra (fail (transaction_failed (suc zero) what)) w after s s' sends
        agrees later h =
      inr (Present-checks path version extra (c.view w) agrees.0, later tt)
  erased-Done path version extra (fail (transaction_failed (suc (suc i)) what)) w after s s' sends
        agrees later h =
      absurd (cc (returned h))
  erased-Done path version extra (fail (error code what)) w after s s' sends agrees later h =
      absurd (cc (ap (λ q. q.0) h))

  -- A turn that asks for another one has changed nothing.
  erased-Later :
      (reply : Reply (List Result)) (w after : p.World) (s s' : State p)
      → (IsAborted reply → c.Later w after)
      → erased p reply s ≡ (ok false, s')
      → c.Later w after
  unfolding erased
  erased-Later (done results) w after s s' later h = absurd (cc (returned h))
  erased-Later (fail (transaction_failed zero what)) w after s s' later h = later tt
  erased-Later (fail (transaction_failed (suc i) what)) w after s s' later h = later tt
  erased-Later (fail (error code what)) w after s s' later h = absurd (cc (ap (λ q. q.0) h))

  -- How a turn ends, by what it returns.
  abbrev Ends : Bytes → Int64 → State p → State p → Bool → Type 0
  Ends path version s s' true = (w : p.World) × c.Later s.world w × Done path version w s'.world
  Ends path version s s' false = c.Later s.world s'.world

  erased-state :
      (reply : Reply (List Result)) (s s' : State p) (b : Bool)
      → erased p reply s ≡ (ok b, s')
      → s ≡ s'
  unfolding erased
  erased-state (done results) s s' b h = ap (λ q. q.1) h
  erased-state (fail (transaction_failed zero what)) s s' b h = ap (λ q. q.1) h
  erased-state (fail (transaction_failed (suc zero) what)) s s' b h = ap (λ q. q.1) h
  erased-state (fail (transaction_failed (suc (suc i)) what)) s s' b h = ap (λ q. q.1) h
  erased-state (fail (error code what)) s s' b h = ap (λ q. q.1) h

  -- From the query on.
  turn-Ends :
      (path : Bytes) (version : Int64) (extra txn : List Op) (s t s' : State p) (b : Bool)
      → Sends path version extra
      → txn ≡ checks path version ++ extra
      → c.Later s.world t.world
      → erased p (p.commit txn t.world).0 (record t { world = (p.commit txn t.world).1 })
        ≡ (ok b, s')
      → Ends path version s s' b
  turn-Ends path version extra txn s t s' true sends e later h =
      let after : (p.commit txn t.world).1 ≡ s'.world =
        ap (λ (z : State p). z.world)
          (erased-state (p.commit txn t.world).0 (record t { world = (p.commit txn t.world).1 }) s'
            true h) in
      (
        t.world,
        later,
        subst (Done path version t.world) after (
            erased-Done path version extra (p.commit txn t.world).0 t.world (p.commit txn t.world).1
              (record t { world = (p.commit txn t.world).1 }) s' sends
              (subst
                (λ q.
                  Agrees q (c.view t.world) (p.commit txn t.world).0
                    (c.view (p.commit txn t.world).1))
                e (c.commits txn t.world))
              (c.aborts txn t.world) h),
      )
  turn-Ends path version extra txn s t s' false sends e later h =
      let after : (p.commit txn t.world).1 ≡ s'.world =
        ap (λ (z : State p). z.world)
          (erased-state (p.commit txn t.world).0 (record t { world = (p.commit txn t.world).1 }) s'
            false h) in
      subst (c.Later s.world) after (
        c.then_ later (
          erased-Later (p.commit txn t.world).0 t.world (p.commit txn t.world).1
            (record t { world = (p.commit txn t.world).1 }) s' (c.aborts txn t.world) h))

  erase_turn-Ends :
      (depth : ℕ) (path : Bytes) (version : Int64) (s s' : State p) (b : Bool)
      → erase_turn p depth path version s ≡ (ok (some b), s')
      → Ends path version s s' b
  unfolding erase_turn
  erase_turn-Ends depth path version s s' b h =
      let (txn, t, asked, rest) =
        then-eq-some p
          (make_recursive_erase_query p depth throw_no_entry path (checks path version))
          (λ txn. do r ← call p (p.commit txn); finished ← erased p r; pure (some finished)) s s'
          h in
      let (x, ends) =
        make_recursive_erase_query-Extends p c depth throw_no_entry path (checks path version) txn s
          t asked in
      let (finished, u, er, last) =
        >>=-eq-ok (erased p (p.commit txn t.world).0) (λ q. pure (some q))
          (record t { world = (p.commit txn t.world).1 }) rest in
      let value_eq : finished ≡ b = cc (returned last) in
      let state_eq : u ≡ s' = ap (λ q. q.1) last in
      turn-Ends path version x.extra txn s t s' b (x.within, ends) x.appended x.later
        (cc (er, value_eq, state_eq))

  -- What holds of the whole loop.
  abbrev Finished : Bytes → Int64 → State p → State p → Type 0
  Finished path version s s' = (w : p.World) × c.Later s.world w × Done path version w s'.world

  after_turn :
      (path : Bytes) (version : Int64) (again : Run p (Option (Unit {0}))) (finished : Bool)
      (s t s' : State p)
      → Ends path version s t finished
      → (again t ≡ (ok (some tt), s') → Finished path version t s')
      → again_unless p finished again t ≡ (ok (some tt), s')
      → Finished path version s s'
  after_turn path version again true s t s' ends next h =
      subst (Finished path version s) (ap (λ q. q.1) h) ends
  after_turn path version again false s t s' ends next h =
      let (w, later, finished) = next h in (w, c.then_ ends later, finished)

  erase_loop-Done :
      (turns depth : ℕ) (path : Bytes) (version : Int64) (s s' : State p)
      → erase_loop p turns depth path version s ≡ (ok (some tt), s')
      → Finished path version s s'
  unfolding erase_loop
  erase_loop-Done zero depth path version s s' h = absurd (cc (returned h))
  erase_loop-Done (suc turns) depth path version s s' h =
      let (finished, t, ran, rest) =
        then-eq-some p (erase_turn p depth path version)
          (λ finished. again_unless p finished (erase_loop p turns depth path version)) s s' h in
      after_turn path version (erase_loop p turns depth path version) finished s t s'
        (erase_turn-Ends depth path version s t finished ran)
        (λ e. erase_loop-Done turns depth path version t s' e) rest

  -- If `erase` returns, then at some moment during the call the key had an entry: either in the
  -- version that is the lower 32 bits of the caller's, or in any if these are 0, and at that moment
  -- it and all entries below it were erased and no other entry was touched, or in another version,
  -- and then the call has changed nothing.
  pub erase-Done :
      (turns depth : ℕ) (key : KeyPath) (version : Int64) (path : Bytes) (s s' : State p)
      → as_path_string s.prefix key ≡ ok path
      → erase p turns depth key version s ≡ (ok (some tt), s')
      → (w : p.World) × c.Later s.world w × Done path version w s'.world
  unfolding erase
  erase-Done turns depth key version path s s' named h =
      erase_loop-Done turns depth path version s s' (rw (erase, named) at h)
