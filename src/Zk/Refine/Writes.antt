-- ===== src/Zk/Refine/Writes.antt =====
-- zk_client.hpp: what `set` and `cas` do to the entries.
use liboffkv.Base.{
  ℕ, zero, suc, ◌+◌, ◌-◌, ◌^◌, ◌≡◌, ◌⊎◌, inl, inr, refl, ap, Bytes, none, some, false, arith, ◌==◌,
}
use liboffkv.Errors.{ok, entry_exists}
use liboffkv.Exec.{pure, raise, subst-returned, ◌>>=◌, ◌>>◌, catch}
use liboffkv.Key.{KeyPath}
use liboffkv.Client.{Int64, CasResult}
use liboffkv.Zk.Service.{ErrorCode, version_mismatch, error, Reply, done, fail, normal, Zk}
use liboffkv.Zk.Session.{State, Run, as_path_string, version_of, zk_version, rethrow, or_throw}
use liboffkv.Zk.Methods.{overwritten, overwrite, set, compared, compare_and_set, cas, create}
use liboffkv.Zk.Contract.{Contract, Creates, Sets, IsFailure}
use liboffkv.Zk.Contract.Store.{Node, Has, lookup}
use liboffkv.Zk.Refine.Versions.{Accepts, zk_version-Accepts, zk_version-refuses}
use liboffkv.Zk.Refine.Written.{Written, create-Written, set-Written}

module _ (p : Zk) (c : Contract p) where
  -- At `w`: the key is created, or its value replaced, or it had just been erased by another
  -- client, and the call leaves that so and returns a large number.
  abbrev pub SetDone : Bytes → Bytes → Int64 → p.World → p.World → Type 0
  SetDone path value version w after =
      ((lookup path (c.view w) ≡ none)
        × (version ≡ 1)
        × Written path value version (c.view w) (c.view after))
      ⊎ ((n : Node) × (lookup path (c.view w) ≡ some n)
          × (version ≡ version_of n.data_version + 1)
          × Written path value version (c.view w) (c.view after))
      ⊎ ((lookup path (c.view w) ≡ none) × (version ≡ 2 ^ 62) × c.Later w after)

  overwritten-SetDone :
      (path value : Bytes) (w : p.World) (reply : Reply ℕ) (s s' : State p) (version : Int64)
      → Sets path value none (c.view w) reply (c.view s.world)
      → (IsFailure reply → c.Later w s.world)
      → overwritten p reply s ≡ (ok version, s')
      → SetDone path value version w s'.world
  unfolding overwritten
  overwritten-SetDone path value w (done v) s s' version sets later h =
      let (n, found, _, raised, written) =
        set-Written path value none (c.view w) (c.view s.world) v sets in
      subst-returned (λ q t. SetDone path value q w t.world) h
        (inr (inl (n, found, omega (arith, raised), written)))
  overwritten-SetDone path value w (fail (error ErrorCode.no_entry what)) s s' version sets later
        h =
      subst-returned (λ q t. SetDone path value q w t.world) h (inr (inr (sets, refl, later tt)))
  overwritten-SetDone path value w (fail f) s s' version sets later h =
      absurd (cc (ap (λ q. q.0) h))

  overwrite-SetDone :
      (path value : Bytes) (u : p.World) (reply : Reply (Unit {0})) (s s' : State p)
      (version : Int64)
      → Creates path value normal (c.view u) reply (c.view s.world)
      → (IsFailure reply → c.Later u s.world)
      → overwrite p path value reply s ≡ (ok version, s')
      → (w : p.World) × c.Later u w × SetDone path value version w s'.world
  unfolding overwrite
  overwrite-SetDone path value u (done _) s s' version creates later h =
      subst-returned (λ q t. (w : p.World) × c.Later u w × SetDone path value q w t.world) h
        (
          u,
          c.same u,
          inl (
            (create-Written path value normal (c.view u) (c.view s.world) creates).0,
            refl,
            (create-Written path value normal (c.view u) (c.view s.world) creates).1,
          ),
        )
  overwrite-SetDone path value u (fail (error ErrorCode.entry_exists what)) s s' version creates
        later h =
      (
        s.world,
        later tt,
        overwritten-SetDone path value s.world (p.set path value none s.world).0
            (record s { world = (p.set path value none s.world).1 }) s' version
            (c.sets path value none s.world) (c.refuses_set path value none s.world) h,
      )
  overwrite-SetDone path value u (fail f) s s' version creates later h =
      absurd (cc (ap (λ q. q.0) h))

  -- If `set` returns, then at some moment during the call the key had no entry, and `set` created
  -- it with the value, or it had one, and `set` replaced its value and returns the next
  -- version; no other entry was touched. Or another client had just erased the key, and then `set`
  -- has changed nothing and returns 2 ^ 62.
  pub set-SetDone :
      (key : KeyPath) (value path : Bytes) (s s' : State p) (version : Int64)
      → as_path_string s.prefix key ≡ ok path
      → set p key value s ≡ (ok version, s')
      → (w : p.World) × c.Later s.world w × SetDone path value version w s'.world
  unfolding set
  set-SetDone key value path s s' version named h =
      overwrite-SetDone path value s.world (p.create path value normal s.world).0
        (record s { world = (p.create path value normal s.world).1 }) s' version
        (c.creates path value normal s.world) (c.refuses_create path value normal s.world)
        (rw (set, named) at h)

  -- At `w`: with the version 0 the key is created if it was not there, and with any other version its
  -- value is replaced if its version is one that this version stands for. Else nothing changes, and the answer is 0.
  abbrev pub CasDone : Bytes → Bytes → (expected answer : Int64) → p.World → p.World → Type 0
  CasDone path value zero answer w after =
      ((lookup path (c.view w) ≡ none)
        × (answer ≡ 1)
        × Written path value answer (c.view w) (c.view after))
      ⊎ (Has path (c.view w) × (answer ≡ 0) × c.Later w after)
  CasDone path value (suc v) answer w after =
      ((n : Node) × (lookup path (c.view w) ≡ some n)
        × Accepts (suc v) n.data_version
        × (answer ≡ version_of n.data_version + 1)
        × Written path value answer (c.view w) (c.view after))
      ⊎ ((n : Node) × (lookup path (c.view w) ≡ some n)
          × ¬ Accepts (suc v) n.data_version
          × (answer ≡ 0)
          × c.Later w after)

  compared-CasDone :
      (path value : Bytes) (v : ℕ) (w : p.World) (reply : Reply ℕ) (s s' : State p)
      (answer : CasResult)
      → Sets path value (zk_version v) (c.view w) reply (c.view s.world)
      → (IsFailure reply → c.Later w s.world)
      → compared p reply s ≡ (ok answer, s')
      → CasDone path value (suc v) answer.version w s'.world
  unfolding compared
  compared-CasDone path value v w (done raised_to) s s' answer sets later h =
      let (n, found, matched, raised, written) =
        set-Written path value (zk_version v) (c.view w) (c.view s.world) raised_to sets in
      subst-returned
        (λ (q : CasResult) (t : State p). CasDone path value (suc v) q.version w t.world) h
        (inl
          (n, found, zk_version-Accepts v n.data_version matched, omega (arith, raised), written))
  compared-CasDone path value v w (fail (error version_mismatch what)) s s' answer
        (n, found, unmatched) later h =
      subst-returned
        (λ (q : CasResult) (t : State p). CasDone path value (suc v) q.version w t.world) h
        (inr (n, found, zk_version-refuses v n.data_version unmatched, refl, later tt))
  compared-CasDone path value v w (fail f) s s' answer sets later h = absurd (cc (ap (λ q. q.0) h))

  -- The creation in `cas`, from the reply on.
  abbrev created : Reply (Unit {0}) → Run p CasResult
  created reply =
      catch (do v ← (do or_throw p rethrow reply; pure 1); pure (record { version = v }))
        (λ e. elim e [ entry_exists ↦ pure (record { version = 0 }) | other ↦ raise other ])

  created-CasDone :
      (path value : Bytes) (w : p.World) (reply : Reply (Unit {0})) (s s' : State p)
      (answer : CasResult)
      → Creates path value normal (c.view w) reply (c.view s.world)
      → (IsFailure reply → c.Later w s.world)
      → created reply s ≡ (ok answer, s')
      → CasDone path value zero answer.version w s'.world
  unfolding rethrow
  created-CasDone path value w (done _) s s' answer creates later h =
      let (absent, written) =
        create-Written path value normal (c.view w) (c.view s.world) creates in
      subst-returned (λ (q : CasResult) (t : State p). CasDone path value zero q.version w t.world)
        h (inl (absent, refl, written))
  created-CasDone path value w (fail (error ErrorCode.entry_exists what)) s s' answer there later
        h =
      subst-returned (λ (q : CasResult) (t : State p). CasDone path value zero q.version w t.world)
        h (inr (there, refl, later tt))
  created-CasDone path value w (fail f) s s' answer creates later h = absurd (cc (ap (λ q. q.0) h))

  -- If `cas` returns, then with the version 0 it has created the key, which had no entry, and returns
  -- 1, or the key had an entry; with another version it has replaced the value of the entry, whose
  -- version is the lower 32 bits of that version, or any if these are 0, and returns the version
  -- after the entry's, or the entry had another version. In the second cases it returns 0 and has
  -- changed nothing.
  pub cas-CasDone :
      (key : KeyPath) (value path : Bytes) (version : Int64) (s s' : State p) (answer : CasResult)
      → as_path_string s.prefix key ≡ ok path
      → cas p key value version s ≡ (ok answer, s')
      → CasDone path value version answer.version s.world s'.world
  unfolding cas create compare_and_set
  cas-CasDone key value path zero s s' answer named h =
      created-CasDone path value s.world (p.create path value normal s.world).0
        (record s { world = (p.create path value normal s.world).1 }) s' answer
        (c.creates path value normal s.world) (c.refuses_create path value normal s.world)
        (rw (cas, create, named) at h)
  cas-CasDone key value path (suc v) s s' answer named h =
      let ne : (suc v == 0) ≡ false = ground arith in
      let down : suc v - 1 ≡ v = omega arith in
      let direct : compare_and_set p key value (suc v) s ≡ (ok answer, s') = rw (cas, ne) at h in
      compared-CasDone path value v s.world (p.set path value (zk_version v) s.world).0
        (record s { world = (p.set path value (zk_version v) s.world).1 }) s' answer
        (c.sets path value (zk_version v) s.world) (c.refuses_set path value (zk_version v) s.world)
        (rw (compare_and_set, named, down) at direct)
