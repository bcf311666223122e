-- ===== src/Client/Interface.antt =====
-- client.hpp: the class `Client`, and what its methods promise over a tree of entries.
use liboffkv.Base.{
  ℕ, ◌≡◌, refl, ◌∙◌, subst, ◌⊎◌, inl, inr, Bool, true, false, Bytes, List, [], ◌∷◌, ◌++◌, Option,
  none, some, All, arith,
}
use liboffkv.Errors.{Outcome, ok, throw, no_entry}
use liboffkv.Exec.{Exec}
use liboffkv.Key.{KeyPath}
use liboffkv.Key.Segments.{IsSegment, IsKey, IsKey-snoc, of_segments}
use liboffkv.Key.Descendants.{is_below}
use liboffkv.Client.{
  Int64, ExistsResult, ChildrenResult, GetResult, CasResult, Transaction, TxnOpResult,
}
use liboffkv.Client.Spec.{
  Tree, Unchanged, IsServiceFailure, Creates, Sets, Compares, Erases, Gets, Exists,
}

-- The methods of a client with the state `S`, which includes the service's, and the watches `W`. A
-- `set` or `commit` that tries again returns `none` if its turns are used up.
pub record Client (S W : Type 0) : Type 0 where
  pub create : KeyPath → (value : Bytes) → (lease : Bool) → Exec S Int64
  pub exists : KeyPath → (watch : Bool) → Exec S (ExistsResult W)
  pub get_children : KeyPath → (watch : Bool) → Exec S (ChildrenResult W)
  pub set : KeyPath → (value : Bytes) → Exec S (Option Int64)
  pub get : KeyPath → (watch : Bool) → Exec S (GetResult W)
  pub cas : KeyPath → (value : Bytes) → (version : Int64) → Exec S CasResult
  pub erase : KeyPath → (version : Int64) → Exec S (Unit {0})
  pub commit : Transaction → Exec S (Option (List TxnOpResult))

-- `set` has ended, and has done what it promises. Where it is `hopeless` it may also go on until its
-- turns are used up, with nothing changed.
abbrev pub Settles :
    (hopeless : Type 0) (before after : Tree) (up : List Bytes) (last value : Bytes)
    → Outcome (Option Int64)
    → Type 0
Settles hopeless before after up last value (ok none) = hopeless × Unchanged before after
Settles hopeless before after up last value (ok (some n)) = Sets before after up last value (ok n)
Settles hopeless before after up last value (throw e) = Sets before after up last value (throw e)

-- Every method does to the tree of entries what is promised of it, from each state that is ready.
-- `Hopeless` tells for which keys and values `set` need not end.
pub record KeepsSpec {S W : Type 0} (client : Client S W) (tree : S → Tree) (Ready : S → Type 0)
    (Hopeless : (up : List Bytes) → (last value : Bytes) → Type 0) : Type 0 where
  pub creates :
      (up : List Bytes) (last value : Bytes) (s : S)
      → All IsSegment (up ++ last ∷ [])
      → Ready s
      → let r = client.create (of_segments (up ++ last ∷ [])) value false s in
        Creates (tree s) (tree r.1) up last value r.0 × Ready r.1
  pub sets :
      (up : List Bytes) (last value : Bytes) (s : S)
      → All IsSegment (up ++ last ∷ [])
      → Ready s
      → let r = client.set (of_segments (up ++ last ∷ [])) value s in
        Settles (Hopeless up last value) (tree s) (tree r.1) up last value r.0
  pub compares :
      (up : List Bytes) (last value : Bytes) (version : ℕ) (s : S)
      → All IsSegment (up ++ last ∷ [])
      → Ready s
      → let r = client.cas (of_segments (up ++ last ∷ [])) value version s in
        Compares (tree s) (tree r.1) up last value version r.0
  pub erases :
      (k : List Bytes) (version : ℕ) (s : S)
      → IsKey k
      → Ready s
      → let r = client.erase (of_segments k) version s in
        Erases (tree s) (tree r.1) k version r.0 × Ready r.1
  pub gets :
      (k : List Bytes) (watch : Bool) (s : S)
      → IsKey k
      → Ready s
      → let r = client.get (of_segments k) watch s in Gets (tree s) (tree r.1) k r.0
  pub tells :
      (k : List Bytes) (watch : Bool) (s : S)
      → IsKey k
      → Ready s
      → let r = client.exists (of_segments k) watch s in Exists (tree s) (tree r.1) k r.0

-- What was put is read, or the service fails.
abbrev pub GotBack : {W : Type 0} → Bytes → Int64 → Outcome (GetResult W) → Type 0
GotBack value version (ok r) = (r.value ≡ value) × (r.version ≡ version)
GotBack value version (throw e) = IsServiceFailure e

Gets-GotBack :
    {W : Type 0} (before after : Tree) (k : List Bytes) {value : Bytes} {version : ℕ}
    (o : Outcome (GetResult W))
    → before k ≡ some (value, version)
    → Gets before after k o
    → GotBack value version o
Gets-GotBack before after k (ok r) there (found, _) =
    (ground (arith, there, found), ground (arith, there, found))
Gets-GotBack before after k (throw no_entry) there (gone, _) = cc (there, gone)
Gets-GotBack before after k (throw _) there h = h

-- The key does not exist, or the service fails.
abbrev pub IsGone : {W : Type 0} → Outcome (ExistsResult W) → Type 0
IsGone (ok r) = r.version ≡ 0
IsGone (throw e) = IsServiceFailure e

Exists-IsGone :
    {W : Type 0} (before after : Tree) (k : List Bytes) (o : Outcome (ExistsResult W))
    → before k ≡ none
    → Exists before after k o
    → IsGone o
Exists-IsGone before after k (ok r) gone (told, _) = told ∙ rw gone refl
Exists-IsGone before after k (throw e) gone h = h

Erases-gone :
    (before after : Tree) (k j : List Bytes)
    → IsKey j
    → (j ≡ k) ⊎ (is_below k j ≡ true)
    → Erases before after k 0 (ok tt)
    → after j ≡ none
Erases-gone before after k j key at (inr (nz, _, _)) = absurd (nz refl)
Erases-gone before after k j key (inl same) (inl (_, _, (gone, _, _))) = rw same gone
Erases-gone before after k [] key (inr below) (inl (_, _, (_, all, _))) = absurd (key.nonempty refl)
Erases-gone before after k (t ∷ ts) key (inr below) (inl (_, _, (_, all, _))) =
    all t ts key.valid below

module _ {S W : Type 0} (client : Client S W) (tree : S → Tree) (Ready : S → Type 0)
    (Hopeless : List Bytes → (last value : Bytes) → Type 0)
    (keeps : KeepsSpec client tree Ready Hopeless) (watch : Bool) (s s' : S) (ready : Ready s) where
  -- What `create` has put under a key, the next `get` reads.
  pub create-get :
      (up : List Bytes) (last value : Bytes) (n : Int64)
      → All IsSegment (up ++ last ∷ [])
      → client.create (of_segments (up ++ last ∷ [])) value false s ≡ (ok n, s')
      → GotBack value n (client.get (of_segments (up ++ last ∷ [])) watch s').0
  create-get up last value n w e =
      let (done, ready') =
        subst (λ r. Creates (tree s) (tree r.1) up last value r.0 × Ready r.1) e
          (keeps.creates up last value s w ready) in
      let there : tree s' (up ++ last ∷ []) ≡ some (value, n) = done.3.0 in
      Gets-GotBack (tree s') (tree (client.get (of_segments (up ++ last ∷ [])) watch s').1)
        (up ++ last ∷ []) _ there
        (keeps.gets (up ++ last ∷ []) watch s' (IsKey-snoc up last w) ready')

  -- Once `erase` has returned for a key, a next `exists` finds neither it nor a key below it.
  pub erase-exists :
      (k j : List Bytes)
      → IsKey k
      → IsKey j
      → (j ≡ k) ⊎ (is_below k j ≡ true)
      → client.erase (of_segments k) 0 s ≡ (ok tt, s')
      → IsGone (client.exists (of_segments j) watch s').0
  erase-exists k j key key' at e =
      let (done, ready') =
        subst (λ r. Erases (tree s) (tree r.1) k 0 r.0 × Ready r.1) e
          (keeps.erases k 0 s key ready) in
      Exists-IsGone (tree s') (tree (client.exists (of_segments j) watch s').1) j _
        (Erases-gone (tree s) (tree s') k j key' at done) (keeps.tells j watch s' key' ready')
