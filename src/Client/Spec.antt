-- ===== src/Client/Spec.antt =====
-- What README.md promises of the methods, over a tree of entries: what each may answer, when, and
-- what it does to the tree.
use liboffkv.Base.{
  ℕ, ◌≡◌, ◌≢◌, ◌⊎◌, ◌↔◌, Bool, true, false, ◌||◌, Bytes, bytes_eq, List, [], ◌∷◌, ◌++◌, Option,
  none, some, All,
}
use liboffkv.Errors.{
  Exception, Outcome, ok, throw, no_entry, entry_exists, connection_loss, service_error, foreign,
}
use liboffkv.Key.Segments.{IsSegment, NoSlash, spell}
use liboffkv.Key.Descendants.{is_below}
use liboffkv.Client.{Int64, ExistsResult, ChildrenResult, GetResult, CasResult}

-- The value and the version of every key, by the segments below the client's prefix.
abbrev pub Tree : Type 0
Tree = List Bytes → Option (Bytes × ℕ)

-- The keys are the paths that are not the root, with valid segments.
abbrev pub ForKeys : (List Bytes → Type 0) → Type 0
ForKeys P = (t : Bytes) (ts : List Bytes) → All IsSegment (t ∷ ts) → P (t ∷ ts)

abbrev pub Unchanged : Tree → Tree → Type 0
Unchanged before after = ForKeys (λ k. after k ≡ before k)

-- The parent is the root, or an entry.
abbrev pub HasParent : Tree → List Bytes → Type 0
HasParent tree up = (up ≡ []) ⊎ (tree up ≢ none)

-- The exceptions that report the service and not the request.
abbrev pub IsServiceFailure : Exception → Type 0
IsServiceFailure connection_loss = Unit
IsServiceFailure (service_error what) = Unit
IsServiceFailure (foreign what) = Unit
IsServiceFailure _ = ⊥

-- `create` tells its caller how the tree stood: it returns, or throws one of its two exceptions.
abbrev pub IsCreateAnswer : Outcome Int64 → Type 0
IsCreateAnswer (ok version) = Unit
IsCreateAnswer (throw no_entry) = Unit
IsCreateAnswer (throw entry_exists) = Unit
IsCreateAnswer (throw e) = ⊥

-- The entry is written, and no other.
abbrev pub Written : Tree → Tree → List Bytes → Bytes × ℕ → Type 0
Written before after key entry =
    (after key ≡ some entry) × ForKeys (λ k. k ≢ key → after k ≡ before k)

module _ (before after : Tree) (up : List Bytes) (last : Bytes) (value : Bytes) where
  -- `create` writes a new key below an entry, or below the root.
  abbrev pub Creates : Outcome Int64 → Type 0
  Creates (ok version) =
      HasParent before up
      × (before (up ++ last ∷ []) ≡ none)
      × (version ≢ 0)
      × Written before after (up ++ last ∷ []) (value, version)
  Creates (throw no_entry) = ¬ HasParent before up × Unchanged before after
  Creates (throw entry_exists) = (before (up ++ last ∷ []) ≢ none) × Unchanged before after
  Creates (throw e) = IsServiceFailure e

-- `set` writes a key below an entry, or below the root, whether the key was there or not.
module _ (before after : Tree) (up : List Bytes) (last : Bytes) (value : Bytes) where
  abbrev pub Sets : Outcome Int64 → Type 0
  Sets (ok version) =
      HasParent before up × (version ≢ 0) × Written before after (up ++ last ∷ []) (value, version)
  Sets (throw no_entry) = ¬ HasParent before up × Unchanged before after
  Sets (throw e) = IsServiceFailure e

  -- `cas` with the version 0 creates the key, or returns 0 if it is there.
  abbrev pub CreatesIfNew : Outcome CasResult → Type 0
  CreatesIfNew (ok r) =
      Creates before after up last value (ok r.version)
      ⊎ ((r.version ≡ 0) × (before (up ++ last ∷ []) ≢ none) × Unchanged before after)
  CreatesIfNew (throw no_entry) = ¬ HasParent before up × Unchanged before after
  CreatesIfNew (throw e) = IsServiceFailure e

unfoldable pub listed : Bytes → List Bytes → Bool
listed x [] = false
listed x (y ∷ ys) = bytes_eq y x || listed x ys

-- The path of a direct child.
abbrev pub IsChild : List Bytes → Bytes → Type 0
IsChild key path = (t : Bytes) × NoSlash t × (path ≡ spell (key ++ t ∷ []))

module _ (before after : Tree) (key : List Bytes) where
  -- The key has an entry, of this version or of another one.
  abbrev pub HasVersion : Int64 → Type 0
  HasVersion version = (old : Bytes) × (before key ≡ some (old, version))

  abbrev pub HasOther : Int64 → Type 0
  HasOther version = (found : Bytes × ℕ) × (before key ≡ some found) × (found.1 ≢ version)

  -- `cas` with another version writes the key if its entry has that version, and returns 0 if not.
  abbrev pub Swaps : Bytes → Int64 → Outcome CasResult → Type 0
  Swaps value version (ok r) =
      (HasVersion version × (r.version ≢ 0) × Written before after key (value, r.version))
      ⊎ (HasOther version × (r.version ≡ 0) × Unchanged before after)
  Swaps value version (throw no_entry) = (before key ≡ none) × Unchanged before after
  Swaps value version (throw e) = IsServiceFailure e

  -- The key and all keys below it are gone, and no other.
  abbrev pub Erased : Type 0
  Erased =
      (after key ≡ none)
      × ForKeys (λ k. is_below key k ≡ true → after k ≡ none)
      × ForKeys (λ k. k ≢ key → is_below key k ≡ false → after k ≡ before k)

  -- `erase` erases an entry that has the version, or any entry if the version is 0.
  abbrev pub Erases : Int64 → Outcome (Unit {0}) → Type 0
  Erases version (ok _) =
      ((before key ≢ none) × ((version ≡ 0) ⊎ HasVersion version) × Erased)
      ⊎ ((version ≢ 0) × HasOther version × Unchanged before after)
  Erases version (throw no_entry) = (before key ≡ none) × Unchanged before after
  Erases version (throw e) = IsServiceFailure e

  -- What the reading methods tell of a key, with nothing changed.
  abbrev pub Gets : {W : Type 0} → Outcome (GetResult W) → Type 0
  Gets (ok r) = (before key ≡ some (r.value, r.version)) × Unchanged before after
  Gets (throw no_entry) = (before key ≡ none) × Unchanged before after
  Gets (throw e) = IsServiceFailure e

  abbrev pub version_of : Option (Bytes × ℕ) → Int64
  version_of none = 0
  version_of (some (value, version)) = version

  abbrev pub Exists : {W : Type 0} → Outcome (ExistsResult W) → Type 0
  Exists (ok r) = (r.version ≡ version_of (before key)) × Unchanged before after
  Exists (throw e) = IsServiceFailure e

  -- Direct children are listed by their paths, each of them exactly if it has an entry.
  abbrev pub Lists : {W : Type 0} → Outcome (ChildrenResult W) → Type 0
  Lists (ok r) =
      (before key ≢ none)
      × ((t : Bytes)
          → IsSegment t
          → (listed (spell (key ++ t ∷ [])) r.children ≡ true) ↔ (before (key ++ t ∷ []) ≢ none))
      × All (IsChild key) r.children
      × Unchanged before after
  Lists (throw no_entry) = (before key ≡ none) × Unchanged before after
  Lists (throw e) = IsServiceFailure e

module _ (before after : Tree) (up : List Bytes) (last : Bytes) (value : Bytes)
    (version : Int64) where
  -- `cas` with any version.
  abbrev pub Compares : Outcome CasResult → Type 0
  Compares r =
      ((version ≡ 0) × CreatesIfNew before after up last value r)
      ⊎ ((version ≢ 0) × Swaps before after (up ++ last ∷ []) value version r)
