-- ===== src/Consul/Refine/ChildNames.antt =====
-- consul_client.hpp: what the loop of `get_children` makes of the names that it reads.
use mathlib.Core.Path.{ap₂}
use mathlib.Core.List.{append_cancel_left}
use liboffkv.Base.{
  ℕ, ◌<◌, ◌≡◌, ◌≢◌, ◌↔◌, refl, sym, ap, ◌∙◌, subst, ◌||◌, bytes_eq, bytes_eq_iff, Bool, true, false,
  Bool-cases, inl, inr, Bytes, slash, List, [], ◌∷◌, ◌++◌, Option, none, some, if◌then◌else◌, arith,
  All, length, drop, map, append_assoc, append-nil, drop-length-append, length-append, ltb, ◌==◌,
}
use liboffkv.Errors.{ok, ◌>>=◌}
use liboffkv.Util.{starts_with}
use liboffkv.Util.Laws.{split_of_starts_with}
use liboffkv.Key.Segments.{IsSegment, NoSlash, spell, spell-append}
use liboffkv.Client.Spec.{listed, IsChild}
use liboffkv.Consul.Service.{KeyValue}
use liboffkv.Consul.Naming.{has_slash, child_names, child_name, substr_from}
use liboffkv.Consul.Refine.Tree.{IsKey, shown}
use liboffkv.Consul.Naming.Laws.{name_of, spell-name_of}
use liboffkv.Consul.Contract.Store.{with_prefix}
use liboffkv.Consul.Commit.{back_index}
use liboffkv.Consul.Refine.Endings.{endings, present}

-- The path of a child of the key.
abbrev pub child_path : List Bytes → Bytes → Bytes
child_path k u = spell (k ++ u ∷ [])

pub child_path_eq : (k : List Bytes) (u : Bytes) → child_path k u ≡ spell k ++ slash ∷ u
child_path_eq k u =
    spell-append k (u ∷ []) ∙ unfold spell in ap (λ r. spell k ++ slash ∷ r) (append-nil u)

child_path-eq :
    (k : List Bytes) (x t : Bytes) → bytes_eq (child_path k x) (child_path k t) ≡ bytes_eq x t
child_path-eq k x t = ground (
  arith,
  bytes_eq_iff (child_path k x) (child_path k t),
  bytes_eq_iff x t,
  child_path_eq k x,
  child_path_eq k t,
  λ (e : spell k ++ slash ∷ x ≡ spell k ++ slash ∷ t).
      append_cancel_left (spell k) (slash ∷ x) (slash ∷ t) e,
)

name_of-append :
    (p : Bytes) (ps k : List Bytes) → name_of ((p ∷ ps) ++ k) ≡ name_of (p ∷ ps) ++ spell k
unfolding name_of
name_of-append p ps k =
    ap (λ r. p ++ r) (spell-append ps k) ∙ sym (append_assoc p (spell ps) (spell k))

pub name_of-child :
    (xs : List Bytes) (t : Bytes)
    → xs ≢ []
    → (name_of xs ++ slash ∷ []) ++ t ≡ name_of (xs ++ t ∷ [])
name_of-child [] t n = absurd (n refl)
name_of-child (x ∷ xs) t n =
    append_assoc (name_of (x ∷ xs)) (slash ∷ []) t
    ∙ ap (λ r. name_of (x ∷ xs) ++ r) (sym (child_path_eq [] t ∙ unfold spell in refl))
    ∙ sym (name_of-append x xs (t ∷ []))

-- One turn of the loop, on a name with the prefix.
abbrev Turn : List Bytes → List Bytes → Bytes → Type 0
Turn ps k u =
    child_name (length (name_of (ps ++ k) ++ slash ∷ [])) (length (name_of ps))
      ((name_of (ps ++ k) ++ slash ∷ []) ++ u)
    ≡ ok (if has_slash u then [] else child_path k u ∷ [])

substr_from-append : (x y : Bytes) → substr_from (length x) (x ++ y) ≡ ok y
unfolding substr_from
substr_from-append x y =
    let within : ltb (length (x ++ y)) (length x) ≡ false = ground (arith, length-append x y) in
    rw (within, drop-length-append x y)

slash_path :
    (k : List Bytes) (u : Bytes)
    → k ≢ []
    → slash ∷ ((name_of k ++ slash ∷ []) ++ u) ≡ child_path k u
slash_path k u n =
    ap (λ r. slash ∷ r) (append_assoc (name_of k) (slash ∷ []) u)
    ∙ ap (λ r. r ++ slash ∷ u) (sym (spell-name_of k n))
    ∙ sym (child_path_eq k u)

longer_path :
    (p : Bytes) (ps k : List Bytes) (u : Bytes)
    → (name_of ((p ∷ ps) ++ k) ++ slash ∷ []) ++ u ≡ name_of (p ∷ ps) ++ child_path k u
longer_path p ps k u =
    append_assoc (name_of ((p ∷ ps) ++ k)) (slash ∷ []) u
    ∙ ap (λ r. r ++ slash ∷ u) (name_of-append p ps k)
    ∙ append_assoc (name_of (p ∷ ps)) (spell k) (slash ∷ u)
    ∙ ap (λ r. name_of (p ∷ ps) ++ r) (sym (child_path_eq k u))

name_of-pos : (p : Bytes) (ps : List Bytes) → p ≢ [] → 0 < length (name_of (p ∷ ps))
unfolding name_of
name_of-pos [] ps n = absurd (n refl)
name_of-pos (c ∷ p) ps n = omega arith

either_way :
    (b : Bool) (x : Bytes) → (if b then ok [] else ok (x ∷ [])) ≡ ok (if b then [] else x ∷ [])
either_way true x = refl
either_way false x = refl

turn : (ps k : List Bytes) (u : Bytes) → All IsSegment ps → k ≢ [] → Turn ps k u
unfolding child_name
turn [] k u v n =
    rw (drop-length-append (name_of k ++ slash ∷ []) u, slash_path k u n)
      (unfold name_of in either_way (has_slash u) (child_path k u))
turn (p ∷ ps) k u v n =
    let some_prefix : (length (name_of (p ∷ ps)) == 0) ≡ false =
      ground (arith, name_of-pos p ps v.0.nonempty) in
    rw
      (
        drop-length-append (name_of ((p ∷ ps) ++ k) ++ slash ∷ []) u,
        longer_path p ps k u,
        some_prefix,
        substr_from-append (name_of (p ∷ ps)) (child_path k u),
      )
      (either_way (has_slash u) (child_path k u))

-- The loop runs over all entries but the last.
child_names-cons :
    (n g : ℕ) (kv last : KeyValue) (xs : List KeyValue)
    → child_names n g (kv ∷ (xs ++ last ∷ [])) ≡ (do
      here ← child_name n g kv.key
      rest ← child_names n g (xs ++ last ∷ [])
      ok (here ++ rest))
unfolding child_names
child_names-cons n g kv last [] = refl
child_names-cons n g kv last (x ∷ xs) = refl

pub back_index-snoc :
    (xs : List KeyValue) (kv : KeyValue) → back_index (xs ++ kv ∷ []) ≡ ok kv.modify_index
unfolding back_index
back_index-snoc [] kv = refl
back_index-snoc (x ∷ []) kv = refl
back_index-snoc (x ∷ y ∷ xs) kv = back_index-snoc (y ∷ xs) kv

pub present-eq-true_iff : (o : Option KeyValue) → (present o ≡ true) ↔ (shown o ≢ none)
present-eq-true_iff none = ground arith
present-eq-true_iff (some kv) = ground arith

map_either :
    (f : Bytes → Bytes) (b : Bool) (x : Bytes) (xs : List Bytes)
    → (if b then [] else f x ∷ []) ++ map f xs ≡ map f (if b then xs else x ∷ xs)
map_either f true x xs = refl
map_either f false x xs = refl

pub listed-map :
    (k : List Bytes) (t : Bytes) (xs : List Bytes)
    → listed (child_path k t) (map (child_path k) xs) ≡ listed t xs
unfolding listed
listed-map k t [] = refl
listed-map k t (x ∷ xs) = ap₂ ◌||◌ (child_path-eq k x t) (listed-map k t xs)

pub IsChild-map :
    (k : List Bytes) (xs : List Bytes) → All NoSlash xs → All (IsChild k) (map (child_path k) xs)
IsChild-map k [] n = tt
IsChild-map k (x ∷ xs) n = ((x, n.0, refl), IsChild-map k xs n.1)

module _ (ps k : List Bytes) (v : All IsSegment ps) (key : IsKey k) where
  abbrev below : Bytes
  below = name_of (ps ++ k) ++ slash ∷ []

  pub child_names_lem :
      (last : KeyValue) (s : List KeyValue)
      → child_names (length below) (length (name_of ps)) (with_prefix below s ++ last ∷ [])
        ≡ ok (map (child_path k) (endings below s))
  unfolding with_prefix endings
  child_names_lem last [] = unfold child_names in refl
  child_names_lem last (kv ∷ s) = elim (Bool-cases (starts_with below kv.key)) [
    | inr e ↦ rw e (child_names_lem last s)
    | inl e ↦
        let here =
          subst
            (λ name.
              child_name (length below) (length (name_of ps)) name
              ≡ ok (
                  if has_slash (drop (length below) kv.key)
                  then []
                  else child_path k (drop (length below) kv.key) ∷ []))
            (split_of_starts_with below kv.key e)
            (turn ps k (drop (length below) kv.key) v key.nonempty) in
        rw
          (
            e,
            child_names-cons (length below) (length (name_of ps)) kv last (with_prefix below s),
            here,
            child_names_lem last s,
          )
          (ap (λ l. ok l) (map_either (child_path k) (has_slash (drop (length below) kv.key)) _ _))
  ]
