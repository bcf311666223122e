-- ===== src/Etcd/Refine/Explain.antt =====
-- etcd_client.hpp, `commit`: the two loops that look for what failed.
use liboffkv.Base.{
  map-append, ℕ, zero, suc, ◌+◌, ◌≡◌, refl, sym, ap, ◌∙◌, Bool, true, false, not, Bytes, List, [],
  ◌∷◌, ◌++◌, Option, none, some, map, Each, drop, get_elem?, length, arith, subst, if◌then◌else◌,
}
use liboffkv.Errors.{Outcome, ok, throw, txn_failed}
use liboffkv.Client.{Int64, TxnCheck}
use liboffkv.Etcd.Service.{KeyValue, ResponseOp, RangeResponse}
use liboffkv.Etcd.Replies.{range_at, is_present}
use liboffkv.Etcd.Outcomes.{explain_checks, explain_op, explain_ops, differs}
use liboffkv.Etcd.Refine.Requirements.{
  Versions, is_some, is_version, all_met, existence, check_group, op_group, expected, request_of,
  probe, found, first_unmet, Answers, concat,
}

step : (i : ℕ) → suc (i + 1) ≡ suc i + 1
step i = omega arith

module _ {A : Type 0} where
  get_elem?-drop :
      (i : ℕ) (xs : List A) {y : A} {ys : List A}
      → drop i xs ≡ y ∷ ys
      → (get_elem? xs i ≡ some y) × (drop (i + 1) xs ≡ ys)
  get_elem?-drop zero [] h = cc
  get_elem?-drop zero (x ∷ xs) h = ground (arith, h)
  get_elem?-drop (suc i) [] h = cc
  get_elem?-drop (suc i) (x ∷ xs) h =
      let ih = get_elem?-drop i xs h in (ih.0, ap (λ n. drop n (x ∷ xs)) (sym (step i)) ∙ ih.1)

  pub drop-append :
      (j : ℕ) (xs ys zs : List A) → drop j xs ≡ ys ++ zs → drop (j + length ys) xs ≡ zs
  drop-append j xs [] zs h = ap (λ n. drop n xs) (omega arith) ∙ h
  drop-append j xs (y ∷ ys) zs h =
      ap (λ n. drop n xs) (omega arith) ∙ drop-append (j + 1) xs ys zs (get_elem?-drop j xs h).1

module _ {A B : Type 0} (P : A → B → Type 0) where
  pub Each-split :
      (xs ys : List A) (ms : List B)
      → Each P (xs ++ ys) ms
      → (l r : List B) × (ms ≡ l ++ r) × Each P xs l × Each P ys r
  Each-split [] ys ms h = ([], ms, refl, tt, h)
  Each-split (x ∷ xs) ys [] h = absurd h
  Each-split (x ∷ xs) ys (m ∷ ms) h =
      let (l, r, e, u, v) = Each-split xs ys ms h.1 in (m ∷ l, r, ap (λ t. m ∷ t) e, (h.0, u), v)

-- What one look at an answer tells.
differs-is_version :
    (version : Int64) (kvs : List KeyValue) (o : Option Int64)
    → map (λ kv. kv.version) kvs ≡ found o
    → differs version kvs ≡ not (is_version version o)
differs-is_version version [] none h = refl
differs-is_version version [] (some v) h = cc
differs-is_version version (kv ∷ kvs) none h = cc
differs-is_version version (kv ∷ kvs) (some v) h = ground (arith, h)

is_present-is_some :
    (kvs : List KeyValue) (o : Option Int64)
    → map (λ kv. kv.version) kvs ≡ found o
    → is_present kvs ≡ is_some o
is_present-is_some [] none h = refl
is_present-is_some [] (some v) h = cc
is_present-is_some (kv ∷ kvs) none h = cc
is_present-is_some (kv ∷ kvs) (some v) h = refl

-- What the loops over the groups amount to.
abbrev pub verdict : Option ℕ → Outcome (Unit {0})
verdict none = ok tt
verdict (some i) = throw (txn_failed i)

module _ (f : Versions) (responses : List ResponseOp) where
  range_at-answer :
      (i : ℕ) (key : Bytes) (keys_only : Bool) (r : ResponseOp) (rest : List ResponseOp)
      → drop i responses ≡ r ∷ rest
      → Answers f (probe key keys_only) r
      → (rr : RangeResponse) × (range_at i responses ≡ ok rr)
        × (map (λ kv. kv.version) rr.kvs ≡ found (f key))
  range_at-answer i key keys_only (ResponseOp.range rr) rest h a =
      (rr, rw (get_elem?-drop i responses h).0 refl, a)
  range_at-answer i key keys_only ResponseOp.put rest h a = absurd a
  range_at-answer i key keys_only ResponseOp.delete_range rest h a = absurd a

  pub explain_checks_lem :
      (items : List (Bytes × TxnCheck)) (i : ℕ) (mine more : List ResponseOp)
      → drop i responses ≡ mine ++ more
      → Each (Answers f) (map request_of (concat (map check_group items))) mine
      → explain_checks responses i (map (λ x. x.1) items)
        ≡ verdict (first_unmet f i (map check_group items))
  unfolding explain_checks first_unmet concat
  explain_checks_lem [] i mine more h a = refl
  explain_checks_lem ((path, c) ∷ items) i [] more h a = absurd a
  explain_checks_lem ((path, c) ∷ items) i (r ∷ mine) more h a =
      let (rr, read, seen) = range_at-answer i path false r (mine ++ more) h a.0 in
      rw (read, differs-is_version c.version rr.kvs (f path) seen)
        (ground
          (arith, explain_checks_lem items (i + 1) mine more (get_elem?-drop i responses h).1 a.1))

  explain_op_lem :
      (items : List (Bytes × Bool)) (i j : ℕ) (mine more : List ResponseOp)
      → drop j responses ≡ mine ++ more
      → Each (Answers f) (map request_of (map existence items)) mine
      → explain_op responses i j (map (λ x. x.1) items)
        ≡ (if all_met f (map existence items) then ok (j + length mine) else throw (txn_failed i))
  unfolding explain_op
  explain_op_lem [] i j [] more h a = ap ok (omega arith)
  explain_op_lem [] i j (r ∷ mine) more h a = absurd a
  explain_op_lem ((key, b) ∷ items) i j [] more h a = absurd a
  explain_op_lem ((key, true) ∷ items) i j (r ∷ mine) more h a =
      let (rr, read, seen) = range_at-answer j key true r (mine ++ more) h a.0 in
      rw (read, is_present-is_some rr.kvs (f key) seen)
        (ground
          (arith, explain_op_lem items i (j + 1) mine more (get_elem?-drop j responses h).1 a.1))
  explain_op_lem ((key, false) ∷ items) i j (r ∷ mine) more h a =
      let (rr, read, seen) = range_at-answer j key true r (mine ++ more) h a.0 in
      rw (read, is_present-is_some rr.kvs (f key) seen)
        (ground
          (arith, explain_op_lem items i (j + 1) mine more (get_elem?-drop j responses h).1 a.1))

  pub explain_ops_lem :
      (groups : List (List (Bytes × Bool))) (i j : ℕ) (mine : List ResponseOp)
      → drop j responses ≡ mine
      → Each (Answers f) (map request_of (concat (map op_group groups))) mine
      → explain_ops responses i j (map expected groups)
        ≡ verdict (first_unmet f i (map op_group groups))
  unfolding explain_ops first_unmet concat
  explain_ops_lem [] i j mine h a = refl
  explain_ops_lem (g ∷ groups) i j mine h a =
      let (l, r, e, u, v) =
        Each-split (Answers f) (map request_of (op_group g))
          (map request_of (concat (map op_group groups))) mine
          (subst (λ qs. Each (Answers f) qs mine) (map-append request_of (op_group g) _) a) in
      let cut = h ∙ e in
      rw (explain_op_lem g i j l r cut u) (
        ground (
          arith,
          explain_ops_lem groups (i + 1) (j + length l) r (drop-append j responses l r cut) v,
        ))
