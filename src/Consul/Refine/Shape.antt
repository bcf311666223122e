-- ===== src/Consul/Refine/Shape.antt =====
-- consul_client.hpp, `commit`: the blocks of a transaction taken together.
use liboffkv.Consul.Commit.{ResultKind, aux}
use liboffkv.Base.{
  map-append, sym, Bool, true, false, map, ℕ, ◌<◌, ◌≡◌, refl, ap, ◌∙◌, List, [], ◌∷◌, ◌++◌, arith,
  length, All, Each,
}
use liboffkv.Errors.{ok}
use liboffkv.Base.{length-append, length-map}
use liboffkv.Client.{Kind, Int64}
use liboffkv.Consul.Refine.Blocks.{
  reported, reported-append, seen, seen-append, asked, IsBlock, is_seen, writes, writes-append,
}
use liboffkv.Client.{TxnCheck, TxnOpResult, Transaction}
use liboffkv.Consul.Service.{KeyValue}
use liboffkv.Consul.Commit.{Block, answer}
use liboffkv.Consul.Refine.Owner.{all_ops, ops_of, all_kinds, owner, NonEmpty}
use liboffkv.Boundaries.Ends
use liboffkv.Boundaries.Ends.{flat}

-- The kinds of result for which a transaction asks.
unfoldable pub all_asked : List (List Kind) → List Kind
all_asked [] = []
all_asked (kinds ∷ more) = kinds ++ all_asked more

abbrev pub none_asked : TxnCheck → List Kind
none_asked check = []

abbrev pub wanted : Transaction → List (List Kind)
wanted t = map none_asked t.checks ++ map asked t.ops

pub shape :
    (wants : List (List Kind)) (bs : List Block)
    → Each IsBlock wants bs
    → All NonEmpty bs
      × (length bs ≡ length wants)
      × (length (all_kinds bs) ≡ reported (all_ops bs))
      × (seen (all_kinds bs) ≡ all_asked wants)
      × (map is_seen (all_kinds bs) ≡ writes (all_ops bs))
unfolding all_kinds flat reported seen all_asked writes
shape [] [] h = (tt, refl, refl, refl, refl)
shape [] (b ∷ bs) h = elim h [ ]
shape (k ∷ ks) [] h = elim h [ ]
shape (k ∷ ks) (b ∷ bs) (h, hs) =
    let (ne, len, counted, all_seen, all_marked) = shape ks bs hs in
    (
      (h.nonempty, ne),
      omega arith,
      omega (
        arith,
        h.aligned,
        length-append b.kinds (all_kinds bs),
        reported-append b.ops (all_ops bs),
      ),
      seen-append b.kinds (all_kinds bs) ∙ rw (h.shows, all_seen),
      map-append is_seen b.kinds (all_kinds bs)
          ∙ rw (h.marked, all_marked) (sym (writes-append b.ops (all_ops bs))),
    )

-- Every check and operation of the transaction has an owner of its blocks.
pub owner-lt : (i : ℕ) (bs : List Block) → i < length (all_ops bs) → owner i bs < length bs
owner-lt i bs lt = omega (arith, Ends.owner-lt i (ops_of bs) lt, length-map bs (λ b. b.ops))

-- The versions of the entries that are marked.
unfoldable pub chosen : List Bool → List KeyValue → List Int64
chosen [] results = []
chosen (m ∷ ms) [] = []
chosen (true ∷ ms) (kv ∷ results) = kv.modify_index ∷ chosen ms results
chosen (false ∷ ms) (kv ∷ results) = chosen ms results

-- With one kind for each result the answer lists the results that the caller is to see.
pub answer-seen :
    (results : List KeyValue) (kinds : List ResultKind)
    → length results ≡ length kinds
    → (rs : List TxnOpResult) × (answer results kinds ≡ ok rs)
      × (map (λ r. r.kind) rs ≡ seen kinds)
      × (map (λ r. r.version) rs ≡ chosen (map is_seen kinds) results)
unfolding answer seen chosen
answer-seen [] [] h = ([], refl, refl, refl)
answer-seen [] (k ∷ kinds) h = absurd (omega arith)
answer-seen (kv ∷ results) [] h = absurd (omega arith)
answer-seen (kv ∷ results) (ResultKind.create ∷ kinds) h =
    let (rs, e, k, v) = answer-seen results kinds (omega arith) in
    (
      record { kind = Kind.create; version = kv.modify_index } ∷ rs,
      rw e,
      ap (λ r. Kind.create ∷ r) k,
      ap (λ r. kv.modify_index ∷ r) v,
    )
answer-seen (kv ∷ results) (ResultKind.set ∷ kinds) h =
    let (rs, e, k, v) = answer-seen results kinds (omega arith) in
    (
      record { kind = Kind.set; version = kv.modify_index } ∷ rs,
      rw e,
      ap (λ r. Kind.set ∷ r) k,
      ap (λ r. kv.modify_index ∷ r) v,
    )
answer-seen (kv ∷ results) (aux ∷ kinds) h = answer-seen results kinds (omega arith)

pub Each-append :
    (ks : List (List Kind)) (bs : List Block) (ls : List (List Kind)) (cs : List Block)
    → Each IsBlock ks bs
    → Each IsBlock ls cs
    → Each IsBlock (ks ++ ls) (bs ++ cs)
Each-append [] [] ls cs h k = k
Each-append [] (b ∷ bs) ls cs h k = elim h [ ]
Each-append (x ∷ ks) [] ls cs h k = elim h [ ]
Each-append (x ∷ ks) (b ∷ bs) ls cs (h, hs) k = (h, Each-append ks bs ls cs hs k)
