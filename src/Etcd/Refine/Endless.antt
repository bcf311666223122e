-- ===== src/Etcd/Refine/Endless.antt =====
-- etcd_client.hpp: when `set` goes on for ever.
use liboffkv.Base.{
  ℕ, zero, suc, not, ◌≡◌, refl, ap, ◌∙◌, Bool, true, Bytes, List, [], ◌∷◌, ◌++◌, none, All,
}
use liboffkv.Errors.{ok}
use liboffkv.Key.Segments.{IsSegment, of_segments}
use liboffkv.Etcd.Service.{
  TxnRequest, TxnResponse, Reply, answered, refused, unavailable, invalid_argument, other_code,
  Etcd,
}
use liboffkv.Etcd.Naming.Laws.{key_of}
use liboffkv.Etcd.Session.{State}
use liboffkv.Etcd.Methods.{set, set_loop, set_attempt}
use liboffkv.Etcd.Contract.{Contract}
use liboffkv.Etcd.Refine.Tree.{parent_name}
use liboffkv.Etcd.Refine.SetTxn.{set_txn}
use liboffkv.Etcd.Refine.SetTurn.{read_set}
use liboffkv.Etcd.Refine.Set.{set_attempt-eq}

abbrev IsInvalid : Reply TxnResponse → Type 0
IsInvalid (refused invalid_argument message) = Unit
IsInvalid _ = ⊥

-- The transaction is an invalid argument, whatever is stored.
abbrev pub Refuses : (p : Etcd) → TxnRequest → Type 0
Refuses p t = (u : p.World) → IsInvalid (p.txn t u).0

read_set-none : (r : Reply TxnResponse) → IsInvalid r → read_set r ≡ ok none
read_set-none (refused invalid_argument message) h = refl
read_set-none (refused unavailable message) h = absurd h
read_set-none (refused other_code message) h = absurd h
read_set-none (answered r) h = absurd h

abbrev sent : (ps up : List Bytes) → (last value : Bytes) → Bool → TxnRequest
sent ps up last value b = set_txn (parent_name ps up) (key_of ps (up ++ last ∷ [])) value b

module _ (ps up : List Bytes) (last value : Bytes) (v : All IsSegment ps)
    (w : All IsSegment (up ++ last ∷ [])) where
  module _ (p : Etcd) (c : Contract p) where
    loop-endless :
        (n : ℕ) (expect_lease : Bool) (t : State p)
        → ((b : Bool) → Refuses p (sent ps up last value b))
        → t.client.prefix ≡ of_segments ps
        → (set_loop p n (of_segments (up ++ last ∷ [])) value expect_lease t).0 ≡ ok none
    unfolding set_loop
    loop-endless zero expect_lease t invalid prefix = refl
    loop-endless (suc n) expect_lease t invalid prefix =
        let next = not expect_lease in
        let t' : State p = record t { world = (p.txn (sent ps up last value next) t.world).1 } in
        let turn : set_attempt p (of_segments (up ++ last ∷ [])) value next t ≡ (ok none, t') =
          set_attempt-eq ps up last value v w p c next t
            (p.txn (sent ps up last value next) t.world) prefix refl
          ∙ ap (λ o. (o, t')) (read_set-none _ (invalid next t.world)) in
        rw turn (loop-endless n next t' invalid prefix)

  -- For a prefix and a key of valid segments and an etcd that keeps its contract: if it refuses both
  -- transactions of `set` as invalid arguments, whatever is stored, then `set` never ends: it neither
  -- returns nor throws, however many turns it may take.
  pub set-endless :
      (p : Etcd) (c : Contract p) (s : State p) (turns : ℕ)
      → s.client.prefix ≡ of_segments ps
      → ((expect_lease : Bool) → Refuses p (sent ps up last value expect_lease))
      → (set p turns (of_segments (up ++ last ∷ [])) value s).0 ≡ ok none
  unfolding set
  set-endless p c s turns prefix invalid = loop-endless p c turns true s invalid prefix
