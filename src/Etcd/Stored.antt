-- ===== src/Etcd/Stored.antt =====
-- An etcd that keeps its contract, for the examples: its entries, with one client at a time.
use liboffkv.Base.{inl, ◌≡◌, refl, Bool, List, Option, none, some, codes}
use liboffkv.Errors.{ok}
use liboffkv.Etcd.Service.{
  TxnRequest, KeyValue, ResponseOp, TxnResponse, Reply, answered, refused, invalid_argument,
  other_code, Etcd,
}
use liboffkv.Etcd.Contract.{Contract, Agrees, all_hold, run, branch, read}

abbrev pub reply_of :
    Bool
    → List KeyValue
    → Option (List KeyValue × List ResponseOp)
    → Reply TxnResponse × List KeyValue
reply_of won s none = (refused invalid_argument (codes "invalid"), s)
reply_of won s (some (left, responses)) =
    (answered (record { succeeded = won; responses = responses; revision = 1 }), left)

abbrev pub etcd : Etcd
etcd = record {
  World = List KeyValue;
  txn = λ t s. let won = all_hold t.compare s in reply_of won s (run 1 (branch won t) s);
  range = λ q s. (answered (read 1 q s), s);
  lease_grant = λ id ttl s. (refused other_code (codes "lease"), s);
  keep_alive = λ id s. (none, s);
  create_watch = λ q s. (ok tt, s);
}

pub reply_of-Agrees :
    (t : TxnRequest) (s : List KeyValue) (o : Option (List KeyValue × List ResponseOp))
    → run 1 (branch (all_hold t.compare s) t) s ≡ o
    → let r = reply_of (all_hold t.compare s) s o in Agrees (λ _. ⊥) t s r.0 r.1
reply_of-Agrees t s none e = (inl (1, e), refl)
reply_of-Agrees t s (some (left, responses)) e = (refl, e)

abbrev pub contract : Contract etcd
contract = record {
  view = λ s. s;
  Excessive = λ t. ⊥;
  transactions = λ t s _. reply_of-Agrees t s _ refl;
  reads = λ q s. (refl, refl);
  watches = λ q s. (tt, refl);
}
