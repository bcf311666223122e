-- ===== src/Consul/Local.antt =====
-- A Consul that keeps its contract, for the examples: the entries and the last index.
use liboffkv.Base.{ℕ, suc, ◌≡◌, refl, List, [], Option, none, some, codes, arith, Bytes}
use liboffkv.Consul.Service.{TxnOperation, KeyValue, Item, Reply, done, fail, aborted, Ppconsul}
use liboffkv.Consul.Contract.{Ran, all_done, failed_at, run, Contract, Agrees, IsAnswered}
use liboffkv.Consul.Contract.Store.{lookup}

abbrev pub World : Type 0
World = List KeyValue × ℕ

abbrev pub answered : World → Ran → Reply (List KeyValue) × World
answered (s, n) (all_done left reported) = (done reported, (left, suc n))
answered (s, n) (failed_at i) = (fail (aborted (codes "aborted") i []), (s, n))

abbrev pub item_of : Option KeyValue → ℕ → Item
item_of none n = record { index = n; found = none }
item_of (some kv) n = record { index = kv.modify_index; found = some kv }

abbrev pub consul : Ppconsul
consul = record {
  World = World;
  commit = λ txn w. answered w (run (suc w.1) 0 txn w.0);
  item = λ key w. (done (item_of (lookup key w.0) w.1), w);
  block_item = λ key timeout index w. (done tt, w);
  block_keys = λ key timeout index w. (done tt, w);
  create_session = λ options w. (done (codes "session"), w);
  renew_session = λ id w. (done tt, w);
}

pub commits_lem :
    (txn : List TxnOperation) (s : List KeyValue) (n : ℕ) (r : Ran)
    → run (suc n) 0 txn s ≡ r
    → Agrees txn s (answered (s, n) r).0 (answered (s, n) r).1.0
commits_lem txn s n (all_done left reported) e = (suc n, omega arith, e)
commits_lem txn s n (failed_at i) e = (suc n, e, refl)

pub items_lem :
    (key : Bytes) (s : List KeyValue) (n : ℕ) (o : Option KeyValue)
    → lookup key s ≡ o
    → ((item_of o n).found ≡ lookup key s)
      × ((kv : KeyValue) → lookup key s ≡ some kv → (item_of o n).index ≡ kv.modify_index)
items_lem key s n none e = (cc, λ kv h. cc)
items_lem key s n (some kv) e = (cc, λ kv' h. ground (arith, e, h))

abbrev pub contract : Contract consul
contract = record {
  view = λ w. w.0;
  commits = λ txn w _. commits_lem txn w.0 w.1 _ refl;
  items = λ key w. (refl, (items_lem key w.0 w.1 _ refl).0, (items_lem key w.0 w.1 _ refl).1);
}

answered-IsAnswered : (w : World) (r : Ran) → IsAnswered (answered w r).0
answered-IsAnswered w (all_done left reported) = tt
answered-IsAnswered w (failed_at i) = tt

pub commit-IsAnswered : (txn : List TxnOperation) (w : World) → IsAnswered (consul.commit txn w).0
commit-IsAnswered txn w = answered-IsAnswered w _
