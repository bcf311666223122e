-- ===== src/Zk/Local.antt =====
-- A ZooKeeper that keeps its contract, for the examples: the list of its entries. Nobody else uses it.
use liboffkv.Base.{
  ℕ, suc, ◌≡◌, ◌∙◌, refl, Bool, true, false, Bytes, codes, slash, List, [], ◌∷◌, ◌++◌, Option, none,
  some, length, drop, if◌then◌else◌,
}
use liboffkv.Util.{starts_with}
use liboffkv.Key.{rfind_slash}
use liboffkv.Zk.Service.{
  ErrorCode, version_mismatch, Failure, error, transaction_failed, Reply, done, fail, CreateMode,
  Op, Result, Entry, Zk,
}
use liboffkv.Zk.Contract.{
  apply, matches, may_bear, parent_of, rewritten, Ran, all_done, failed_at, run, Agrees, Creates,
  Sets, Contract, IsAborted, IsFailure,
}
use liboffkv.Zk.Contract.Store.{Node, lookup, put}

abbrev pub World : Type 0
World = List Node

-- The names of the entries just below a path.
abbrev child_name : Bytes → Bytes → List Bytes
child_name rest path = elim (rfind_slash rest) [ none ↦ rest ∷ [] | some i ↦ [] ]

unfoldable pub children : Bytes → World → List Bytes
children path [] = []
children path (n ∷ s) =
    let rest = children path s in
    if starts_with (path ++ slash ∷ []) n.path
    then child_name (drop (suc (length path)) n.path) path ++ rest
    else rest

abbrev missing : Failure
missing = error ErrorCode.no_entry (codes "no node")

abbrev listing : Option Node → List Bytes → Reply (List Bytes)
listing none names = fail missing
listing (some n) names = done names

abbrev stat : Option Node → Option ℕ
stat none = none
stat (some n) = some n.data_version

abbrev entry : Option Node → Reply Entry
entry none = fail missing
entry (some n) = done (record { value = n.value; data_version = n.data_version })

abbrev pub created :
    Bytes → Bytes → CreateMode → World → Option Node → Bool → Reply (Unit {0}) × World
created path data_ mode s (some n) b =
    (fail (error ErrorCode.entry_exists (codes "node exists")), s)
created path data_ mode s none true =
    (done tt, put (record { path = path; value = data_; data_version = 0; mode = mode }) s)
created path data_ mode s none false = (fail (error ErrorCode.other_code (codes "no parent")), s)

abbrev pub rewritten_if : Bool → Bytes → World → Node → Reply ℕ × World
rewritten_if true data_ s n = (done (suc n.data_version), put (rewritten n data_) s)
rewritten_if false data_ s n = (fail (error version_mismatch (codes "bad version")), s)

abbrev pub replaced : Bytes → Option ℕ → World → Option Node → Reply ℕ × World
replaced data_ version s none = (fail missing, s)
replaced data_ version s (some n) = rewritten_if (matches version n.data_version) data_ s n

abbrev pub answered : World → Ran → Reply (List Result) × World
answered s (all_done left results) = (done results, left)
answered s (failed_at i) = (fail (transaction_failed i (codes "failed")), s)

abbrev paired : {A B : Type 0} → B → Reply A → Reply (A × B)
paired b (done a) = done (a, b)
paired b (fail f) = fail f

abbrev pub zk : Zk
zk = record {
  World = World;
  Event = Unit;
  connect = λ address w. (done tt, w);
  create =
      λ path data_ mode w. created path data_ mode w (lookup path w) (may_bear (parent_of path) w);
  exists = λ path w. (done (stat (lookup path w)), w);
  watch_exists = λ path w. (done (stat (lookup path w), tt), w);
  get_children = λ path w. (listing (lookup path w) (children path w), w);
  watch_children = λ path w. (paired tt (listing (lookup path w) (children path w)), w);
  get = λ path w. (entry (lookup path w), w);
  watch = λ path w. (paired tt (entry (lookup path w)), w);
  set = λ path data_ version w. replaced data_ version w (lookup path w);
  commit = λ txn w. answered w (run 0 txn w);
  await = λ event w. (done tt, w);
}

pub commits_lem :
    (txn : List Op) (s : World) (r : Ran)
    → run 0 txn s ≡ r
    → Agrees txn s (answered s r).0 (answered s r).1
commits_lem txn s (all_done left results) e = e
commits_lem txn s (failed_at i) e = (e, refl)

pub creates_lem :
    (path data_ : Bytes) (mode : CreateMode) (s : World) (o : Option Node) (b : Bool)
    → lookup path s ≡ o
    → may_bear (parent_of path) s ≡ b
    → Creates path data_ mode s (created path data_ mode s o b).0 (created path data_ mode s o b).1
unfolding apply
creates_lem path data_ mode s (some n) b e f = λ gone. cc (e, gone)
creates_lem path data_ mode s none true e f = rw (apply, e, f) refl
creates_lem path data_ mode s none false e f = tt

rewritten_lem :
    (path data_ : Bytes) (version : Option ℕ) (s : World) (n : Node) (b : Bool)
    → lookup path s ≡ some n
    → matches version n.data_version ≡ b
    → Sets path data_ version s (rewritten_if b data_ s n).0 (rewritten_if b data_ s n).1
rewritten_lem path data_ version s n true e f = (n, e, f, refl, refl)
rewritten_lem path data_ version s n false e f = (n, e, f)

pub sets_lem :
    (path data_ : Bytes) (version : Option ℕ) (s : World) (o : Option Node)
    → lookup path s ≡ o
    → Sets path data_ version s (replaced data_ version s o).0 (replaced data_ version s o).1
sets_lem path data_ version s none e = e
sets_lem path data_ version s (some n) e =
    rewritten_lem path data_ version s n (matches version n.data_version) e refl

pub failed_lem : (s : World) (r : Ran) → IsAborted (answered s r).0 → (answered s r).1 ≡ s
failed_lem s (all_done left results) h = absurd h
failed_lem s (failed_at i) h = refl

pub refused_create :
    (path data_ : Bytes) (mode : CreateMode) (s : World) (o : Option Node) (b : Bool)
    → IsFailure (created path data_ mode s o b).0
    → (created path data_ mode s o b).1 ≡ s
refused_create path data_ mode s (some n) b h = refl
refused_create path data_ mode s none true h = absurd h
refused_create path data_ mode s none false h = refl

refused_rewrite :
    (data_ : Bytes) (s : World) (n : Node) (b : Bool)
    → IsFailure (rewritten_if b data_ s n).0
    → (rewritten_if b data_ s n).1 ≡ s
refused_rewrite data_ s n true h = absurd h
refused_rewrite data_ s n false h = refl

pub refused_set :
    (data_ : Bytes) (version : Option ℕ) (s : World) (o : Option Node)
    → IsFailure (replaced data_ version s o).0
    → (replaced data_ version s o).1 ≡ s
refused_set data_ version s none h = refl
refused_set data_ version s (some n) h =
    refused_rewrite data_ s n (matches version n.data_version) h

abbrev pub contract : Contract zk
contract = record {
  view = λ w. w;
  Later = λ u w. w ≡ u;
  same = λ w. refl;
  then_ = λ a b. b ∙ a;
  lists = λ path w. refl;
  aborts = λ txn w h. failed_lem w (run 0 txn w) h;
  refuses_create = λ path data_ mode w h.
      refused_create path data_ mode w (lookup path w) (may_bear (parent_of path) w) h;
  refuses_set = λ path data_ version w h. refused_set data_ version w (lookup path w) h;
  commits = λ txn w. commits_lem txn w (run 0 txn w) refl;
  creates = λ path data_ mode w.
      creates_lem path data_ mode w (lookup path w) (may_bear (parent_of path) w) refl refl;
  sets = λ path data_ version w. sets_lem path data_ version w (lookup path w) refl;
}
