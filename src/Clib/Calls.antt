-- ===== src/Clib/Calls.antt =====
-- clib.cpp: the calls of the C interface that hand out memory, a watch or the results of a transaction.
use liboffkv.Base.{
  ℕ, zero, suc, ◌-◌, ◌^◌, Bool, true, false, Bytes, List, [], ◌∷◌, Option, none, some, length,
}
use liboffkv.Errors.{Exception, Outcome, ok, throw, txn_failed, undefined, ◌>>=◌}
use liboffkv.Exec.{Exec, pure, lift, ◌>>=◌ as ◌>>>=◌, ◌>>◌, catch}
use liboffkv.Key.{KeyPath, make_key, make_path}
use liboffkv.Client.{
  Int64, ExistsResult, ChildrenResult, GetResult, TxnCheck, TxnOp, TxnOpResult, Transaction,
}
use liboffkv.Clib.{ℤ, pos, negsuc, signed, to_errcode, with_key}
use liboffkv.Clib.Memory.{
  Memory, free_string, free_strings, dup_string, dup_strings, dup_txn_results,
}

-- The structures of clib.h. A pointer is an address.
pub record CGetResult : Type 0 where
  pub value : ℕ
  pub nvalue : ℕ
  pub version : ℤ

pub record CChildren : Type 0 where
  pub keys : ℕ
  pub nkeys : ℕ
  pub errcode : ℤ

pub record CTxnCheck : Type 0 where
  pub key : Bytes
  pub version : Int64

-- `lease` is `flags & OFFKV_LEASE`; `value` has its `nvalue` bytes.
pub record CTxnOp : Type 0 where
  pub op : ℕ
  pub lease : Bool
  pub key : Bytes
  pub value : Bytes

pub record CTxnResult : Type 0 where
  pub results : ℕ
  pub nresults : ℕ
  pub failed_op : ℕ

-- The client, the memory, and what the caller's `*p_watch` and `*p_result` hold.
pub record Env (S W : Type 0) : Type 0 where
  pub client : S
  pub memory : Memory
  pub watch : Option W
  pub txn_result : Option CTxnResult

-- `static_cast<size_t>(-1)`.
abbrev pub no_failed_op : ℕ
no_failed_op = 2 ^ 64 - 1

-- The loops that read the arguments of `offkv_commit`; the keys are checked on the way.
unfoldable pub read_checks : List CTxnCheck → Outcome (List TxnCheck)
read_checks [] = ok []
read_checks (c ∷ checks) = do
  key ← make_key c.key
  more ← read_checks checks
  ok (record { key = key; version = c.version } ∷ more)

-- The `default` case is `UNREACHABLE()`.
abbrev read_op : ℕ → Outcome KeyPath → Bytes → Bool → Outcome TxnOp
read_op zero key value lease = do k ← key; ok (TxnOp.create k value lease)
read_op (suc zero) key value lease = do k ← key; ok (TxnOp.set k value)
read_op (suc (suc zero)) key value lease = do k ← key; ok (TxnOp.erase k)
read_op (suc (suc (suc n))) key value lease = throw undefined

unfoldable pub read_ops : List CTxnOp → Outcome (List TxnOp)
read_ops [] = ok []
read_ops (o ∷ ops) = do
  op ← read_op o.op (make_key o.key) o.value o.lease
  more ← read_ops ops
  ok (op ∷ more)

-- `offkv_open`: the client or null, and what `*p_errcode` is set to.
abbrev opened : {C : Type 0} → Outcome C → Outcome (Option C × Option ℤ)
opened (ok client) = ok (some client, none)
opened (throw e) = do code ← to_errcode e; ok (none, some code)

unfoldable pub offkv_open :
    {C : Type 0} → (Bytes → KeyPath → Outcome C) → Bytes → Bytes → Outcome (Option C × Option ℤ)
offkv_open open_client url prefix = opened (do path ← make_path prefix; open_client url path)

module _ {S W : Type 0} where
  abbrev pub on_client : {A : Type 0} → Exec S A → Exec (Env S W) A
  on_client m env = ((m env.client).0, record env { client = (m env.client).1 })

  abbrev pub on_memory : {A : Type 0} → Exec Memory A → Exec (Env S W) A
  on_memory m env = ((m env.memory).0, record env { memory = (m env.memory).1 })

  abbrev write_watch : (p_watch : Bool) → Option W → Exec (Env S W) (Unit {0})
  write_watch false watch env = (ok tt, env)
  write_watch true watch env = (ok tt, record env { watch = watch })

  abbrev write_result : (p_result : Bool) → CTxnResult → Exec (Env S W) (Unit {0})
  write_result false result env = (ok tt, env)
  write_result true result env = (ok tt, record env { txn_result = some result })

  -- `catch (const std::exception &e)`, with what is returned for a code.
  abbrev pub or_code : {A : Type 0} → (ℤ → A) → Exec (Env S W) A → Exec (Env S W) A
  or_code f m = catch m (λ e. lift (to_errcode e) >>>= λ code. pure (f code))

  unfoldable pub offkv_exists :
      (KeyPath → Bool → Exec S (ExistsResult W)) → Bytes → (p_watch : Bool) → Exec (Env S W) ℤ
  offkv_exists exists key p_watch =
      or_code (λ code. code)
        (on_client (with_key key (λ k. exists k p_watch)) >>>= λ r.
          write_watch p_watch r.watch >> pure (signed r.version))

  unfoldable pub offkv_get_result_free : CGetResult → Exec (Env S W) (Unit {0})
  offkv_get_result_free r = on_memory (free_string r.value)

  unfoldable pub offkv_children_free : CChildren → Exec (Env S W) (Unit {0})
  offkv_children_free c = on_memory (free_strings c.keys c.nkeys)

  -- `wait` is that of the watch `w`.
  unfoldable pub offkv_watch : (W → Exec S (Unit {0})) → W → Exec (Env S W) ℤ
  offkv_watch wait w = or_code (λ code. code) (on_client (wait w) >> pure (pos 0))

  module _ (fails : ℕ → Bool) where
    unfoldable pub offkv_get :
        (KeyPath → Bool → Exec S (GetResult W))
        → Bytes
        → (p_watch : Bool) → Exec (Env S W) CGetResult
    offkv_get get key p_watch =
        or_code (λ code. record { value = 0; nvalue = 0; version = code })
          (on_client (with_key key (λ k. get k p_watch)) >>>= λ r.
            write_watch p_watch r.watch
            >> (on_memory (dup_string fails r.value) >>>= λ value.
                pure
                  (record { value = value; nvalue = length r.value; version = signed r.version })))

    unfoldable pub offkv_children :
        (KeyPath → Bool → Exec S (ChildrenResult W))
        → Bytes
        → (p_watch : Bool) → Exec (Env S W) CChildren
    offkv_children get_children key p_watch =
        or_code (λ code. record { keys = 0; nkeys = 0; errcode = code })
          (on_client (with_key key (λ k. get_children k p_watch)) >>>= λ r.
            write_watch p_watch r.watch
            >> (on_memory (dup_strings fails r.children) >>>= λ keys.
                pure (record { keys = keys; nkeys = length r.children; errcode = pos 0 })))

    -- The handler of `TxnFailed`, before that of the other exceptions.
    abbrev pub if_txn_failed : (p_result : Bool) → Exception → Exec (Env S W) ℤ
    if_txn_failed p_result (txn_failed i) =
        write_result p_result (record { results = 0; nresults = 0; failed_op = i })
        >> pure (negsuc 6)
    if_txn_failed p_result e = lift (to_errcode e)

    abbrev pub answer : (p_result : Bool) → List TxnOpResult → Exec (Env S W) ℤ
    answer false r = pure (pos 0)
    answer true r = on_memory (dup_txn_results fails r) >>>= λ copy.
        write_result true (record { results = copy; nresults = length r; failed_op = no_failed_op })
        >> pure (pos 0)

    unfoldable pub offkv_commit :
        (Transaction → Exec S (List TxnOpResult))
        → List CTxnCheck
        → List CTxnOp
        → (p_result : Bool) → Exec (Env S W) ℤ
    offkv_commit commit checks ops p_result =
        catch
          (lift (read_checks checks) >>>= λ checks_vec. lift (read_ops ops) >>>= λ ops_vec.
            on_client (commit (record { checks = checks_vec; ops = ops_vec })) >>>= answer p_result)
          (if_txn_failed p_result)
