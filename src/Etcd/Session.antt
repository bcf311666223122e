-- ===== src/Etcd/Session.antt =====
-- etcd_client.hpp: the client's fields, its calls of the service, and `LeaseIssuer`.
use liboffkv.Base.{ℕ, ◌+◌, ◌/◌, Bool, true, false, Bytes, Option, none, some, ◌==◌, if◌then◌else◌}
use liboffkv.Errors.{Exception, Outcome, ok, connection_loss, service_error}
use liboffkv.Exec.{Exec, pure, raise, lift, ◌>>=◌, ◌>>◌}
use liboffkv.Key.{KeyPath}
use liboffkv.Client.{Int64}
use liboffkv.Etcd.Service.{
  Event, StatusCode, unavailable, Reply, answered, refused, LeaseGrantResponse, WatchCreateRequest,
  Etcd, TxnRequest, TxnResponse,
}
use liboffkv.Etcd.Naming.{as_path_string}

-- What the `PingSender` was started with.
pub record Ping : Type 0 where
  pub first_timeout : ℕ
  pub lease : Int64

pub record LeaseIssuer : Type 0 where
  pub lease_id : Int64
  pub ping_sender : Option Ping

-- The fields of the client. The channel and its stubs are the parameter `p` below.
pub record EtcdClient : Type 0 where
  pub prefix : KeyPath
  pub lease_issuer : LeaseIssuer

unfoldable pub make_client : KeyPath → EtcdClient
make_client prefix = record {
  prefix = prefix;
  lease_issuer = record { lease_id = 0; ping_sender = none };
}

pub record State (p : Etcd) : Type 0 where
  pub client : EtcdClient
  pub world : p.World

-- `LEASE_TIMEOUT`, in seconds.
abbrev pub lease_timeout : ℕ
lease_timeout = 10

-- `ensure_succeeded_` on the status of a call.
unfoldable pub refusal : StatusCode → Bytes → Exception
refusal unavailable message = connection_loss
refusal _ message = service_error message

-- A watch that was created: what it asked for, and the events that end it.
pub record WatchHandle : Type 0 where
  pub request : WatchCreateRequest
  pub stop : Event → Bool

abbrev pub keep_alive_timeout : Option ℕ → ℕ
keep_alive_timeout none = 0
keep_alive_timeout (some ttl) = (ttl + 1) / 2

module _ (p : Etcd) where
  abbrev pub Run : Type 0 → Type 0
  Run A = Exec (State p) A

  abbrev pub after : {A : Type 0} → State p → A × p.World → Outcome A × State p
  after s (r, w) = (ok r, record s { world = w })

  -- A call of the service, with its status as a value.
  abbrev pub call : {A : Type 0} → (p.World → A × p.World) → Run A
  call f s = after s (f s.world)

  abbrev pub ensure_succeeded : {A : Type 0} → Reply A → Run A
  ensure_succeeded (answered a) = pure a
  ensure_succeeded (refused code message) = raise (refusal code message)

  abbrev pub as_path : KeyPath → Run Bytes
  as_path path s = (as_path_string s.client.prefix path, s)

  unfoldable pub commit_txn : TxnRequest → Run TxnResponse
  commit_txn txn = do r ← call (p.txn txn); ensure_succeeded r

  -- The callback of the `PingSender`: it returns the next timeout.
  unfoldable pub renew : Int64 → p.World → ℕ × p.World
  renew id w = let (ttl, w') = p.keep_alive id w in (keep_alive_timeout ttl, w')

  unfoldable pub set_lease : LeaseGrantResponse → Run (Unit {0})
  set_lease r s = (
    ok tt,
    record s {
      client = record s.client {
        lease_issuer = record {
          lease_id = r.id;
          ping_sender = some (record { first_timeout = (r.ttl + 1) / 2; lease = r.id });
        };
      };
    },
  )

  -- `create_lease_`, which starts the renewal, and the assignment of `lease_id_`.
  unfoldable pub create_lease : Run (Unit {0})
  unfolding set_lease
  create_lease = do
    reply ← call (p.lease_grant 0 lease_timeout)
    r ← ensure_succeeded reply
    set_lease r

  unfoldable pub get_lease : Run Int64
  get_lease = do
    λ s. (if s.client.lease_issuer.lease_id == 0 then create_lease else pure tt) s
    λ s. (ok s.client.lease_issuer.lease_id, s)

  -- `lease ? get_lease() : 0`.
  unfoldable pub lease_if : Bool → Run Int64
  lease_if true = get_lease
  lease_if false = pure 0

  -- `make_watch_handle_`, if a watch is asked for.
  unfoldable pub watch_if : Bool → WatchCreateRequest → (Event → Bool) → Run (Option WatchHandle)
  watch_if false request stop = pure none
  watch_if true request stop = do
    r ← call (p.create_watch request)
    lift r
    pure (some (record { request = request; stop = stop }))
