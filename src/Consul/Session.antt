-- ===== src/Consul/Session.antt =====
-- consul_client.hpp: the client's fields, its calls of the service, and its session.
use liboffkv.Base.{ℕ, ◌+◌, ◌/◌, Bytes, [], Option, none, some, if◌then◌else◌}
use liboffkv.Errors.{Exception, Outcome, ok}
use liboffkv.Exec.{Exec, pure, raise, ◌>>=◌}
use liboffkv.Key.{KeyPath, is_empty}
use liboffkv.Consul.Service.{delete, Reply, done, fail, Failure, SessionOptions, Ppconsul}
use liboffkv.Consul.Naming.{as_path_string}
use liboffkv.Consul.Replies.{uncaught}

-- In seconds.
abbrev pub ttl : ℕ
ttl = 10

-- What the `PingSender` was started with.
pub record Ping : Type 0 where
  pub first_timeout : ℕ
  pub session : Bytes

-- The fields of the client. The connection, `client_` and `kv_`, is the parameter `p` below.
pub record ConsulClient : Type 0 where
  pub prefix : KeyPath
  pub address : Bytes
  pub session_id : Bytes
  pub ping_sender : Option Ping

unfoldable pub make_client : Bytes → KeyPath → ConsulClient
make_client address prefix = record {
  prefix = prefix;
  address = address;
  session_id = [];
  ping_sender = none;
}

pub record State (p : Ppconsul) : Type 0 where
  pub client : ConsulClient
  pub world : p.World

-- `(TTL + std::chrono::seconds(1)) / 2`.
abbrev pub ping_timeout : ℕ
ping_timeout = (ttl + 1) / 2

abbrev pub session_options : SessionOptions
session_options = record { lock_delay = 0; behavior = delete; ttl = ttl }

unfoldable pub next_timeout : Reply (Unit {0}) → ℕ
next_timeout (done _) = ping_timeout
next_timeout (fail _) = 0

module _ (p : Ppconsul) where
  abbrev pub Run : Type 0 → Type 0
  Run A = Exec (State p) A

  abbrev pub after : {A : Type 0} → State p → Reply A × p.World → Outcome (Reply A) × State p
  after s (r, w) = (ok r, record s { world = w })

  -- A call of the service, with what it throws as a value.
  abbrev pub call : {A : Type 0} → (p.World → Reply A × p.World) → Run (Reply A)
  call f s = after s (f s.world)

  abbrev pub or_throw : {A : Type 0} → (Failure → Exception) → Reply A → Run A
  or_throw h (done a) = pure a
  or_throw h (fail f) = raise (h f)

  abbrev pub as_path : KeyPath → Run Bytes
  as_path path s = (as_path_string s.client.prefix path, s)

  unfoldable pub store_session : Bytes → Run (Unit {0})
  store_session id s = (
    ok tt,
    record s {
      client = record s.client {
        session_id = id;
        ping_sender = some (record { first_timeout = ping_timeout; session = id });
      };
    },
  )

  unfoldable pub start_session : Run (Unit {0})
  start_session = do
    r ← call (p.create_session session_options)
    id ← or_throw uncaught r
    store_session id

  unfoldable pub create_session_if_needed : Run (Unit {0})
  create_session_if_needed s = (if is_empty s.client.session_id then start_session else pure tt) s

  -- The callback of the `PingSender`: it returns the next timeout.
  unfoldable pub renew : Bytes → p.World → ℕ × p.World
  renew id w = let (r, w') = p.renew_session id w in (next_timeout r, w')
