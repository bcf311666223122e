-- ===== src/Open.antt =====
-- liboffkv.hpp: `open` chooses a client by the URL's protocol.
use liboffkv.Base.{Bool, Bytes, codes, bytes_eq, ◌&&◌, ◌++◌, if◌then◌else◌}
use liboffkv.Errors.{Outcome, ok, throw, invalid_address, ◌>>=◌}
use liboffkv.Key.{KeyPath}
use liboffkv.Util.{split_url}

-- config.hpp: which clients the library was built with.
pub record Features : Type 0 where
  pub enable_zk : Bool
  pub enable_consul : Bool
  pub enable_etcd : Bool

-- The constructor that is called, with its arguments.
pub data Target : Type 0 where
  zk : (url : Bytes) → (prefix : KeyPath) → Target
  consul : (address : Bytes) → (prefix : KeyPath) → Target
  etcd : (address : Bytes) → (prefix : KeyPath) → Target

pub open_client : Features → Bytes → KeyPath → Outcome Target
open_client f url prefix = do
  (protocol, address) ← split_url url
  if f.enable_zk && bytes_eq protocol (codes "zk")
      then ok (zk url prefix)
      else if f.enable_consul && bytes_eq protocol (codes "consul")
      then ok (consul address prefix)
      else if f.enable_etcd && bytes_eq protocol (codes "etcd")
      then ok (etcd address prefix)
      else throw (invalid_address (codes "protocol not supported: " ++ protocol))
