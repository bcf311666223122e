-- ===== src/Util/Examples.antt =====
-- util.hpp and liboffkv.hpp on concrete URLs.
use liboffkv.Base.{ℕ, ◌≡◌, ◌⊎◌, refl, codes, Bytes}
use liboffkv.Errors.{ok, throw}
use liboffkv.Util.{starts_with, find, delim, split_url}
use liboffkv.Util.Laws.{StandsAt, IsSplit, no_delim, split_url_cases}

split_url_test : split_url (codes "zk://host://x") ≡ ok (codes "zk", codes "host://x")
unfolding split_url find starts_with
split_url_test = refl

split_url_cases_example :
    ((protocol : Bytes) × (address : Bytes) × (split_url (codes "etcd://host")
        ≡ ok (protocol, address))
      × IsSplit (codes "etcd://host") protocol address)
    ⊎ ((split_url (codes "etcd://host") ≡ throw no_delim)
        × ((n : ℕ) → ¬ StandsAt delim n (codes "etcd://host")))
split_url_cases_example = split_url_cases (codes "etcd://host")
