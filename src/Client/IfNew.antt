-- ===== src/Client/IfNew.antt =====
-- client.hpp: `cas` with the version 0, which the clients make of `create`.
use liboffkv.Base.{refl, Bytes, List, inl, inr}
use liboffkv.Errors.{Outcome, ok, throw, no_entry, entry_exists}
use liboffkv.Client.{Int64, CasResult}
use liboffkv.Client.Spec.{Tree, Creates, CreatesIfNew}

-- With the version 0, `cas` turns the exception of `create` for a key that is there into a result.
unfoldable pub if_there : Outcome Int64 → Outcome CasResult
if_there (ok n) = ok (record { version = n })
if_there (throw entry_exists) = ok (record { version = 0 })
if_there (throw e) = throw e

module _ (before after : Tree) (up : List Bytes) (last value : Bytes) where
  pub Creates-CreatesIfNew :
      (o : Outcome Int64)
      → Creates before after up last value o
      → CreatesIfNew before after up last value (if_there o)
  unfolding if_there
  Creates-CreatesIfNew (ok n) h = inl h
  Creates-CreatesIfNew (throw entry_exists) h = inr (refl, h.0, h.1)
  Creates-CreatesIfNew (throw no_entry) h = h
  Creates-CreatesIfNew (throw _) h = h
