-- ===== src/Etcd/Watch.antt =====
-- etcd_client.hpp, `ETCDWatchCreator`: its fields, and what its methods do under the lock. A promise
-- is known by its number. `std::logic_error` is `foreign`, and the use of a null pointer `undefined`.
pub mod Threads
pub mod Handlers
pub mod Safety
pub mod Deadlock
mod Examples
use liboffkv.Base.{
  ℕ, suc, ◌+◌, Bool, true, false, not, ◌||◌, ◌≡◌, Bytes, codes, List, [], ◌∷◌, ◌++◌, Option, none,
  some, map, ◌==◌, ltb, if◌then◌else◌,
}
use liboffkv.Errors.{Outcome, ok, throw, foreign, undefined, ◌>>=◌}
use liboffkv.Client.{Int64}
use liboffkv.Etcd.Service.{Event}

-- `process_event` says whether the watch ends with the event.
pub record WatchEventHandler : Type 0 where
  pub process_event : Event → Bool

pub record WatchResponse : Type 0 where
  pub created : Bool
  pub canceled : Bool
  pub watch_id : Int64
  pub events : List Event

-- `watch_handlers_`, in the order of the keys.
abbrev pub Handlers : Type 0
Handlers = List (Int64 × WatchEventHandler)

unfoldable pub find : Int64 → Handlers → Option WatchEventHandler
find id [] = none
find id ((k, h) ∷ m) = if k == id then some h else find id m

unfoldable pub assign : Int64 → WatchEventHandler → Handlers → Handlers
assign id new [] = (id, new) ∷ []
assign id new ((k, h) ∷ m) =
    let later = (k, h) ∷ assign id new m in
    if k == id then (id, new) ∷ m else if ltb id k then (id, new) ∷ (k, h) ∷ m else later

unfoldable pub remove : Int64 → Handlers → Handlers
remove id [] = []
remove id ((k, h) ∷ m) = let rest = remove id m in if k == id then rest else (k, h) ∷ rest

-- `stream` and `pending_response` tell whether the pointer is set. `writes` is the number of promises
-- made so far, `settled` has those with a value, or with an exception (`false`).
pub record Creator : Type 0 where
  pub stream : Bool
  pub pending_response : Bool
  pub handlers : Handlers
  pub running : Bool
  pub current_write : Option ℕ
  pub pending_handler : Option WatchEventHandler
  pub writes : ℕ
  pub settled : List (ℕ × Bool)

-- The constructor.
abbrev pub make_creator : Creator
make_creator = record {
  stream = false;
  pending_response = false;
  handlers = [];
  running = false;
  current_write = none;
  pending_handler = none;
  writes = 0;
  settled = [];
}

abbrev pub settle : Option ℕ → Bool → List (ℕ × Bool) → List (ℕ × Bool)
settle none value settled = settled
settle (some n) value settled = (n, value) ∷ settled

abbrev pub is_set : {A : Type 0} → Option A → Bool
is_set none = false
is_set (some a) = true

abbrev pub pending_last : Option WatchEventHandler → List WatchEventHandler
pending_last none = []
pending_last (some h) = h ∷ []

-- `fail_all_watches`, with the handlers whose `process_failure` it calls.
unfoldable pub fail_all_watches : Creator → Creator × List WatchEventHandler
fail_all_watches c = (
  record c {
    stream = false;
    pending_response = false;
    handlers = [];
    current_write = none;
    pending_handler = none;
    settled = settle c.current_write false c.settled;
  },
  map (λ e. e.1) c.handlers ++ pending_last c.pending_handler,
)

abbrev new_write : Creator → Creator
new_write c = record c { current_write = some c.writes; writes = suc c.writes }

abbrev inconsistent : Bytes
inconsistent = codes "Inconsistent internal state"

unfoldable pub setup_watch_infrastructure : Creator → Outcome Creator
setup_watch_infrastructure c =
    if c.stream
    then ok c
    else if is_set c.current_write
    then throw (foreign inconsistent)
    else ok (record (new_write c) { stream = true; running = true })

unfoldable pub resolve_write : Creator → Outcome Creator
resolve_write c =
    if is_set c.current_write
    then ok (record c { current_write = none; settled = settle c.current_write true c.settled })
    else throw undefined

unfoldable pub request_read_next : Creator → Outcome Creator
request_read_next c =
    if c.pending_response
    then throw (foreign inconsistent)
    else if c.stream
    then ok (record c { pending_response = true })
    else throw undefined

-- `write_to_watch_stream_m` from the end of its waiting loop on.
unfoldable pub write_now : Creator → Outcome Creator
write_now c = if c.stream then ok (new_write c) else throw undefined

-- The loop over the events: it stops at the first that ends the watch.
unfoldable pub accepts : WatchEventHandler → List Event → Bool
accepts h [] = false
accepts h (event ∷ events) =
    let later = accepts h events in if h.process_event event then true else later

abbrev processed : Option WatchEventHandler → WatchResponse → Creator → Bool × Creator
processed none response c = (true, c)
processed (some h) response c =
    if accepts h response.events
    then (true, record c { handlers = remove response.watch_id c.handlers })
    else (false, c)

unfoldable pub process_watch_response : WatchResponse → Creator → Bool × Creator
process_watch_response response c = processed (find response.watch_id c.handlers) response c

abbrev pub register : Int64 → Option WatchEventHandler → Creator → Outcome Creator
register id none c = throw undefined
register id (some h) c = ok (record c { handlers = assign id h c.handlers; pending_handler = none })

-- A response is in: whether its watch is to be cancelled.
unfoldable pub take_response : WatchResponse → Creator → Outcome (Bool × Creator)
take_response response c =
    if not c.pending_response
    then ok (false, c)
    else if response.created
    then (do
      after ← register response.watch_id c.pending_handler (record c { pending_response = false })
      ok (false, after))
    else if response.canceled
    then ok (false, record c { pending_response = false })
    else ok (process_watch_response response (record c { pending_response = false }))
