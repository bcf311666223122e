-- ===== src/Etcd/Watch/Handlers.antt =====
-- etcd_client.hpp, `ETCDWatchCreator`: which handler gets which response, and when a watch ends.
use liboffkv.Base.{
  true, false, Bool-cases, ◌≡◌, ◌≢◌, ◌↔◌, ◌⊎◌, inl, inr, refl, List, [], ◌∷◌, Option, none, some,
  ◌==◌, if◌then◌else◌, arith,
}
use liboffkv.Errors.{ok}
use liboffkv.Client.{Int64}
use liboffkv.Etcd.Service.{Event}
use liboffkv.Etcd.Watch.{
  WatchEventHandler, WatchResponse, Handlers, find, assign, remove, Creator, accepts,
  process_watch_response, take_response,
}

find-assign :
    (k id : Int64) (new : WatchEventHandler) (m : Handlers)
    → find k (assign id new m) ≡ (if id == k then some new else find k m)
unfolding find assign
find-assign k id new [] = refl
find-assign k id new ((j, h) ∷ m) = ground (arith, find-assign k id new m)

find-remove :
    (k id : Int64) (m : Handlers) → find k (remove id m) ≡ (if id == k then none else find k m)
unfolding find remove
find-remove k id [] = ground arith
find-remove k id ((j, h) ∷ m) = ground (arith, find-remove k id m)

-- One of the events ends the watch.
abbrev pub AnyEnds : WatchEventHandler → List Event → Type 0
AnyEnds h [] = ⊥
AnyEnds h (event ∷ events) = (h.process_event event ≡ true) ⊎ AnyEnds h events

accepts_iff :
    (h : WatchEventHandler) (events : List Event) → (accepts h events ≡ true) ↔ AnyEnds h events
unfolding accepts
accepts_iff h [] = (λ e. absurd (cc e), λ e. absurd e)
accepts_iff h (event ∷ events) = ground (arith, accepts_iff h events)

-- The watch of a response is over for the client: it has no handler, or one of the events ends it.
abbrev pub IsOver : WatchResponse → Option WatchEventHandler → Type 0
IsOver response none = Unit
IsOver response (some h) = AnyEnds h response.events

processed-IsOver :
    (response : WatchResponse) (c : Creator) (o : Option WatchEventHandler)
    → find response.watch_id c.handlers ≡ o
    → (((process_watch_response response c).0 ≡ true) ↔ IsOver response o)
      × (find response.watch_id (process_watch_response response c).1.handlers
          ≡ (if (process_watch_response response c).0 then none else o))
      × ((k : Int64)
          → k ≢ response.watch_id
          → find k (process_watch_response response c).1.handlers ≡ find k c.handlers)
unfolding process_watch_response
processed-IsOver response c none e = rw e ((λ _. tt, λ _. refl), e, λ k ne. refl)
processed-IsOver response c (some h) e = elim (Bool-cases (accepts h response.events)) [
  | inl b ↦
      rw (e, b)
        (
          (λ _. (accepts_iff h response.events).0 b, λ _. refl),
          rw (find-remove response.watch_id response.watch_id c.handlers) (ground arith),
          λ k ne. rw (find-remove k response.watch_id c.handlers) (ground (arith, ne)),
        )
  | inr b ↦
      rw (e, b)
        (
          (λ h'. absurd (cc h'), λ ends. absurd (cc (b, (accepts_iff h response.events).1 ends))),
          e,
          λ k ne. refl,
        )
]

-- `process_watch_response_m` returns true exactly if the response's watch has no handler or one of
-- the events ends it. Then the watch has no handler afterwards, and otherwise it keeps its own. The
-- handlers of other watches stay as they are.
pub process_watch_response-IsOver :
    (response : WatchResponse) (c : Creator)
    → (((process_watch_response response c).0 ≡ true)
        ↔ IsOver response (find response.watch_id c.handlers))
      × (find response.watch_id (process_watch_response response c).1.handlers ≡ (
          if (process_watch_response response c).0
          then none
          else find response.watch_id c.handlers))
      × ((k : Int64)
          → k ≢ response.watch_id
          → find k (process_watch_response response c).1.handlers ≡ find k c.handlers)
process_watch_response-IsOver response c =
    processed-IsOver response c (find response.watch_id c.handlers) refl

-- If the response to a request for a watch is in while a caller of `create_watch` waits for it, then
-- this caller's handler becomes that of the response's watch, other watches keep theirs, and
-- the next caller may enter.
pub take_response-created :
    (response : WatchResponse) (c : Creator) (h : WatchEventHandler)
    → response.created ≡ true
    → c.pending_response ≡ true
    → c.pending_handler ≡ some h
    → (after : Creator) × (take_response response c ≡ ok (false, after))
      × (find response.watch_id after.handlers ≡ some h)
      × ((k : Int64) → k ≢ response.watch_id → find k after.handlers ≡ find k c.handlers)
      × (after.pending_handler ≡ none)
unfolding take_response
take_response-created response c h created pending waiting = (
  record c {
    pending_response = false;
    handlers = assign response.watch_id h c.handlers;
    pending_handler = none;
  },
  rw (pending, created, waiting) refl,
  rw (find-assign response.watch_id response.watch_id h c.handlers) (ground arith),
  λ k ne. rw (find-assign k response.watch_id h c.handlers) (ground (arith, ne)),
  refl,
)
