-- ===== src/Etcd/Watch/Threads.antt =====
-- etcd_client.hpp, `ETCDWatchCreator`: the thread that resolves the stream's answers, the callers of
-- `create_watch`, and their steps, each from one point where the lock is free to the next.
use liboffkv.Base.{
  ℕ, Bool, true, false, ◌≡◌, List, [], ◌∷◌, ◌++◌, Option, none, some, ◌==◌, if◌then◌else◌,
}
use liboffkv.Errors.{Outcome, ok, ◌>>=◌}
use liboffkv.Etcd.Watch.{
  WatchEventHandler, WatchResponse, Creator, make_creator, is_set, fail_all_watches,
  setup_watch_infrastructure, resolve_write, request_read_next, write_now, take_response,
}

-- What the completion queue hands out: a failure, or one of the three tags.
pub data Completion : Type 0 where
  failed init_stream write_finished : Completion
  response_got : WatchResponse → Completion

-- The thread waits for the queue, or in `cancel_watch_m` for the end of a write.
pub data Resolver : Type 0 where
  idle cancelling : Resolver

-- A caller waits for the other one to be answered, for the end of a write, for its own write, or
-- is done.
pub data Caller : Type 0 where
  entering : WatchEventHandler → Caller
  writing : Caller
  sent : (write : ℕ) → Caller
  returned thrown : Caller

-- `cancel_watch_m`, as far as it goes without waiting, and then the next read.
abbrev pub finish_cancel : Creator → Outcome (Resolver × Creator)
finish_cancel c = do written ← write_now c; after ← request_read_next written; ok (idle, after)

abbrev pub cancel_watch : Creator → Outcome (Resolver × Creator)
cancel_watch c = do
  ready ← setup_watch_infrastructure c
  if is_set ready.current_write then ok (cancelling, ready) else finish_cancel ready

abbrev pub read_next : Creator → Outcome (Resolver × Creator)
read_next c = do after ← request_read_next c; ok (idle, after)

-- One turn of `watch_resolution_loop_`.
unfoldable pub deliver : Completion → Creator → Outcome (Resolver × Creator)
deliver failed c = ok (idle, (fail_all_watches c).0)
deliver init_stream c = do resolved ← resolve_write c; read_next resolved
deliver write_finished c = do resolved ← resolve_write c; ok (idle, resolved)
deliver (response_got response) c = take_response response c >>= λ (ends, after).
    if ends then cancel_watch after else read_next after

-- The thread goes on, if it has been started.
unfoldable pub resolve : Completion → Resolver → Creator → Outcome (Resolver × Creator)
resolve completion idle c = if c.running then deliver completion c else ok (idle, c)
resolve completion cancelling c =
    if is_set c.current_write then ok (cancelling, c) else finish_cancel c

abbrev pub write_or_wait : Creator → Outcome (Caller × Creator)
write_or_wait c =
    if is_set c.current_write
    then ok (writing, c)
    else (do written ← write_now c; ok (sent c.writes, written))

abbrev get : Option Bool → (write : ℕ) → Caller
get none write = sent write
get (some true) write = returned
get (some false) write = thrown

unfoldable pub value_of : ℕ → List (ℕ × Bool) → Option Bool
value_of write [] = none
value_of write ((n, value) ∷ settled) = if n == write then some value else value_of write settled

-- A call of `create_watch` goes on; it begins at `entering`.
unfoldable pub create_watch : Caller → Creator → Outcome (Caller × Creator)
create_watch (entering h) c = if is_set c.pending_handler then ok (entering h, c) else (do
  ready ← setup_watch_infrastructure (record c { pending_handler = some h })
  write_or_wait ready)
create_watch writing c = write_or_wait c
create_watch (sent write) c = ok (get (value_of write c.settled) write, c)
create_watch returned c = ok (returned, c)
create_watch thrown c = ok (thrown, c)

pub record System : Type 0 where
  pub creator : Creator
  pub resolver : Resolver
  pub callers : List Caller

abbrev pub init : System
init = record { creator = make_creator; resolver = idle; callers = [] }

pub data Step (s t : System) : Type 0 where
  call :
      (h : WatchEventHandler)
      → t.creator ≡ s.creator
      → t.resolver ≡ s.resolver
      → t.callers ≡ s.callers ++ entering h ∷ []
      → Step s t
  caller :
      (xs ys : List Caller) (x y : Caller)
      → s.callers ≡ xs ++ x ∷ ys
      → create_watch x s.creator ≡ ok (y, t.creator)
      → t.resolver ≡ s.resolver
      → t.callers ≡ xs ++ y ∷ ys
      → Step s t
  thread :
      (completion : Completion)
      → resolve completion s.resolver s.creator ≡ ok (t.resolver, t.creator)
      → t.callers ≡ s.callers
      → Step s t

pub data Steps (s : System) : System → Type 0 where
  here : Steps s s
  later : {t u : System} → Steps s t → Step t u → Steps s u
