-- ===== src/Etcd/Watch/Safety.antt =====
-- etcd_client.hpp, `ETCDWatchCreator`: what holds of its fields whenever the lock is free, and what
-- happens when the stream fails.
use liboffkv.Base.{
  suc, Bool, ◌||◌, ◌&&◌, not, true, false, Bool-cases, subst, ◌≡◌, inl, inr, refl, sym, none, some,
  if◌then◌else◌, arith,
}
use liboffkv.Errors.{ok, throw, undefined, >>=-eq-ok}
use liboffkv.Etcd.Watch.{
  WatchEventHandler, WatchResponse, Creator, is_set, fail_all_watches, setup_watch_infrastructure,
  resolve_write, request_read_next, write_now, process_watch_response, take_response,
}
use liboffkv.Etcd.Watch.Threads.{
  Resolver, idle, cancelling, Caller, entering, writing, sent, returned, thrown, Completion, failed,
  init_stream, write_finished, response_got, deliver, resolve, create_watch, finish_cancel,
  cancel_watch, read_next, write_or_wait, System, init, call, caller, thread, Steps, here, later,
}

-- Without a stream there is no write under way and no response to come.
abbrev pub consistent : Creator → Bool
consistent c = c.stream || (not (is_set c.current_write) && not c.pending_response)

abbrev pub IsConsistent : Creator → Type 0
IsConsistent c = consistent c ≡ true

module _ (c d : Creator) (inv : IsConsistent c) where
  setup-IsConsistent : setup_watch_infrastructure c ≡ ok d → IsConsistent d
  unfolding setup_watch_infrastructure
  setup-IsConsistent e = ground (arith, inv, e)

  write_now-IsConsistent : write_now c ≡ ok d → IsConsistent d
  unfolding write_now
  write_now-IsConsistent e = ground (arith, inv, e)

  resolve_write-IsConsistent : resolve_write c ≡ ok d → IsConsistent d
  unfolding resolve_write
  resolve_write-IsConsistent e = ground (arith, inv, e)

  request_read_next-IsConsistent : request_read_next c ≡ ok d → IsConsistent d
  unfolding request_read_next
  request_read_next-IsConsistent e = ground (arith, inv, e)

  take_response-IsConsistent :
      (response : WatchResponse) (ends : Bool)
      → take_response response c ≡ ok (ends, d)
      → IsConsistent d
  unfolding take_response process_watch_response
  take_response-IsConsistent response ends e = ground (arith, inv, e)

fail-IsConsistent : (c : Creator) → IsConsistent (fail_all_watches c).0
unfolding fail_all_watches
fail-IsConsistent c = refl

finish_cancel-IsConsistent :
    (c d : Creator) (r : Resolver) → IsConsistent c → finish_cancel c ≡ ok (r, d) → IsConsistent d
finish_cancel-IsConsistent c d r inv e =
    let (written, w, rest) = >>=-eq-ok (write_now c) _ e in
    let (after, q, last) = >>=-eq-ok (request_read_next written) _ rest in
    let same : after ≡ d = cc last in
    subst IsConsistent same
      (request_read_next-IsConsistent written after (write_now-IsConsistent c written inv w) q)

cancel_watch-IsConsistent :
    (c d : Creator) (r : Resolver) → IsConsistent c → cancel_watch c ≡ ok (r, d) → IsConsistent d
cancel_watch-IsConsistent c d r inv e =
    let (ready, s, rest) = >>=-eq-ok (setup_watch_infrastructure c) _ e in
    let inv' = setup-IsConsistent c ready inv s in
    elim (Bool-cases (is_set ready.current_write)) [
      | inl b ↦ let same : ready ≡ d = cc (rw b at rest) in subst IsConsistent same inv'
      | inr b ↦ finish_cancel-IsConsistent ready d r inv' (rw b at rest)
    ]

read_next-IsConsistent :
    (c d : Creator) (r : Resolver) → IsConsistent c → read_next c ≡ ok (r, d) → IsConsistent d
read_next-IsConsistent c d r inv e =
    let (after, q, last) = >>=-eq-ok (request_read_next c) _ e in
    let same : after ≡ d = cc last in
    subst IsConsistent same (request_read_next-IsConsistent c after inv q)

deliver-IsConsistent :
    (completion : Completion) (c d : Creator) (r : Resolver)
    → IsConsistent c
    → deliver completion c ≡ ok (r, d)
    → IsConsistent d
unfolding deliver
deliver-IsConsistent failed c d r inv e =
    let same : (fail_all_watches c).0 ≡ d = cc e in subst IsConsistent same (fail-IsConsistent c)
deliver-IsConsistent init_stream c d r inv e =
    let (resolved, w, rest) = >>=-eq-ok (resolve_write c) _ e in
    read_next-IsConsistent resolved d r (resolve_write-IsConsistent c resolved inv w) rest
deliver-IsConsistent write_finished c d r inv e =
    let (resolved, w, rest) = >>=-eq-ok (resolve_write c) _ e in
    let same : resolved ≡ d = cc rest in
    subst IsConsistent same (resolve_write-IsConsistent c resolved inv w)
deliver-IsConsistent (response_got response) c d r inv e =
    let ((ends, after), w, rest) = >>=-eq-ok (take_response response c) _ e in
    let inv' = take_response-IsConsistent c after inv response ends w in
    elim (Bool-cases ends) [
      | inl b ↦ cancel_watch-IsConsistent after d r inv' (rw b at rest)
      | inr b ↦ read_next-IsConsistent after d r inv' (rw b at rest)
    ]

idle-IsConsistent :
    (completion : Completion) (c d : Creator) (r : Resolver) (b : Bool)
    → IsConsistent c
    → (if b then deliver completion c else ok (idle, c)) ≡ ok (r, d)
    → IsConsistent d
idle-IsConsistent completion c d r true inv e = deliver-IsConsistent completion c d r inv e
idle-IsConsistent completion c d r false inv e =
    let same : c ≡ d = cc e in subst IsConsistent same inv

resolve-IsConsistent :
    (completion : Completion) (q r : Resolver) (c d : Creator)
    → IsConsistent c
    → resolve completion q c ≡ ok (r, d)
    → IsConsistent d
unfolding resolve
resolve-IsConsistent completion idle r c d inv e =
    idle-IsConsistent completion c d r c.running inv e
resolve-IsConsistent completion cancelling r c d inv e =
    elim (Bool-cases (is_set c.current_write)) [
      | inl b ↦ let same : c ≡ d = cc (rw (resolve, b) at e) in subst IsConsistent same inv
      | inr b ↦ finish_cancel-IsConsistent c d r inv (rw (resolve, b) at e)
    ]

write_or_wait-IsConsistent :
    (c d : Creator) (y : Caller) → IsConsistent c → write_or_wait c ≡ ok (y, d) → IsConsistent d
write_or_wait-IsConsistent c d y inv e = elim (Bool-cases (is_set c.current_write)) [
  | inl b ↦ let same : c ≡ d = cc (rw b at e) in subst IsConsistent same inv
  | inr b ↦
      let (written, w, rest) =
        >>=-eq-ok (write_now c) (λ written. ok (sent c.writes, written)) (rw b at e) in
      let same : written ≡ d = cc rest in
      subst IsConsistent same (write_now-IsConsistent c written inv w)
]

create_watch-IsConsistent :
    (x y : Caller) (c d : Creator) → IsConsistent c → create_watch x c ≡ ok (y, d) → IsConsistent d
unfolding create_watch
create_watch-IsConsistent (entering h) y c d inv e = elim (Bool-cases (is_set c.pending_handler)) [
  | inl b ↦ let same : c ≡ d = cc (rw (create_watch, b) at e) in subst IsConsistent same inv
  | inr b ↦
      let (ready, s, rest) =
        >>=-eq-ok (setup_watch_infrastructure (record c { pending_handler = some h })) write_or_wait
          (rw (create_watch, b) at e) in
      write_or_wait-IsConsistent ready d y
        (setup-IsConsistent (record c { pending_handler = some h }) ready inv s) rest
]
create_watch-IsConsistent writing y c d inv e = write_or_wait-IsConsistent c d y inv e
create_watch-IsConsistent (sent n) y c d inv e =
    let same : c ≡ d = cc e in subst IsConsistent same inv
create_watch-IsConsistent returned y c d inv e =
    let same : c ≡ d = cc e in subst IsConsistent same inv
create_watch-IsConsistent thrown y c d inv e =
    let same : c ≡ d = cc e in subst IsConsistent same inv

Steps-IsConsistent : (s : System) → Steps init s → IsConsistent s.creator
Steps-IsConsistent s here = refl
Steps-IsConsistent s (later {t = u} steps (call h same _ _)) =
    subst IsConsistent (sym same) (Steps-IsConsistent u steps)
Steps-IsConsistent s (later {t = u} steps (caller xs ys x y _ moved _ _)) =
    create_watch-IsConsistent x y u.creator s.creator (Steps-IsConsistent u steps) moved
Steps-IsConsistent s (later {t = u} steps (thread completion moved _)) =
    resolve-IsConsistent completion u.resolver s.resolver u.creator s.creator
      (Steps-IsConsistent u steps) moved

setup-returns :
    (c : Creator) → IsConsistent c → (after : Creator) × (setup_watch_infrastructure c ≡ ok after)
unfolding setup_watch_infrastructure
setup-returns c inv = elim (Bool-cases c.stream) [
  | inl s ↦ (c, ground (arith, s))
  | inr s ↦ (
    record c {
      stream = true;
      running = true;
      current_write = some c.writes;
      writes = suc c.writes;
    },
    ground (arith, s, inv),
  )
]

-- Whatever the callers, the thread and the queue have done, in any order: whenever the lock is free,
-- no write is under way and no response is awaited without a stream, so
-- `setup_watch_infrastructure_m` does not throw its `std::logic_error`.
pub Steps-setup :
    (s : System)
    → Steps init s
    → IsConsistent s.creator
      × ((after : Creator) × (setup_watch_infrastructure s.creator ≡ ok after))
Steps-setup s steps = let inv = Steps-IsConsistent s steps in (inv, setup-returns s.creator inv)

-- If the stream cannot be set up, then a caller of `create_watch` who waits for it is woken by
-- `fail_all_watches` and writes to the stream, which is a null pointer by then.
pub create_watch-undefined :
    (h : WatchEventHandler) (c after : Creator) (x : Caller)
    → c.stream ≡ false
    → c.pending_handler ≡ none
    → create_watch (entering h) c ≡ ok (x, after)
    → (x ≡ writing) × (create_watch x (fail_all_watches after).0 ≡ throw undefined)
unfolding create_watch setup_watch_infrastructure fail_all_watches write_now
create_watch-undefined h c after x no_stream free e =
    let waits : x ≡ writing = ground (arith, e, no_stream, free) in (waits, rw waits refl)
