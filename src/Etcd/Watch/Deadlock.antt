-- ===== src/Etcd/Watch/Deadlock.antt =====
-- etcd_client.hpp, `ETCDWatchCreator`: the resolution thread waits for the end of a write, which only
-- this thread can announce.
use liboffkv.Base.{true, Bool-cases, ◌≡◌, inl, inr, refl, sym, ap, ◌∙◌, some, arith}
use liboffkv.Errors.{ok}
use liboffkv.Etcd.Watch.{Creator, is_set, setup_watch_infrastructure}
use liboffkv.Etcd.Watch.Threads.{
  Resolver, cancelling, Caller, entering, writing, sent, returned, thrown, Completion, resolve,
  create_watch, System, Step, call, caller, thread, Steps, here, later,
}

-- The thread waits in `cancel_watch_m` while a write is under way.
pub record IsStuck (s : System) : Type 0 where
  pub waits : s.resolver ≡ cancelling
  pub under_way : is_set s.creator.current_write ≡ true

-- No promise has got a value or an exception, no watch has ended, and no response was taken.
pub record SameWatches (c d : Creator) : Type 0 where
  pub same_write : d.current_write ≡ c.current_write
  pub same_settled : d.settled ≡ c.settled
  pub same_handlers : d.handlers ≡ c.handlers
  pub same_response : d.pending_response ≡ c.pending_response

SameWatches-refl : (c d : Creator) → c ≡ d → SameWatches c d
SameWatches-refl c d e = record {
  same_write = ap (λ (q : Creator). q.current_write) (sym e);
  same_settled = ap (λ (q : Creator). q.settled) (sym e);
  same_handlers = ap (λ (q : Creator). q.handlers) (sym e);
  same_response = ap (λ (q : Creator). q.pending_response) (sym e);
}

SameWatches-trans : {c d e : Creator} → SameWatches c d → SameWatches d e → SameWatches c e
SameWatches-trans x y = record {
  same_write = y.same_write ∙ x.same_write;
  same_settled = y.same_settled ∙ x.same_settled;
  same_handlers = y.same_handlers ∙ x.same_handlers;
  same_response = y.same_response ∙ x.same_response;
}

create_watch-SameWatches :
    (x y : Caller) (c d : Creator)
    → is_set c.current_write ≡ true
    → create_watch x c ≡ ok (y, d)
    → SameWatches c d
unfolding create_watch setup_watch_infrastructure
create_watch-SameWatches (entering h) y c d busy e = elim (Bool-cases (is_set c.pending_handler)) [
  | inl p ↦ SameWatches-refl c d (ground (arith, rw (create_watch, p) at e))
  | inr p ↦ elim (Bool-cases c.stream) [
    | inr q ↦ absurd (cc (rw (create_watch, p, q, busy) at e))
    | inl q ↦
        let same : record c { pending_handler = some h } ≡ d =
          ground (arith, rw (create_watch, p, q, busy) at e) in
        SameWatches-trans
          (record {
            same_write = refl;
            same_settled = refl;
            same_handlers = refl;
            same_response = refl;
          })
          (SameWatches-refl (record c { pending_handler = some h }) d same)
  ]
]
create_watch-SameWatches writing y c d busy e =
    SameWatches-refl c d (ground (arith, rw (create_watch, busy) at e))
create_watch-SameWatches (sent n) y c d busy e = SameWatches-refl c d (ground (arith, e))
create_watch-SameWatches returned y c d busy e = SameWatches-refl c d (ground (arith, e))
create_watch-SameWatches thrown y c d busy e = SameWatches-refl c d (ground (arith, e))

thread-SameWatches :
    (completion : Completion) (r : Resolver) (c d : Creator)
    → is_set c.current_write ≡ true
    → resolve completion cancelling c ≡ ok (r, d)
    → (r ≡ cancelling) × SameWatches c d
unfolding resolve
thread-SameWatches completion r c d busy e = (
  ground (arith, rw (resolve, busy) at e),
  SameWatches-refl c d (ground (arith, rw (resolve, busy) at e)),
)

step-SameWatches :
    (s t : System) → IsStuck s → Step s t → IsStuck t × SameWatches s.creator t.creator
step-SameWatches s t stuck (call h same_creator same_resolver one_more) = (
  record {
    waits = same_resolver ∙ stuck.waits;
    under_way = ap (λ (q : Creator). is_set q.current_write) same_creator ∙ stuck.under_way;
  },
  SameWatches-refl s.creator t.creator (sym same_creator),
)
step-SameWatches s t stuck (caller xs ys x y at_x moved same_resolver at_y) =
    let same = create_watch-SameWatches x y s.creator t.creator stuck.under_way moved in
    (
      record {
        waits = same_resolver ∙ stuck.waits;
        under_way = ap is_set same.same_write ∙ stuck.under_way;
      },
      same,
    )
step-SameWatches s t stuck (thread completion moved same_callers) =
    let (waits, same) =
      thread-SameWatches completion t.resolver s.creator t.creator stuck.under_way
        (rw (stuck.waits) at moved) in
    (record { waits = waits; under_way = ap is_set same.same_write ∙ stuck.under_way }, same)

-- Once the resolution thread waits in `cancel_watch_m` while a write is under way, it waits for ever:
-- whatever the callers and the completion queue do, no write ends, no watch ends or fails, and no
-- response is taken.
pub Steps-SameWatches :
    (s t : System) → IsStuck s → Steps s t → IsStuck t × SameWatches s.creator t.creator
Steps-SameWatches s t stuck here = (stuck, SameWatches-refl s.creator s.creator refl)
Steps-SameWatches s t stuck (later {t = u} steps step) =
    let (stuck', same) = Steps-SameWatches s u stuck steps in
    let (stuck'', same') = step-SameWatches u t stuck' step in
    (stuck'', SameWatches-trans same same')
