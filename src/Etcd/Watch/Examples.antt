-- ===== src/Etcd/Watch/Examples.antt =====
-- etcd_client.hpp, `ETCDWatchCreator`: two callers of `create_watch`, the second of which writes its
-- request just before the watch of the first ends.
use liboffkv.Base.{◌≡◌, ◌≢◌, ◌↔◌, refl, codes, true, false, [], ◌∷◌, none, some, if◌then◌else◌}
use liboffkv.Errors.{ok, throw, undefined}
use liboffkv.Client.{Int64}
use liboffkv.Etcd.Service.{EventType}
use liboffkv.Etcd.Watch.{
  WatchEventHandler, WatchResponse, find, assign, remove, Creator, make_creator, fail_all_watches,
  setup_watch_infrastructure, resolve_write, request_read_next, write_now, accepts,
  process_watch_response, take_response,
}
use liboffkv.Etcd.Watch.Threads.{
  idle, cancelling, entering, writing, sent, init_stream, write_finished, response_got, deliver,
  resolve, value_of, create_watch, System, init, call, caller, thread, Steps, here, later,
}
use liboffkv.Etcd.Watch.Handlers.{IsOver, process_watch_response-IsOver}
use liboffkv.Etcd.Watch.Safety.{IsConsistent, Steps-setup, create_watch-undefined}
use liboffkv.Etcd.Watch.Deadlock.{IsStuck, SameWatches, Steps-SameWatches}

runs : Unit {0}
unfolding find assign remove fail_all_watches setup_watch_infrastructure resolve_write
    request_read_next write_now accepts process_watch_response take_response deliver resolve
    value_of create_watch
runs = tt

-- Its watch ends with any event.
abbrev any : WatchEventHandler
any = record { process_event = λ event. true }

abbrev created : WatchResponse
created = record { created = true; canceled = false; watch_id = 7; events = [] }

abbrev changed : WatchResponse
changed = record {
  created = false;
  canceled = false;
  watch_id = 7;
  events = record { type = EventType.put; key = codes "a" } ∷ [];
}

abbrev called : System
called = record init { callers = entering any ∷ [] }

abbrev opening : System
opening = record {
  creator = record make_creator {
    stream = true;
    running = true;
    current_write = some 0;
    writes = 1;
    pending_handler = some any;
  };
  resolver = idle;
  callers = writing ∷ [];
}

abbrev opened : System
opened = record opening {
  creator = record opening.creator {
    pending_response = true;
    current_write = none;
    settled = (0, true) ∷ [];
  };
}

abbrev asked : System
asked = record opened {
  creator = record opened.creator { current_write = some 1; writes = 2 };
  callers = sent 1 ∷ [];
}

abbrev wrote : System
wrote = record asked {
  creator = record asked.creator { current_write = none; settled = (1, true) ∷ (0, true) ∷ [] };
}

abbrev watching : System
watching = record wrote {
  creator = record wrote.creator { handlers = (7, any) ∷ []; pending_handler = none };
}

abbrev called_again : System
called_again = record watching { callers = sent 1 ∷ entering any ∷ [] }

abbrev asked_again : System
asked_again = record watching {
  creator = record watching.creator {
    current_write = some 2;
    writes = 3;
    pending_handler = some any;
  };
  callers = sent 1 ∷ sent 2 ∷ [];
}

abbrev stuck : System
stuck = record asked_again {
  creator = record asked_again.creator { pending_response = false; handlers = [] };
  resolver = cancelling;
}

to_opened : Steps init opened
unfolding runs
to_opened =
    later {t = opening}
      (later {t = called} (later here (call any refl refl refl))
        (caller [] [] (entering any) writing refl refl refl refl))
      (thread init_stream refl refl)

to_watching : Steps init watching
unfolding runs
to_watching =
    later {t = wrote}
      (later {t = asked} (later to_opened (caller [] [] writing (sent 1) refl refl refl refl))
        (thread write_finished refl refl))
      (thread (response_got created) refl refl)

to_stuck : Steps init stuck
unfolding runs
to_stuck =
    later {t = asked_again}
      (later {t = called_again} (later to_watching (call any refl refl refl))
        (caller (sent 1 ∷ []) [] (entering any) (sent 2) refl refl refl refl))
      (thread (response_got changed) refl refl)

-- A third caller waits, too.
abbrev called_thrice : System
called_thrice = record stuck { callers = sent 1 ∷ sent 2 ∷ entering any ∷ [] }

Steps-SameWatches_example : IsStuck called_thrice × SameWatches stuck.creator called_thrice.creator
Steps-SameWatches_example =
    Steps-SameWatches stuck called_thrice (record { waits = refl; under_way = refl })
      (later here (call any refl refl refl))

Steps-setup_example :
    IsConsistent stuck.creator
    × ((after : Creator) × (setup_watch_infrastructure stuck.creator ≡ ok after))
Steps-setup_example = Steps-setup stuck to_stuck

create_watch-undefined_example :
    (writing ≡ writing)
    × (create_watch writing (fail_all_watches opening.creator).0 ≡ throw undefined)
unfolding runs
create_watch-undefined_example =
    create_watch-undefined any make_creator opening.creator writing refl refl refl

process_watch_response-IsOver_example :
    (((process_watch_response changed watching.creator).0 ≡ true)
      ↔ IsOver changed (find 7 watching.creator.handlers))
    × (find 7 (process_watch_response changed watching.creator).1.handlers ≡ (
        if (process_watch_response changed watching.creator).0
        then none
        else find 7 watching.creator.handlers))
    × ((k : Int64)
        → k ≢ 7
        → find k (process_watch_response changed watching.creator).1.handlers
          ≡ find k watching.creator.handlers)
process_watch_response-IsOver_example = process_watch_response-IsOver changed watching.creator
