-- ===== src/PingSender.antt =====
-- ping_sender.hpp: `PingControl`, `PingSender` and its thread, which share the control object. The
-- use of the object once it is deleted is undefined behaviour.
pub mod Reach
pub mod Safety
pub mod Owners
pub mod Ownership
mod Examples
use liboffkv.Base.{ℕ, Bool, true, false, Option, none, some, if◌then◌else◌}
use liboffkv.Errors.{Outcome, ok, throw, undefined, ◌>>=◌}

pub record PingControl : Type 0 where
  pub closed : Bool

-- Where the thread is: in `wait` with a timeout, in the callback, or behind the loop.
pub data Thread : Type 0 where
  waiting : (timeout : ℕ) → Thread
  calling ended : Thread

-- The control object while it exists, the thread, and whether a `PingSender` has the object in
-- its `ctl_`. A move hands `ctl_` on, so there is at most one.
pub record System : Type 0 where
  pub ctl : Option PingControl
  pub thread : Thread
  pub sender : Bool

-- `PingSender(first_timeout, callback)`.
abbrev pub make : ℕ → System
make first_timeout = record {
  ctl = some (record { closed = false });
  thread = waiting first_timeout;
  sender = true;
}

unfoldable pub close : Option PingControl → Outcome (Option PingControl)
close none = throw undefined
close (some ctl) = ok (some (record { closed = true }))

-- `destroy_`, from the destructor or from an assignment.
unfoldable pub destroy : System → Outcome System
unfolding close
destroy s =
    if s.sender then (do ctl ← close s.ctl; ok (record s { ctl = ctl; sender = false })) else ok s

-- `wait` returns whether the object is closed: at once if it is, or when the time is over.
unfoldable pub wait : Option PingControl → Outcome Bool
wait none = throw undefined
wait (some ctl) = ok ctl.closed

-- The thread goes on: `wait` returns, or the callback does with the timeout `next`.
unfoldable pub run_thread : (next : ℕ) → System → Outcome System
unfolding wait
run_thread next s = elim s.thread [
  | waiting timeout ↦ (do
    closed ← wait s.ctl
    ok (if closed then record s { ctl = none; thread = ended } else record s { thread = calling }))
  | calling ↦ ok (record s { thread = waiting next })
  | ended ↦ ok s
]
