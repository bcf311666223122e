-- ===== src/PingSender/Reach.antt =====
-- ping_sender.hpp: the interleavings of the sender's owner and the thread.
use liboffkv.Base.{ℕ, ◌≡◌}
use liboffkv.Errors.{ok}
use liboffkv.PingSender.{System, make, destroy, run_thread}

pub data Step (s t : System) : Type 0 where
  owner : destroy s ≡ ok t → Step s t
  thread : (next : ℕ) → run_thread next s ≡ ok t → Step s t

pub data Reach (first_timeout : ℕ) : System → Type 0 where
  start : Reach first_timeout (make first_timeout)
  later : {s t : System} → Reach first_timeout s → Step s t → Reach first_timeout t
