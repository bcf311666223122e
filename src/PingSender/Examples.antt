-- ===== src/PingSender/Examples.antt =====
-- The theorems on `PingSender` at one run: the first wait times out, and the sender is destroyed
-- while the callback runs.
use liboffkv.Base.{ℕ, ◌≡◌, refl, true, false, some, none}
use liboffkv.Errors.{ok}
use liboffkv.PingSender.{System, calling, ended, destroy, close, run_thread, wait}
use liboffkv.PingSender.Reach.{owner, thread, Reach}
use liboffkv.PingSender.Owners.{
  Senders, nobody, put, start, move_assign, destroy_ctl, take_over, destruct, Steps, at_first,
  later, started, move_assigned,
}
use liboffkv.PingSender.Ownership.{Steps-owners}
use liboffkv.PingSender.Safety.{Reach-defined, Reach-ends}

abbrev called : System
called = record { ctl = some (record { closed = false }); thread = calling; sender = true }

abbrev abandoned : System
abandoned = record { ctl = some (record { closed = true }); thread = calling; sender = false }

called-Reach : Reach 5 called
unfolding run_thread wait
called-Reach = Reach.later Reach.start (thread 5 refl)

abandoned-Reach : Reach 5 abandoned
unfolding destroy close
abandoned-Reach = Reach.later called-Reach (owner refl)

Reach-defined_example :
    ((t : System) × (destroy abandoned ≡ ok t)) × ((t : System) × (run_thread 7 abandoned ≡ ok t))
Reach-defined_example = Reach-defined 5 7 abandoned abandoned-Reach

Reach-ends_example :
    (t u : System) × (run_thread 7 abandoned ≡ ok t)
    × (run_thread 7 t ≡ ok u)
    × (u.thread ≡ ended)
    × (u.ctl ≡ none)
Reach-ends_example = Reach-ends 5 7 7 abandoned abandoned-Reach refl

-- Two senders are started, and the second is moved into the first.
abbrev one_sender : Senders
one_sender = record {
  ctl = put 0 (some 0) nobody.ctl;
  is_open = put 0 true nobody.is_open;
  next = 1;
}

abbrev two_senders : Senders
two_senders = record {
  ctl = put 1 (some 1) one_sender.ctl;
  is_open = put 1 true one_sender.is_open;
  next = 2;
}

abbrev moved : Senders
moved = record {
  ctl = put 1 none (put 0 (some 1) two_senders.ctl);
  is_open = put 0 false two_senders.is_open;
  next = 2;
}

moved-Steps : Steps moved
unfolding start move_assign destroy_ctl take_over
moved-Steps =
    later (later (later at_first (started true 0 refl refl)) (started true 1 refl refl))
      (move_assigned 0 1 refl)

Steps-owners_example :
    ((c : ℕ) → moved.is_open c ≡ true → (i : ℕ) × (moved.ctl i ≡ some c))
    × ((i j c : ℕ) → moved.ctl i ≡ some c → moved.ctl j ≡ some c → i ≡ j)
    × ((i that : ℕ)
        → ((t : Senders) × (destruct i moved ≡ ok t))
          × ((t : Senders) × (move_assign i that moved ≡ ok t)))
Steps-owners_example = Steps-owners moved moved-Steps
