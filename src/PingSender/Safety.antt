-- ===== src/PingSender/Safety.antt =====
-- ping_sender.hpp: the life of the control object.
use liboffkv.Base.{ℕ, ◌≡◌, ◌≢◌, refl, Bool, true, false, Option, none, some, subst, sym, ap, ◌∙◌}
use liboffkv.Errors.{ok}
use liboffkv.PingSender.{
  PingControl, Thread, waiting, calling, ended, System, close, destroy, wait, run_thread,
}
use liboffkv.PingSender.Reach.{owner, thread, Reach, start, later}

ok-injective : {a b : System} → ok a ≡ ok b → a ≡ b
ok-injective h = cc h

-- The control object that belongs to each state of its two users.
abbrev due : Bool → Thread → Option PingControl
due true _ = some (record { closed = false })
due false ended = none
due false _ = some (record { closed = true })

record IsSound (s : System) : Type 0 where
  object : s.ctl ≡ due s.sender s.thread
  running : s.sender ≡ true → s.thread ≢ ended

-- The thread can go on, and stays sound.
abbrev GoesOn : ℕ → System → Type 0
GoesOn next s = (t : System) × (run_thread next s ≡ ok t) × IsSound t

run_thread-due :
    (next : ℕ) (b : Bool) (th : Thread)
    → (b ≡ true → th ≢ ended)
    → GoesOn next (record { ctl = due b th; thread = th; sender = b })
unfolding run_thread wait
run_thread-due next true (waiting n) live = (_, refl, record { object = refl; running = λ e h. cc })
run_thread-due next false (waiting n) live =
    (_, refl, record { object = refl; running = λ e h. cc })
run_thread-due next true calling live = (_, refl, record { object = refl; running = λ e h. cc })
run_thread-due next false calling live = (_, refl, record { object = refl; running = λ e h. cc })
run_thread-due next b ended live = (_, refl, record { object = refl; running = live })

destroy-due :
    (b : Bool) (th : Thread)
    → (b ≡ true → th ≢ ended)
    → (t : System) × (destroy (record { ctl = due b th; thread = th; sender = b }) ≡ ok t)
      × IsSound t
      × (t.sender ≡ false)
unfolding destroy close
destroy-due true (waiting n) live = (_, refl, record { object = refl; running = λ e. cc }, refl)
destroy-due true calling live = (_, refl, record { object = refl; running = λ e. cc }, refl)
destroy-due true ended live = absurd (live refl refl)
destroy-due false th live = (_, refl, record { object = refl; running = λ e. cc }, refl)

IsSound-run_thread : (next : ℕ) (s : System) → IsSound s → GoesOn next s
IsSound-run_thread next s i =
    subst (λ c. GoesOn next (record { ctl = c; thread = s.thread; sender = s.sender }))
      (sym i.object) (run_thread-due next s.sender s.thread i.running)

IsSound-destroy :
    (s : System) → IsSound s → (t : System) × (destroy s ≡ ok t) × IsSound t × (t.sender ≡ false)
IsSound-destroy s i =
    subst
      (λ c.
        (t : System) × (destroy (record { ctl = c; thread = s.thread; sender = s.sender }) ≡ ok t)
        × IsSound t
        × (t.sender ≡ false))
      (sym i.object) (destroy-due s.sender s.thread i.running)

Reach-IsSound : (first_timeout : ℕ) (s : System) → Reach first_timeout s → IsSound s
Reach-IsSound f s start = record { object = refl; running = λ e h. cc }
Reach-IsSound f s (later {s = before} r (owner e)) =
    let (t, e', i, _) = IsSound-destroy before (Reach-IsSound f before r) in
    subst IsSound (ok-injective (sym e' ∙ e)) i
Reach-IsSound f s (later {s = before} r (thread next e)) =
    let (t, e', i) = IsSound-run_thread next before (Reach-IsSound f before r) in
    subst IsSound (ok-injective (sym e' ∙ e)) i

-- Whatever the owner and the thread have done, in any order: the owner can still destroy the sender
-- and the thread can go on, and neither uses the control object after it was deleted.
pub Reach-defined :
    (first_timeout next : ℕ) (s : System)
    → Reach first_timeout s
    → ((t : System) × (destroy s ≡ ok t)) × ((t : System) × (run_thread next s ≡ ok t))
Reach-defined f next s r =
    let i = Reach-IsSound f s r in
    let (t, e, _, _) = IsSound-destroy s i in
    let (u, e', _) = IsSound-run_thread next s i in ((t, e), (u, e'))

ends-due :
    (next next' : ℕ) (th : Thread)
    → (t u : System) × (run_thread next (record { ctl = due false th; thread = th; sender = false })
        ≡ ok t)
      × (run_thread next' t ≡ ok u)
      × (u.thread ≡ ended)
      × (u.ctl ≡ none)
unfolding run_thread wait
ends-due next next' (waiting n) = (_, _, refl, refl, refl, refl)
ends-due next next' calling = (_, _, refl, refl, refl, refl)
ends-due next next' ended = (_, _, refl, refl, refl, refl)

-- Once the sender is destroyed, two turns of the thread bring it to its end, with the control
-- object deleted, at whatever point it was.
pub Reach-ends :
    (first_timeout next next' : ℕ) (s : System)
    → Reach first_timeout s
    → s.sender ≡ false
    → (t u : System) × (run_thread next s ≡ ok t)
      × (run_thread next' t ≡ ok u)
      × (u.thread ≡ ended)
      × (u.ctl ≡ none)
Reach-ends f next next' s r gone =
    let i = Reach-IsSound f s r in
    let object : s.ctl ≡ due false s.thread = i.object ∙ ap (λ b. due b s.thread) gone in
    subst
      (λ c.
        (t u : System) × (run_thread next (record { ctl = c; thread = s.thread; sender = s.sender })
          ≡ ok t)
        × (run_thread next' t ≡ ok u)
        × (u.thread ≡ ended)
        × (u.ctl ≡ none))
      (sym object)
      (subst
        (λ b.
          (t u : System) × (run_thread next
              (record { ctl = due false s.thread; thread = s.thread; sender = b })
            ≡ ok t)
          × (run_thread next' t ≡ ok u)
          × (u.thread ≡ ended)
          × (u.ctl ≡ none))
        (sym gone) (ends-due next next' s.thread))
