-- ===== src/PingSender/Owners.antt =====
-- ping_sender.hpp: several `PingSender`s, which are constructed, moved and destroyed, and the control
-- objects that they hold.
use liboffkv.Base.{
  ℕ, suc, ◌≡◌, ◌≢◌, Bool, true, false, ◌==◌, Option, none, some, if◌then◌else◌, codes,
}
use liboffkv.Errors.{Outcome, ok, throw, foreign, undefined, ◌>>=◌}

-- The `ctl_` of each object, by the object's address, the control objects that are not closed, and
-- the address of the next one. A control object may be deleted as soon as it is closed.
pub record Senders : Type 0 where
  pub ctl : ℕ → Option ℕ
  pub is_open : ℕ → Bool
  pub next : ℕ

abbrev pub nobody : Senders
nobody = record { ctl = λ i. none; is_open = λ c. false; next = 0 }

abbrev pub put {ℓ} : {A : Type ℓ} → ℕ → A → (ℕ → A) → ℕ → A
put i x f j = if i == j then x else f j

abbrev pub close_ctl : Option ℕ → Senders → Outcome Senders
close_ctl none s = ok s
close_ctl (some c) s =
    if s.is_open c then ok (record s { is_open = put c false s.is_open }) else throw undefined

-- `destroy_` of the object at `i`.
unfoldable pub destroy_ctl : ℕ → Senders → Outcome Senders
destroy_ctl i s = close_ctl (s.ctl i) s

-- `PingSender()` at a free address.
unfoldable pub make_empty : ℕ → Senders → Senders
make_empty i s = record s { ctl = put i none s.ctl }

-- `PingSender(first_timeout, callback)`: if the thread cannot be started, the control object is
-- deleted and the exception is thrown on.
unfoldable pub start : Bool → ℕ → Senders → Outcome Senders
start starts i s =
    if starts
    then ok (record {
      ctl = put i (some s.next) s.ctl;
      is_open = put s.next true s.is_open;
      next = suc s.next;
    })
    else throw (foreign (codes "std::system_error"))

-- `ctl_ = that.ctl_; that.ctl_ = nullptr;`, of the object at `i`.
unfoldable pub take_over : ℕ → ℕ → Senders → Senders
take_over i that s = record s { ctl = put that none (put i (s.ctl that) s.ctl) }

-- `operator =(PingSender &&)`.
unfoldable pub move_assign : ℕ → ℕ → Senders → Outcome Senders
move_assign i that s = do s' ← destroy_ctl i s; ok (take_over i that s')

-- `~PingSender`, after which the address is free.
unfoldable pub destruct : ℕ → Senders → Outcome Senders
destruct i s = do s' ← destroy_ctl i s; ok (record s' { ctl = put i none s'.ctl })

-- What a program may do: it constructs at addresses that are free, `PingSender(PingSender &&)`
-- included, and moves and destroys what is there.
pub data Step (s : Senders) : Senders → Type 0 where
  constructed : (i : ℕ) → s.ctl i ≡ none → Step s (make_empty i s)
  started :
      {t : Senders} (starts : Bool) (i : ℕ) → s.ctl i ≡ none → start starts i s ≡ ok t → Step s t
  move_constructed : (i that : ℕ) → s.ctl i ≡ none → i ≢ that → Step s (take_over i that s)
  move_assigned : {t : Senders} (i that : ℕ) → move_assign i that s ≡ ok t → Step s t
  destructed : {t : Senders} (i : ℕ) → destruct i s ≡ ok t → Step s t

pub data Steps : Senders → Type 0 where
  at_first : Steps nobody
  later : {s t : Senders} → Steps s → Step s t → Steps t
