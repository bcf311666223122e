-- ===== src/PingSender/Ownership.antt =====
-- ping_sender.hpp: who holds the control objects.
use liboffkv.Base.{
  ℕ, suc, ◌≤◌, ◌≡◌, refl, sym, ap, ◌∙◌, subst, Bool, true, false, Bool-cases, inl, inr, ◌==◌,
  Option, none, some, arith,
}
use mathlib.Core.Path.{fun_ext}
use liboffkv.Errors.{ok, ◌>>=◌}
use liboffkv.PingSender.Owners.{
  Senders, nobody, put, close_ctl, destroy_ctl, make_empty, start, take_over, move_assign, destruct,
  Step, constructed, started, move_constructed, move_assigned, destructed, Steps, at_first, later,
}

-- Every open control object is held by exactly one object, and what is held is open.
pub record IsOwned (s : Senders) : Type 0 where
  pub unique : (i j c : ℕ) → s.ctl i ≡ some c → s.ctl j ≡ some c → i ≡ j
  pub live : (i c : ℕ) → s.ctl i ≡ some c → s.is_open c ≡ true
  pub owned : (c : ℕ) → s.is_open c ≡ true → (i : ℕ) × (s.ctl i ≡ some c)
  pub fresh : (c : ℕ) → s.next ≤ c → s.is_open c ≡ false

take_over-IsOwned :
    (i that : ℕ) (s : Senders) → IsOwned s → s.ctl i ≡ none → IsOwned (take_over i that s)
unfolding take_over
take_over-IsOwned i that s o free = record {
  unique =
      λ j k c p q. ground (arith, o.unique j k c, o.unique that k c, o.unique j that c, p, q, free);
  live = λ j c p. ground (arith, o.live j c, o.live that c, p);
  owned = λ c op.
      let (j, e) = o.owned c op in
      elim (Bool-cases (j == that)) [
        | inl same ↦ (i, ground (arith, e, same, free))
        | inr other ↦ (j, ground (arith, e, other, free))
      ];
  fresh = λ c le. o.fresh c le;
}

nobody-IsOwned : IsOwned nobody
nobody-IsOwned = record {
  unique = λ i j c p q. cc p;
  live = λ i c p. cc p;
  owned = λ c op. cc op;
  fresh = λ c le. refl;
}

make_empty-IsOwned : (i : ℕ) (s : Senders) → IsOwned s → s.ctl i ≡ none → IsOwned (make_empty i s)
unfolding make_empty
make_empty-IsOwned i s o free = record {
  unique = λ j k c p q. ground (arith, o.unique j k c, p, q);
  live = λ j c p. ground (arith, o.live j c, p);
  owned = λ c op. let (j, e) = o.owned c op in (j, ground (arith, e, free));
  fresh = λ c le. o.fresh c le;
}

started_lem :
    (i : ℕ) (s : Senders)
    → IsOwned s
    → s.ctl i ≡ none
    → IsOwned (record {
      ctl = put i (some s.next) s.ctl;
      is_open = put s.next true s.is_open;
      next = suc s.next;
    })
started_lem i s o free = record {
  unique = λ j k c p q.
      ground (arith, o.unique j k c, o.live j c, o.live k c, o.fresh s.next (omega arith), p, q);
  live = λ j c p. ground (arith, o.live j c, p);
  owned = λ c op. elim (Bool-cases (s.next == c)) [
    | inl same ↦ (i, ground (arith, same))
    | inr other ↦ let (j, e) = o.owned c (ground (arith, op, other)) in (j, ground (arith, e, free))
  ];
  fresh = λ c le. ground (arith, o.fresh c (omega (arith, le)), le);
}

-- What is left when the object at `i` lets go of what it holds.
abbrev released : ℕ → Option ℕ → Senders → Senders
released i none s = record s { ctl = put i none s.ctl }
released i (some c) s = record s { ctl = put i none s.ctl; is_open = put c false s.is_open }

released-IsOwned :
    (i : ℕ) (o : Option ℕ) (s : Senders) → IsOwned s → s.ctl i ≡ o → IsOwned (released i o s)
released-IsOwned i none s o e = record {
  unique = λ j k c p q. ground (arith, o.unique j k c, p, q);
  live = λ j c p. ground (arith, o.live j c, p);
  owned = λ c op. let (j, f) = o.owned c op in (j, ground (arith, e, f));
  fresh = λ c le. o.fresh c le;
}
released-IsOwned i (some d) s o e = record {
  unique = λ j k c p q. ground (arith, o.unique j k c, p, q);
  live = λ j c p. ground (arith, o.live j c, o.unique i j d e, p);
  owned = λ c op. let (j, f) = o.owned c (ground (arith, op)) in (j, ground (arith, e, f, op));
  fresh = λ c le. ground (arith, o.fresh c le);
}

overwritten :
    (i that : ℕ) (f : ℕ → Option ℕ)
    → put that none (put i (f that) f) ≡ put that none (put i (put i none f that) (put i none f))
overwritten i that f = fun_ext λ j. ground arith

-- `destroy_` finds the control object open, as long as objects own what they hold.
module _ (i : ℕ) (s : Senders) (o : IsOwned s) where
  destruct_lem : (h : Option ℕ) → s.ctl i ≡ h → destruct i s ≡ ok (released i h s)
  unfolding destruct destroy_ctl
  destruct_lem none e =
      ap (λ h. do s' ← close_ctl h s; ok (record s' { ctl = put i none s'.ctl })) e
  destruct_lem (some c) e =
      ap (λ h. do s' ← close_ctl h s; ok (record s' { ctl = put i none s'.ctl })) e
      ∙ rw (o.live i c e) refl

  move_assign_lem :
      (that : ℕ) (h : Option ℕ)
      → s.ctl i ≡ h
      → move_assign i that s ≡ ok (take_over i that (released i h s))
  unfolding move_assign destroy_ctl take_over
  move_assign_lem that none e =
      ap (λ h. do s' ← close_ctl h s; ok (take_over i that s')) e
      ∙ ap (λ f. ok (record s { ctl = f })) (overwritten i that s.ctl)
  move_assign_lem that (some c) e =
      ap (λ h. do s' ← close_ctl h s; ok (take_over i that s')) e
      ∙ rw (o.live i c e) refl
      ∙ ap (λ f. ok (record s { ctl = f; is_open = put c false s.is_open }))
          (overwritten i that s.ctl)

  released-free : (h : Option ℕ) → (released i h s).ctl i ≡ none
  released-free none = ground arith
  released-free (some c) = ground arith

ok-injective : {a b : Senders} → ok a ≡ ok b → a ≡ b
ok-injective h = cc h

started-IsOwned :
    (starts : Bool) (i : ℕ) (s t : Senders)
    → IsOwned s
    → s.ctl i ≡ none
    → start starts i s ≡ ok t
    → IsOwned t
unfolding start
started-IsOwned true i s t o free e = subst IsOwned (ok-injective e) (started_lem i s o free)
started-IsOwned false i s t o free e = cc e

Step-IsOwned : (s t : Senders) → IsOwned s → Step s t → IsOwned t
Step-IsOwned s t o (constructed i free) = make_empty-IsOwned i s o free
Step-IsOwned s t o (started starts i free e) = started-IsOwned starts i s t o free e
Step-IsOwned s t o (move_constructed i that free n) = take_over-IsOwned i that s o free
Step-IsOwned s t o (move_assigned i that e) =
    subst IsOwned (ok-injective (sym (move_assign_lem i s o that (s.ctl i) refl) ∙ e)) (
      take_over-IsOwned i that (released i (s.ctl i) s) (released-IsOwned i (s.ctl i) s o refl)
        (released-free i s o (s.ctl i)))
Step-IsOwned s t o (destructed i e) =
    subst IsOwned (ok-injective (sym (destruct_lem i s o (s.ctl i) refl) ∙ e))
      (released-IsOwned i (s.ctl i) s o refl)

Steps-IsOwned : (s : Senders) → Steps s → IsOwned s
Steps-IsOwned s at_first = nobody-IsOwned
Steps-IsOwned s (later {s = before} steps step) =
    Step-IsOwned before s (Steps-IsOwned before steps) step

-- However senders have been constructed, moved and destroyed: every control object that is not
-- closed is held by exactly one of them, and what one holds is not closed, so that a destructor and a
-- move assignment never close a control object that its thread may have deleted.
pub Steps-owners :
    (s : Senders)
    → Steps s
    → ((c : ℕ) → s.is_open c ≡ true → (i : ℕ) × (s.ctl i ≡ some c))
      × ((i j c : ℕ) → s.ctl i ≡ some c → s.ctl j ≡ some c → i ≡ j)
      × ((i that : ℕ)
          → ((t : Senders) × (destruct i s ≡ ok t))
            × ((t : Senders) × (move_assign i that s ≡ ok t)))
Steps-owners s steps =
    let o = Steps-IsOwned s steps in
    (
      o.owned,
      o.unique,
      λ i that.
          ((_, destruct_lem i s o (s.ctl i) refl), (_, move_assign_lem i s o that (s.ctl i) refl)),
    )
