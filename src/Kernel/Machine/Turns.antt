-- ===== src/Kernel/Machine/Turns.antt =====
-- Processes of one priority take turns: the clock interrupts of kernel/interrupt.c that call
-- `tick_scheduler` of kernel/scheduler.c.
use calm_os.Base.{
  ℕ, zero, suc, ◌+◌, ◌*◌, ◌%◌, ◌^◌, ◌≤◌, ◌<◌, ◌≡◌, ℤ, Bool, true, false, not, ◌||◌, ◌==◌, some,
  List, [], ◌∷◌, ◌++◌, refl, arith, sym, ap, subst, ◌∙◌, leb, ltb_ℤ, leb_ℤ, get_elem?,
  insert_before, append_assoc,
}
use calm_os.Base.Sorted.{All, All-map}
use calm_os.Kernel.State.{Sys, is_running}
use calm_os.Kernel.Invariant.{at_home}
use calm_os.Kernel.Ready.{IsValid, Ready-frame}
use calm_os.Kernel.Runnable.{push_runnable}
use calm_os.Kernel.Tick.{wake_up, dispatch, elect, tick_scheduler, head_test, prio_ge_active}
use calm_os.Kernel.Tick.Dispatch.{
  chosen, popped, chosen-IsValid, chosen_prio, chosen-wake, chosen-asleep, chosen-active,
  chosen-runnable, dispatch-chosen,
}
use calm_os.Kernel.Machine.{tic_clock}

-- The clock interrupt comes a number of times.
unfoldable pub interrupts : ℕ → Sys → Sys
unfolding tic_clock
interrupts zero s = s
interrupts (suc n) s = interrupts n (tic_clock s)

insert_behind :
    (f : ℕ → Bool) (p : ℕ) (xs ys : List ℕ)
    → All (λ q. f q ≡ false) xs
    → All (λ q. f q ≡ true) ys
    → insert_before f p (xs ++ ys) ≡ xs ++ p ∷ ys
unfolding insert_before
insert_behind f p [] [] a b = refl
insert_behind f p [] (y ∷ ys) a b = rw b.0 refl
insert_behind f p (x ∷ xs) ys a b = rw a.0 (ap (λ zs. x ∷ zs) (insert_behind f p xs ys a.1 b))

All-append : (P : ℕ → Type 0) (p : ℕ) (xs : List ℕ) → All P xs → P p → All P (xs ++ p ∷ [])
All-append P p [] a h = (h, tt)
All-append P p (x ∷ xs) a h = (a.0, All-append P p xs a.1 h)

get_elem_append :
    (xs ys : List ℕ) (k q : ℕ) → get_elem? xs k ≡ some q → get_elem? (xs ++ ys) k ≡ some q
get_elem_append [] ys k q h = absurd (cc)
get_elem_append (x ∷ xs) ys zero q h = h
get_elem_append (x ∷ xs) ys (suc k) q h = get_elem_append xs ys k q h

-- The active process has a priority, which its peers share, the first of the runnable processes;
-- the others have a lower one. No sleeper's time comes up to an end.
pub record Turns (prio : ℤ) (peers lower : List ℕ) (end : ℕ) (s : Sys) : Type 0 where
  pub valid : IsValid s
  pub runnable : s.runnable_process ≡ peers ++ lower
  pub active : (s.processes s.active_process).prio ≡ prio
  pub same : All (λ q. (s.processes q).prio ≡ prio) peers
  pub below : All (λ q. ltb_ℤ (s.processes q).prio prio ≡ true) lower
  pub asleep : All (λ q. end < (s.processes q).wake) s.asleep_process

wake_up_none :
    (ps : List ℕ) (end : ℕ) (s : Sys)
    → All (λ q. end < (s.processes q).wake) ps
    → s.clock ≤ end
    → wake_up ps s ≡ s
unfolding wake_up
wake_up_none [] end s a l = refl
wake_up_none (p ∷ ps) end s a l =
    let late : leb (s.processes p).wake s.clock ≡ false = ground (arith, a.0) in rw late refl

not_lower : (a b : ℤ) → a ≡ b → ltb_ℤ a b ≡ false
not_lower a b e = rw e (ground arith)

module _ (prio : ℤ) (h : ℕ) (peers lower : List ℕ) (end : ℕ) (s : Sys)
    (v : Turns prio (h ∷ peers) lower end s) (l : s.clock ≤ end) where
  switches : head_test prio_ge_active s.runnable_process s ≡ true
  switches =
      let same : leb_ℤ (s.processes s.active_process).prio (s.processes h).prio ≡ true =
        ground (arith, v.active, v.same.0) in
      rw v.runnable same

  abbrev next : Sys
  next = chosen h (peers ++ lower) s v.runnable v.valid.ready

  tick_dispatches : tick_scheduler s ≡ next
  unfolding tick_scheduler elect
  tick_dispatches =
      let must : (not (is_running (s.processes s.active_process).state)
            || head_test prio_ge_active s.runnable_process s)
          ≡ true =
        ground (arith, switches) in
      ap elect (wake_up_none s.asleep_process end s v.asleep l)
      ∙ rw must (
          ap (λ xs. dispatch xs s) v.runnable
          ∙ dispatch-chosen h (peers ++ lower) s v.runnable v.valid.ready)

  abbrev moved : Sys
  moved = popped h (peers ++ lower) s v.runnable v.valid.ready

  same_prio : (q : ℕ) → (next.processes q).prio ≡ (s.processes q).prio
  same_prio q = chosen_prio h (peers ++ lower) s v.runnable v.valid.ready q

  behind :
      (push_runnable s.active_process moved).runnable_process ≡ peers ++ s.active_process ∷ lower
  unfolding push_runnable
  behind =
      insert_behind _ s.active_process peers lower
        (All-map peers (λ q e. ground (arith, e, v.active)) v.same.1)
        (All-map lower (λ q e. ground (arith, e, v.active)) v.below)

  next-runnable : next.runnable_process ≡ (peers ++ s.active_process ∷ []) ++ lower
  next-runnable =
      chosen-runnable h (peers ++ lower) s v.runnable v.valid.ready v.valid.active
      ∙ behind
      ∙ sym (append_assoc peers (s.active_process ∷ []) lower)

  next-Turns : Turns prio (peers ++ s.active_process ∷ []) lower end next
  next-Turns = record {
    valid = chosen-IsValid h (peers ++ lower) s v.runnable v.valid.ready;
    runnable = next-runnable;
    active =
        ap (λ q. (next.processes q).prio)
          (chosen-active h (peers ++ lower) s v.runnable v.valid.ready)
        ∙ same_prio h
        ∙ v.same.0;
    same =
        All-append _ s.active_process peers (All-map peers (λ q e. same_prio q ∙ e) v.same.1)
          (same_prio s.active_process ∙ v.active);
    below = All-map lower (λ q e. ground (arith, same_prio q, e)) v.below;
    asleep =
        subst (All (λ q. end < (next.processes q).wake))
          (sym (chosen-asleep h (peers ++ lower) s v.runnable v.valid.ready).0)
          (All-map s.asleep_process
            (λ q e. ground (arith, chosen-wake h (peers ++ lower) s v.runnable v.valid.ready q, e))
            v.asleep);
  }

  pub one_turn :
      ((tick_scheduler s).active_process ≡ h)
      × Turns prio (peers ++ s.active_process ∷ []) lower end (tick_scheduler s)
      × ((tick_scheduler s).clock ≡ s.clock)
  one_turn = rw tick_dispatches (
    chosen-active h (peers ++ lower) s v.runnable v.valid.ready,
    next-Turns,
    (chosen-asleep h (peers ++ lower) s v.runnable v.valid.ready).1,
  )

-- The clock alone is no part of what makes turns.
later :
    (prio : ℤ) (peers lower : List ℕ) (end clock : ℕ) (s : Sys)
    → Turns prio peers lower end s
    → Turns prio peers lower end (record s { clock = clock })
later prio peers lower end clock s v = record {
  valid = record {
    ready = Ready-frame at_home s clock s.esp0 s.memory v.valid.ready;
    active = v.valid.active;
  };
  runnable = v.runnable;
  active = v.active;
  same = v.same;
  below = v.below;
  asleep = v.asleep;
}

clock_only :
    (s : Sys)
    → ((s.clock + 1) % 4 == 0) ≡ false
    → s.clock + 1 < 2 ^ 32
    → tic_clock s ≡ record s { clock = s.clock + 1 }
unfolding tic_clock
clock_only s h l =
    let plain : (s.clock + 1) % 2 ^ 32 ≡ s.clock + 1 = omega arith in
    let stay : ((s.clock + 1) % 2 ^ 32 % 4 == 0) ≡ false = ground arith in
    rw stay (λ i. record s { clock = plain i })

clock_turn :
    (s : Sys)
    → ((s.clock + 1) % 4 == 0) ≡ true
    → s.clock + 1 < 2 ^ 32
    → tic_clock s ≡ tick_scheduler (record s { clock = s.clock + 1 })
unfolding tic_clock
clock_turn s h l =
    let plain : (s.clock + 1) % 2 ^ 32 ≡ s.clock + 1 = omega arith in
    let go : ((s.clock + 1) % 2 ^ 32 % 4 == 0) ≡ true = ground arith in
    rw go (λ i. tick_scheduler (record s { clock = plain i }))

-- CLOCKFREQ / SCHEDFREQ interrupts are one turn.
four_interrupts :
    (n : ℕ) (s : Sys)
    → s.clock % 4 ≡ 0
    → s.clock + 4 < 2 ^ 32
    → interrupts (4 * suc n) s
      ≡ interrupts (4 * n) (tick_scheduler (record s { clock = s.clock + 1 + 1 + 1 + 1 }))
unfolding interrupts
four_interrupts n s h l =
    let count : 4 * suc n ≡ suc (suc (suc (suc (4 * n)))) = omega arith in
    let a = record s { clock = s.clock + 1 } in
    let b = record s { clock = s.clock + 1 + 1 } in
    let c = record s { clock = s.clock + 1 + 1 + 1 } in
    let first = clock_only s (ground arith) (omega arith) in
    let second = clock_only a (ground arith) (omega arith) in
    let third = clock_only b (ground arith) (omega arith) in
    let fourth = clock_turn c (ground arith) (omega arith) in
    ap (λ k. interrupts k s) count
    ∙ ap (λ t. interrupts (4 * n) (tic_clock (tic_clock (tic_clock t)))) first
    ∙ ap (λ t. interrupts (4 * n) (tic_clock (tic_clock t))) second
    ∙ ap (λ t. interrupts (4 * n) (tic_clock t)) third
    ∙ ap (interrupts (4 * n)) fourth

-- Everybody gets a turn: when the processes that share the priority of the active one are the first
-- runnable ones and the others have a lower priority, the clock stands at a multiple of
-- CLOCKFREQ / SCHEDFREQ, and no process makes a call and no sleeper's time comes meanwhile, the
-- process that stands k-th behind the active one among its peers is the active one after
-- k * CLOCKFREQ / SCHEDFREQ interrupts, and the kernel is valid. (The clock does not wrap.)
pub interrupts-Turns :
    (k : ℕ) (prio : ℤ) (peers lower : List ℕ) (end q : ℕ) (s : Sys)
    → Turns prio peers lower end s
    → s.clock % 4 ≡ 0
    → s.clock + 4 * k ≤ end
    → end < 2 ^ 32
    → get_elem? (s.active_process ∷ peers) k ≡ some q
    → ((interrupts (4 * k) s).active_process ≡ q) × IsValid (interrupts (4 * k) s)
unfolding interrupts
interrupts-Turns zero prio peers lower end q s v m l b at = (cc, v.valid)
interrupts-Turns (suc k) prio [] lower end q s v m l b at = absurd (cc)
interrupts-Turns (suc k) prio (h ∷ peers) lower end q s v m l b at =
    let t = record s { clock = s.clock + 1 + 1 + 1 + 1 } in
    let (active, turns, clock) =
      one_turn prio h peers lower end t (later prio (h ∷ peers) lower end _ s v) (omega arith) in
    let u = tick_scheduler t in
    rw (four_interrupts k s m (omega arith)) (
      interrupts-Turns k prio (peers ++ s.active_process ∷ []) lower end q u turns (omega arith)
        (omega arith) b
        (ap (λ a. get_elem? (a ∷ (peers ++ s.active_process ∷ [])) k) active
          ∙ get_elem_append (h ∷ peers) (s.active_process ∷ []) k q at))
