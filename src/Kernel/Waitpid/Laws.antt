-- ===== src/Kernel/Waitpid/Laws.antt =====
-- What `waitpid` finds and what it leaves behind.
use calm_os.Base.{
  ℕ, suc, zero, ◌+◌, ◌≡◌, ◌≢◌, ◌<◌, ◌≤◌, ℤ, pos, Bool, true, false, ◌&&◌, ◌||◌, ◌==◌, Option, none,
  some, refl, inl, inr, arith, Bool-cases, if◌then◌else◌, leb_ℤ, sym, subst,
}
use calm_os.Kernel.State.{Sys, nbproc, is_zombie, store}
use calm_os.Kernel.Invariant.{at_home}
use calm_os.Kernel.Ready.{Ready, Ready-come_home, Ready-set_process}
use calm_os.Kernel.Runnable.{remove_runnable}
use calm_os.Kernel.Runnable.Effects.{Ready-remove_runnable}
use calm_os.Kernel.Tick.Laws.{Elects, tick_scheduler-Elects}
use calm_os.Kernel.Elects.{
  store-Elects, check-Elects, touch-Elects, push_dead-Elects, processes-store,
}
use calm_os.Kernel.Stop.{valid_pid}
use calm_os.Kernel.Waitpid.{
  is_child, find_child, reap, wait_for_child, conclude, wait_one, wait_any, waitpid, resume_child,
  resume_waitpid,
}

reap-Elects :
    (c : ℕ) (to : Option ℕ) (s : Sys)
    → Elects s
    → is_zombie (s.processes c).state ≡ true
    → Elects (reap c to s)
unfolding reap
reap-Elects c to s e z =
    push_dead-Elects c (store to (s.processes c).retval s) (store-Elects to _ s e) (
      subst (λ ps. is_zombie (ps c).state ≡ true)
        (sym (processes-store to (s.processes c).retval s)) z)

or_right : (a : Bool) {b : Bool} → b ≡ true → (a || b) ≡ true
or_right a h = ground arith

module _ (s : Sys) (p : ℕ) where
  -- What the search of the table for a zombie child finds is a child of the process and a zombie.
  pub find_child-IsZombie :
      (n i : ℕ) (has : Bool) (c : ℕ)
      → (find_child p n i has s).0 ≡ some c
      → (is_child p c s ≡ true) × (is_zombie (s.processes c).state ≡ true)
  unfolding find_child
  find_child-IsZombie zero i has c f = cc
  find_child-IsZombie (suc n) i has c f =
      elim (Bool-cases (is_child p i s && is_zombie (s.processes i).state)) [
        | inl hit ↦
            let f' : some i ≡ some c = rw hit at f in
            let e : i ≡ c = cc in rw (← e) (ground (arith, hit), ground (arith, hit))
        | inr miss ↦ find_child-IsZombie n (i + 1) _ c (rw miss at f)
      ]

  find_child_seen : (n i : ℕ) → (find_child p n i true s).1 ≡ true
  unfolding find_child
  find_child_seen zero i = refl
  find_child_seen (suc n) i = ground (arith, find_child_seen n (i + 1))

  -- When the search of the table finds no zombie, a child of the process in the range searched is
  -- no zombie, and the search says that there is a child.
  pub find_child-none :
      (n i : ℕ) (has : Bool)
      → (find_child p n i has s).0 ≡ none
      → (j : ℕ) → i ≤ j
      → j < i + n
      → is_child p j s ≡ true
      → (is_zombie (s.processes j).state ≡ false) × ((find_child p n i has s).1 ≡ true)
  unfolding find_child
  find_child-none zero i has f j lo hi c = absurd (omega arith)
  find_child-none (suc n) i has f j lo hi c =
      elim (Bool-cases (is_child p i s && is_zombie (s.processes i).state)) [
        | inl hit ↦ let f' : some i ≡ none = rw hit at f in cc
        | inr miss ↦ rw miss (elim (Bool-cases (i == j)) [
          | inl here ↦
              let e : i ≡ j = ground arith in
              let ci : is_child p i s ≡ true = subst (λ k. is_child p k s ≡ true) (sym e) c in
              let zi : is_zombie (s.processes i).state ≡ false = rw ci at miss in
              (
                subst (λ k. is_zombie (s.processes k).state ≡ false) e zi,
                rw (or_right has ci) (find_child_seen n (i + 1)),
              )
          | inr there ↦ find_child-none n (i + 1) _ (rw miss at f) j (ground arith) (ground arith) c
        ])
      ]

module _ (s : Sys) (e : Elects s) (nz : s.active_process ≢ 0) where
  abbrev self : ℕ
  self = s.active_process

  wait_for_child-Ready : (pid : ℤ) (to : Option ℕ) → Ready at_home (wait_for_child self pid to s)
  unfolding wait_for_child
  wait_for_child-Ready pid to =
      Ready-come_home at_home self _
        (Ready-set_process at_home self (remove_runnable self s) _
          (Ready-remove_runnable at_home self s e.valid.ready (ground (arith, e.valid.active))) nz
          (inl refl))
        (ground arith)

  conclude-Elects :
      (pid : ℤ) (to o : Option ℕ)
      → ((c : ℕ) → o ≡ some c → is_zombie (s.processes c).state ≡ true)
      → Elects (conclude pid to o s).1
  conclude-Elects pid to none z = (tick_scheduler-Elects _ (wait_for_child-Ready pid to)).0
  conclude-Elects pid to (some c) z = reap-Elects c to s e (z c refl)

  wait_any-Elects :
      (r : Option ℕ × Bool) (pid : ℤ) (to : Option ℕ)
      → ((c : ℕ) → r.0 ≡ some c → is_zombie (s.processes c).state ≡ true)
      → Elects (wait_any r pid to s).1
  unfolding wait_any
  wait_any-Elects (none, false) pid to z = e
  wait_any-Elects (none, true) pid to z = conclude-Elects pid to none (λ c h. cc)
  wait_any-Elects (some c, has) pid to z = conclude-Elects pid to (some c) z

  wait_one-Elects : (o : Option ℕ) (pid : ℤ) (to : Option ℕ) → Elects (wait_one o pid to s).1
  unfolding wait_one
  wait_one-Elects none pid to = e
  wait_one-Elects (some c) pid to =
      let waits =
        conclude-Elects pid to (if is_zombie (s.processes c).state then some c else none)
          (λ d h. ground arith) in
      ground (arith, waits, e)

  -- From a valid kernel whose active process is not the idle one and has the highest priority of
  -- the runnable ones, `waitpid` leads on every branch to a valid kernel whose active process has
  -- the highest priority of the runnable ones.
  pub waitpid-Elects : (pid : ℤ) (to : Option ℕ) → Elects (waitpid pid to s).1
  unfolding waitpid
  waitpid-Elects pid to = elim (Bool-cases (leb_ℤ (pos 0) pid)) [
    | inl one ↦ rw (one, waitpid) (wait_one-Elects (valid_pid pid s) pid to)
    | inr any ↦
        rw (any, waitpid)
          (wait_any-Elects (find_child self nbproc 0 false s) pid to
            (λ c h. (find_child-IsZombie s self nbproc 0 false c h).1))
  ]

  module _ (to : Option ℕ) where
    -- When a child has ended and written its pid, the rest of the suspended call frees it.
    resume_child-Elects :
        (o : Option ℕ) (c : ℕ)
        → o ≡ some c
        → is_zombie (s.processes c).state ≡ true
        → Elects (resume_child o to s).1
    unfolding resume_child
    resume_child-Elects none c h z = cc
    resume_child-Elects (some d) c h z =
        let f : d ≡ c = cc in
        let zd : is_zombie (s.processes d).state ≡ true =
          subst (λ k. is_zombie (s.processes k).state ≡ true) (sym f) z in
        reap-Elects d to _ (check-Elects _ s zd e) zd

    -- From a valid kernel whose active process is not the idle one and has the highest priority of
    -- the runnable ones, and where the pid that a child wrote is that of a zombie, the rest of a
    -- suspended `waitpid` returns that pid and leads to a valid kernel whose active process has the
    -- highest priority of the runnable ones.
    pub resume_waitpid-Elects :
        (c : ℕ)
        → valid_pid (s.processes self).child s ≡ some c
        → is_zombie (s.processes c).state ≡ true
        → Elects (resume_waitpid to s).1 × ((resume_waitpid to s).0 ≡ pos c)
    unfolding resume_waitpid
    resume_waitpid-Elects c h z = (
      touch-Elects self _ _ refl refl refl refl (resume_child-Elects _ c h z),
      rw (h, resume_child),
    )
