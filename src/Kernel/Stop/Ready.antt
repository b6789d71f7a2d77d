-- ===== src/Kernel/Stop/Ready.antt =====
-- `stop` of kernel/scheduler.c and the invariant of the kernel.
use calm_os.Base.{
  ℕ, suc, zero, ◌+◌, ◌≡◌, ◌≢◌, ℤ, true, Option, none, some, refl, inl, inr, arith, Bool-cases,
  count-unlink, ◌∙◌, sym, subst,
}
use calm_os.Base.Sorted.{Sorted-unlink}
use calm_os.Kernel.State.{ProcessState, Sys, is_zombie, is_alive, is_asleep, nbproc}
use calm_os.Kernel.Invariant.{at_home, also, ByWake}
use calm_os.Kernel.Ready.{Ready, Ready-leave, Ready-come_home, Ready-set_process}
use calm_os.Kernel.Runnable.{remove_runnable}
use calm_os.Kernel.Runnable.Effects.{
  Ready-push_runnable, Ready-push_dead, state-push_dead, processes-remove_runnable,
  remove_runnable_other, Ready-remove_runnable,
}
use calm_os.Kernel.Waiting.{Side, queue_remove_process}
use calm_os.Kernel.Waiting.Shape.{is_cons_of_count}
use calm_os.Kernel.Waiting.Wakeup.{Ready-touch, queue_remove_process-Ready}
use calm_os.Kernel.Stop.{
  unbind, unbind_children, remove_asleep, detach, trigger_parent, bury, make_zombie, terminate,
  is_parent, waits_for,
}

idle_not_zombie :
    {s : Sys} (i : ℕ) → Ready at_home s → is_zombie (s.processes i).state ≡ true → i ≢ 0
idle_not_zombie {s} i v z e = ground (arith, v.idle)

unbind-Ready : (p i : ℕ) (s : Sys) → Ready at_home s → Ready at_home (unbind p i s)
unfolding unbind
unbind-Ready p i s v = elim (Bool-cases (is_parent p (s.processes i).parent)) [
  | inr other ↦ rw other v
  | inl child ↦ rw child (elim (Bool-cases (is_zombie (s.processes i).state)) [
    | inl z ↦ rw z (
        Ready-push_dead at_home i s (Ready-leave at_home i s v (ground arith)) refl
          (idle_not_zombie i v z) (ground arith))
    | inr n ↦ rw n (Ready-touch at_home i _ s refl refl refl refl v)
  ])
]

-- Unbinding changes no state but that of the zombies that are freed.
unbind-state :
    (p i q : ℕ) (s : Sys)
    → is_alive (s.processes q).state ≡ true
    → ((unbind p i s).processes q).state ≡ (s.processes q).state
unfolding unbind
unbind-state p i q s h = ground (arith, state-push_dead i s q)

unbind_children-Ready :
    (p n i : ℕ) (s : Sys) → Ready at_home s → Ready at_home (unbind_children p n i s)
unfolding unbind_children
unbind_children-Ready p zero i s v = v
unbind_children-Ready p (suc n) i s v =
    unbind_children-Ready p n (i + 1) (unbind p i s) (unbind-Ready p i s v)

unbind_children-state :
    (p n i q : ℕ) (s : Sys)
    → is_alive (s.processes q).state ≡ true
    → ((unbind_children p n i s).processes q).state ≡ (s.processes q).state
unfolding unbind_children
unbind_children-state p zero i q s h = refl
unbind_children-state p (suc n) i q s h =
    let e = unbind-state p i q s h in
    unbind_children-state p n (i + 1) q (unbind p i s) (ground arith) ∙ e

remove_asleep-Ready :
    (p : ℕ) (s : Sys)
    → Ready at_home s
    → is_asleep (s.processes p).state ≡ true
    → Ready (also p at_home) (remove_asleep p s)
unfolding remove_asleep
remove_asleep-Ready p s v h = record {
  shape = record {
    lists = record {
      runnable = λ q. ground (arith, v.shape.lists.runnable q);
      asleep = λ q. rw count-unlink (ground (arith, v.shape.lists.asleep q));
      dead = λ q. ground (arith, v.shape.lists.dead q);
      empty = λ f q. ground (arith, v.shape.lists.empty f q);
      full = λ f q. ground (arith, v.shape.lists.full f q);
    };
    order = record {
      runnable = v.shape.order.runnable;
      asleep = Sorted-unlink (ByWake s) p s.asleep_process v.shape.order.asleep;
      empty = v.shape.order.empty;
      full = v.shape.order.full;
    };
  };
  only_active = v.only_active;
  idle = v.idle;
  sound = ground (arith, v.sound, is_cons_of_count p s.asleep_process, v.shape.lists.asleep p);
}

processes-detach : (st : ProcessState) (p : ℕ) (s : Sys) → (detach st p s).processes ≡ s.processes
unfolding detach queue_remove_process
processes-detach ProcessState.asleep p s = refl
processes-detach ProcessState.wait_queue_empty p s = refl
processes-detach ProcessState.wait_queue_full p s = refl
processes-detach _ p s = refl

-- Whatever an alive process does, it is on no list after the switch and `remove_runnable`.
detached-Ready :
    (st : ProcessState) (p : ℕ) (s : Sys)
    → Ready at_home s
    → (s.processes p).state ≡ st
    → is_alive st ≡ true
    → Ready (also p at_home) (remove_runnable p (detach st p s))
unfolding detach
detached-Ready ProcessState.dead p s v e a = cc
detached-Ready ProcessState.zombie p s v e a = cc
detached-Ready ProcessState.asleep p s v e a =
    rw
      (remove_runnable_other p (remove_asleep p s)
        (rw (processes-detach ProcessState.asleep p s, e)))
      (remove_asleep-Ready p s v (rw e))
detached-Ready ProcessState.wait_queue_empty p s v e a =
    rw
      (remove_runnable_other p (queue_remove_process Side.empty p s)
        (rw (processes-detach ProcessState.wait_queue_empty p s, e)))
      (queue_remove_process-Ready Side.empty p s v (rw e))
detached-Ready ProcessState.wait_queue_full p s v e a =
    rw
      (remove_runnable_other p (queue_remove_process Side.full p s)
        (rw (processes-detach ProcessState.wait_queue_full p s, e)))
      (queue_remove_process-Ready Side.full p s v (rw e))
detached-Ready ProcessState.runnable p s v e a = Ready-remove_runnable at_home p s v (rw e)
detached-Ready ProcessState.running p s v e a = Ready-remove_runnable at_home p s v (rw e)
detached-Ready ProcessState.wait_child p s v e a = Ready-remove_runnable at_home p s v (rw e)

trigger_parent-Ready : (q p : ℕ) (s : Sys) → Ready at_home s → Ready at_home (trigger_parent q p s)
unfolding trigger_parent
trigger_parent-Ready q p s v = elim (Bool-cases (waits_for q p s)) [
  | inl w ↦ rw w (
      Ready-push_runnable at_home q _
        (Ready-touch (also q at_home) q _ s refl refl refl refl
          (Ready-leave at_home q s v (ground arith)))
        refl (ground arith))
  | inr n ↦ rw n v
]

bury-Ready :
    (o : Option ℕ) (p : ℕ) (v : ℤ) (s : Sys)
    → Ready (also p at_home) s
    → p ≢ 0
    → is_alive (s.processes p).state ≡ true
    → Ready at_home (bury o p v s)
unfolding bury
bury-Ready none p v s r nz a = Ready-push_dead at_home p s r refl nz (ground arith)
bury-Ready (some q) p v s r nz a = trigger_parent-Ready q p (make_zombie p v s) (
    Ready-come_home at_home p (make_zombie p v s) (Ready-set_process at_home p s _ r nz (inl refl))
      (ground arith))

-- Ending an alive process other than the idle one keeps every list, and fails no assertion.
pub terminate-Ready :
    (p : ℕ) (v : ℤ) (s : Sys)
    → Ready at_home s
    → p ≢ 0
    → is_alive (s.processes p).state ≡ true
    → Ready at_home (terminate p v s)
unfolding terminate
terminate-Ready p v s r nz a =
    bury-Ready _ p v u
      (detached-Ready (t.processes p).state p t (unbind_children-Ready p nbproc 0 s r) refl alive)
      nz (subst (λ ps. is_alive (ps p).state ≡ true) (sym same) alive)
  where
    t : Sys
    t = unbind_children p nbproc 0 s

    u : Sys
    u = remove_runnable p (detach (t.processes p).state p t)

    alive : is_alive (t.processes p).state ≡ true
    alive = subst (λ st. is_alive st ≡ true) (sym (unbind_children-state p nbproc 0 p s a)) a

    same : u.processes ≡ t.processes
    same = processes-remove_runnable p _ ∙ processes-detach _ p t
