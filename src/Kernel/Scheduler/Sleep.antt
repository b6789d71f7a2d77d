-- ===== src/Kernel/Scheduler/Sleep.antt =====
-- `wait_clock` of kernel/scheduler.c and the invariant of the kernel.
use calm_os.Base.{ℕ, ◌≡◌, ◌≢◌, true, refl, inl, arith, insert_before, count-insert_before}
use calm_os.Base.Sorted.{Sorted-insert_before}
use calm_os.Kernel.State.{Sys, is_asleep}
use calm_os.Kernel.Invariant.{at_home, also, ByWake}
use calm_os.Kernel.Ready.{Ready, IsValid, IsAwake, Ready-set_process}
use calm_os.Kernel.Runnable.{remove_runnable}
use calm_os.Kernel.Runnable.Effects.{Ready-remove_runnable}
use calm_os.Kernel.Tick.Laws.{Elects, tick_scheduler-Elects}
use calm_os.Kernel.Scheduler.{fall_asleep, not_earlier, wait_clock}

-- A process in the state PS_ASLEEP, and on no list, joins the sleepers by its time.
insert_asleep-Ready :
    (p : ℕ) (u : Sys)
    → Ready (also p at_home) u
    → is_asleep (u.processes p).state ≡ true
    → Ready at_home
        (record u { asleep_process = insert_before (not_earlier u p) p u.asleep_process })
insert_asleep-Ready p u v h = record {
  shape = record {
    lists = record {
      runnable = λ q. ground (arith, v.shape.lists.runnable q);
      asleep = λ q. rw count-insert_before (ground (arith, v.shape.lists.asleep q));
      dead = λ q. ground (arith, v.shape.lists.dead q);
      empty = λ f q. ground (arith, v.shape.lists.empty f q);
      full = λ f q. ground (arith, v.shape.lists.full f q);
    };
    order = record {
      runnable = v.shape.order.runnable;
      asleep =
          Sorted-insert_before (ByWake u) (not_earlier u p) p u.asleep_process
            (λ x y z a b. omega arith) (λ x a. ground arith) (λ x a. ground arith)
            v.shape.order.asleep;
      empty = v.shape.order.empty;
      full = v.shape.order.full;
    };
  };
  only_active = v.only_active;
  idle = v.idle;
  sound = v.sound;
}

module _ (clock : ℕ) (s : Sys) (v : IsValid s) (nz : s.active_process ≢ 0) where
  fall_asleep-Ready : Ready at_home (fall_asleep s.active_process clock s)
  unfolding fall_asleep
  fall_asleep-Ready =
      insert_asleep-Ready s.active_process _
        (Ready-set_process at_home s.active_process (remove_runnable s.active_process s) _
          (Ready-remove_runnable at_home s.active_process s v.ready (ground (arith, v.active))) nz
          (inl refl))
        (ground arith)

  -- From a valid kernel whose active process is not the idle one, `wait_clock` leads to a valid
  -- kernel whose active process has the highest priority of the runnable ones, and in which no
  -- sleeper's time has come.
  pub wait_clock-Elects : Elects (wait_clock clock s) × IsAwake (wait_clock clock s)
  unfolding wait_clock
  wait_clock-Elects = tick_scheduler-Elects (fall_asleep s.active_process clock s) fall_asleep-Ready
