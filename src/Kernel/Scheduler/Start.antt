-- ===== src/Kernel/Scheduler/Start.antt =====
-- The creation of processes of kernel/scheduler.c and the invariant of the kernel.
use calm_os.Base.{
  ℕ, ◌≡◌, ◌≢◌, true, Option, List, [], ◌∷◌, refl, inl, inr, arith, Option-cases, count, ap,
}
use calm_os.Kernel.State.{Process, Sys, is_dead, set_process, check}
use calm_os.Kernel.Invariant.{at_home, also, Shape-frame}
use calm_os.Kernel.Ready.{Ready, Ready-set_process}
use calm_os.Kernel.Runnable.{push_runnable}
use calm_os.Kernel.Runnable.Effects.{Ready-push_runnable}
use calm_os.Kernel.Tick.Laws.{Elects, fix_scheduler-Elects}
use calm_os.Kernel.Scheduler.{
  Program, user_stack_size, start_head, start_background, start, start_user_head,
  start_user_background, start_user,
}

module _ (p : ℕ) (rest : List ℕ) (s : Sys) (at : s.dead_process ≡ p ∷ rest)
    (v : Ready at_home s) where
  head-IsDead : is_dead (s.processes p).state ≡ true
  head-IsDead = ground (arith, ap (count p) at, v.shape.lists.dead p)

  abbrev popped : Sys
  popped = check (is_dead (s.processes p).state) (record s { dead_process = rest })

  popped-Ready : Ready (also p at_home) popped
  popped-Ready = record {
    shape =
        Shape-frame (also p at_home) (record s { dead_process = rest }) _ _ _ _ _
          (record {
            lists = record {
              runnable = λ q. ground (arith, head-IsDead, v.shape.lists.runnable q);
              asleep = λ q. ground (arith, head-IsDead, v.shape.lists.asleep q);
              dead = λ q. ground (arith, head-IsDead, ap (count q) at, v.shape.lists.dead q);
              empty = λ f q. ground (arith, head-IsDead, v.shape.lists.empty f q);
              full = λ f q. ground (arith, head-IsDead, v.shape.lists.full f q);
            };
            order = record {
              runnable = v.shape.order.runnable;
              asleep = v.shape.order.asleep;
              empty = v.shape.order.empty;
              full = v.shape.order.full;
            };
          });
    only_active = v.only_active;
    idle = v.idle;
    sound = ground (arith, head-IsDead, v.sound);
  }

  head_ne_idle : p ≢ 0
  head_ne_idle e = ground (arith, head-IsDead, v.idle)

  -- A process that is given its fields while it is still dead.
  prepared-Ready :
      (r : Process) → is_dead r.state ≡ true → Ready (also p at_home) (set_process p r popped)
  prepared-Ready r h =
      Ready-set_process at_home p popped r popped-Ready head_ne_idle (inl (ground arith))

  started-Ready :
      (r : Process)
      → is_dead r.state ≡ true
      → Ready at_home (push_runnable p (set_process p r popped))
  started-Ready r h =
      Ready-push_runnable at_home p (set_process p r popped) (prepared-Ready r h) refl
        (ground arith)

  -- A dead process off the stack still satisfies the invariant.
  abandoned-Ready : (r : Process) → is_dead r.state ≡ true → Ready at_home (set_process p r popped)
  abandoned-Ready r h =
      let w = prepared-Ready r h in
      record {
        shape = record {
          lists = record {
            runnable = λ q. ground (arith, w.shape.lists.runnable q);
            asleep = λ q. ground (arith, w.shape.lists.asleep q);
            dead = λ q. ground (arith, w.shape.lists.dead q);
            empty = λ f q. ground (arith, w.shape.lists.empty f q);
            full = λ f q. ground (arith, w.shape.lists.full f q);
          };
          order = w.shape.order;
        };
        only_active = w.only_active;
        idle = w.idle;
        sound = w.sound;
      }

start_head-Ready :
    (xs : List ℕ) (g : Program) (s : Sys)
    → s.dead_process ≡ xs
    → Ready at_home s
    → Ready at_home (start_head xs g s).1
unfolding start_head
start_head-Ready [] g s at v = v
start_head-Ready (p ∷ rest) g s at v = started-Ready p rest s at v _ (head-IsDead p rest s at v)

start_user_head-Ready :
    (alloc : ℕ → Option ℕ) (xs : List ℕ) (g : Program) (s : Sys)
    → s.dead_process ≡ xs
    → Ready at_home s
    → Ready at_home (start_user_head alloc xs g s).1
unfolding start_user_head
start_user_head-Ready alloc [] g s at v = v
start_user_head-Ready alloc (p ∷ rest) g s at v =
    elim (Option-cases (alloc (user_stack_size g.ssize))) [
      | inl e ↦
          rw (e, start_user_head) (abandoned-Ready p rest s at v _ (head-IsDead p rest s at v))
      | inr (a, e) ↦
          rw (e, start_user_head) (started-Ready p rest s at v _ (head-IsDead p rest s at v))
    ]

pub start_background-Ready :
    (g : Program) (s : Sys) → Ready at_home s → Ready at_home (start_background g s).1
unfolding start_background
start_background-Ready g s v = ground (arith, start_head-Ready s.dead_process g s refl v)

-- From a state in which every process is on its list and the idle process can be chosen, `start`
-- leads on every branch to a valid kernel whose active process has the highest priority of the
-- runnable ones.
pub start-Elects : (g : Program) (s : Sys) → Ready at_home s → Elects (start g s).1
unfolding start
start-Elects g s v = fix_scheduler-Elects _ (start_background-Ready g s v)

pub start_user_background-Ready :
    (alloc : ℕ → Option ℕ) (g : Program) (s : Sys)
    → Ready at_home s
    → Ready at_home (start_user_background alloc g s).1
unfolding start_user_background
start_user_background-Ready alloc g s v =
    ground (arith, start_user_head-Ready alloc s.dead_process g s refl v)

-- From a state in which every process is on its list and the idle process can be chosen,
-- `start_user` leads on every branch, whatever the allocator answers, to a valid kernel whose active
-- process has the highest priority of the runnable ones.
pub start_user-Elects :
    (alloc : ℕ → Option ℕ) (g : Program) (s : Sys)
    → Ready at_home s
    → Elects (start_user alloc g s).1
unfolding start_user
start_user-Elects alloc g s v = fix_scheduler-Elects _ (start_user_background-Ready alloc g s v)
