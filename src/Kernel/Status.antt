-- ===== src/Kernel/Status.antt =====
-- `processes_status` of kernel/scheduler.c and `queues_status` of kernel/queues.c. The entries written
-- to the caller's array are a list, in order; the copy of a name is given by the name.
pub mod Laws
use calm_os.Base.{
  ℕ, zero, suc, ◌+◌, ℤ, pos, negsuc, Bool, not, ◌&&◌, Option, List, [], ◌∷◌, if◌then◌else◌, ltb,
}
use calm_os.Kernel.State.{ProcessState, Sys, nbproc, nbqueue, is_dead}
use calm_os.Kernel.Messages.{is_queue_free, queue_count}

pub record ProcessStatus : Type 0 where
  pub pid : ℕ
  pub parent : Option ℕ
  pub name : ℕ
  pub prio : ℤ
  pub state : ProcessState
  pub ssize : ℕ

pub record QueueStatus : Type 0 where
  pub fid : ℕ
  pub capacity : ℕ
  pub count : ℤ

-- The loop of both: over `n` indices from `i` on, with the number found so far
unfoldable pub fill : {A : Type 0} → (ℕ → Bool) → (ℕ → A) → ℕ → ℕ → ℕ → ℕ → ℕ × List A
fill unused entry count zero i alive = (alive, [])
fill unused entry count (suc n) i alive =
    let rest = fill unused entry count n (i + 1) (if unused i then alive else alive + 1) in
    (rest.0, if not (unused i) && ltb alive count then entry i ∷ rest.1 else rest.1)

abbrev pub process_status : Sys → ℕ → ProcessStatus
process_status s p = record {
  pid = p;
  parent = (s.processes p).parent;
  name = (s.processes p).name;
  prio = (s.processes p).prio;
  state = (s.processes p).state;
  ssize = (s.processes p).ssize;
}

abbrev pub queue_status : Sys → ℕ → QueueStatus
queue_status s f = record {
  fid = f;
  capacity = (s.queues f).capacity;
  count = queue_count (s.queues f);
}

unfoldable pub processes_status : ℤ → Sys → ℤ × List ProcessStatus
processes_status (negsuc n) s = (negsuc 0, [])
processes_status (pos count) s =
    let r = fill (λ p. is_dead (s.processes p).state) (process_status s) count nbproc 0 0 in
    (pos r.0, r.1)

unfoldable pub queues_status : ℤ → Sys → ℤ × List QueueStatus
queues_status (negsuc n) s = (negsuc 0, [])
queues_status (pos count) s =
    let r = fill (λ f. is_queue_free (s.queues f)) (queue_status s) count nbqueue 0 0 in
    (pos r.0, r.1)
