-- ===== src/Kernel/State.antt =====
-- The data of kernel/scheduler.h, kernel/queues.c and shared/system.h: the process table, the
-- linked lists and the queue table. A linked list is the list of the pids on it, in order, and a
-- pointer to a process is its pid. The members of the union `state_attr` other than the links are
-- fields of their own.
use calm_os.Base.{ℕ, ℤ, negsuc, Bool, true, false, List, Option, none, ◌==◌, if◌then◌else◌}

abbrev pub nbproc : ℕ
nbproc = 30

abbrev pub nbqueue : ℕ
nbqueue = 300

abbrev pub nopid : ℤ
nopid = negsuc 0

-- Size of a kernel stack in words.
abbrev pub nbstack : ℕ
nbstack = 1024

abbrev pub maxprio : ℕ
maxprio = 256

pub data ProcessState : Type 0 where
  dead zombie runnable running asleep wait_child wait_queue_empty wait_queue_full : ProcessState

abbrev pub is_dead : ProcessState → Bool
is_dead ProcessState.dead = true
is_dead _ = false

abbrev pub is_zombie : ProcessState → Bool
is_zombie ProcessState.zombie = true
is_zombie _ = false

abbrev pub is_runnable : ProcessState → Bool
is_runnable ProcessState.runnable = true
is_runnable _ = false

abbrev pub is_running : ProcessState → Bool
is_running ProcessState.running = true
is_running _ = false

abbrev pub is_asleep : ProcessState → Bool
is_asleep ProcessState.asleep = true
is_asleep _ = false

abbrev pub is_wait_child : ProcessState → Bool
is_wait_child ProcessState.wait_child = true
is_wait_child _ = false

abbrev pub is_wait_empty : ProcessState → Bool
is_wait_empty ProcessState.wait_queue_empty = true
is_wait_empty _ = false

abbrev pub is_wait_full : ProcessState → Bool
is_wait_full ProcessState.wait_queue_full = true
is_wait_full _ = false

-- `state >= PS_RUNNABLE`
abbrev pub is_alive : ProcessState → Bool
is_alive ProcessState.dead = false
is_alive ProcessState.zombie = false
is_alive _ = true

-- A word of a stack: a number, an address of code, or an address in a stack of a process.
pub data Word : Type 0 where
  value code : ℕ → Word
  proc_end proc_end_user jmp_usermode : Word
  kernel_stack_at user_stack_at : ℕ → ℕ → Word

-- The kernel call in which a process is suspended, with what it does on its return.
pub data Pending : Type 0 where
  in_user receiving sending : Pending
  waiting : Option ℕ → Pending

pub record Process : Type 0 where
  -- the parent's pid, or none for NOPID
  pub parent : Option ℕ
  pub name : ℕ
  pub prio : ℤ
  pub state : ProcessState
  -- state_attr.asleep.clock
  pub wake : ℕ
  -- state_attr.retval of a zombie
  pub retval : ℤ
  -- the variable `child_pid` of the suspended `waitpid`, at which state_attr.child points
  pub child : ℤ
  -- state_attr.wait_queue.fid, and the variables at which its `retval` and `message` point:
  -- a sender's message, or the address that a receiver gave
  pub fid : ℕ
  pub wait_retval : ℤ
  pub message : ℤ
  pub message_to : Option ℕ
  pub pending : Pending
  -- registers[1], the saved stack pointer
  pub esp : Word
  pub kernel_stack : ℕ → Word
  pub user_stack : Option ℕ
  pub user_words : ℕ → Word
  pub ssize : ℕ

pub record Queue : Type 0 where
  pub front : ℕ
  pub rear : ℕ
  pub size : ℕ
  pub capacity : ℕ
  -- no array before the queue is first created
  pub allocated : Bool
  pub messages : ℕ → ℤ
  pub empty_process : List ℕ
  pub full_process : List ℕ

pub record Sys : Type 0 where
  pub processes : ℕ → Process
  pub active_process : ℕ
  pub runnable_process : List ℕ
  pub dead_process : List ℕ
  pub asleep_process : List ℕ
  pub queues : ℕ → Queue
  -- pit_count
  pub clock : ℕ
  -- the process whose kernel stack tss.esp0 names
  pub esp0 : ℕ
  -- the `int` variables of user space that the kernel writes
  pub memory : ℕ → ℤ
  -- an assertion has failed or a null pointer was followed: from there on the model says nothing
  pub panicked : Bool

abbrev pub update {ℓ} : {A : Type ℓ} → (ℕ → A) → ℕ → A → ℕ → A
update f p v q = if p == q then v else f q

abbrev pub set_process : ℕ → Process → Sys → Sys
set_process p r s = record s { processes = update s.processes p r }

abbrev pub set_state : ℕ → ProcessState → Sys → Sys
set_state p st s = set_process p (record (s.processes p) { state = st }) s

abbrev pub set_queue : ℕ → Queue → Sys → Sys
set_queue f q s = record s { queues = update s.queues f q }

-- assert(b)
abbrev pub check : Bool → Sys → Sys
check b s = record s { panicked = if b then s.panicked else true }

-- if (ptr) *ptr = v
abbrev pub store : Option ℕ → ℤ → Sys → Sys
store none v s = s
store (Option.some a) v s = record s { memory = update s.memory a v }
