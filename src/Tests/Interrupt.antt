-- ===== src/Tests/Interrupt.antt =====
-- The theorems on the clock interrupt, the speaker and the table of interrupts applied to concrete
-- states.
use calm_os.Base.{
  ℕ, ◌+◌, ◌/◌, ◌%◌, ◌≡◌, List, [], ◌∷◌, some, refl, arith, if◌then◌else◌, ltb, leb, ◌-◌, ◌&&◌, ◌<◌,
  ◌==◌, ◌||◌,
}
use calm_os.Base.{insert_before}
use calm_os.Kernel.Runnable.{push_runnable}
use calm_os.Kernel.Tick.{wake, wake_up, dispatch, elect, tick_scheduler, fix_scheduler}
use calm_os.Kernel.Scheduler.{start, start_background}
use calm_os.Kernel.Messages.{find_free, new_queue, pcreate}
use calm_os.Kernel.Boot.{setup_scheduler, pids}
use calm_os.Kernel.Tick.Laws.{Elects}
use calm_os.Interrupt.{Speaker, Computer, tic_pit}
use calm_os.Interrupt.Laws.{IsSprintf, tic_pit_lem}
use calm_os.Interrupt.Setup.{Handlers, Chips, setup_interrupt_handlers}
use calm_os.Interrupt.Setup.Laws.{Gate, mask_bit, setup_interrupt_handlers_lem}
use calm_os.Tests.{created, created-Elects}

abbrev quiet : Speaker
quiet = record { timer = []; port_61 = 48; beeping_end = 0 }

abbrev handlers : Handlers
handlers = record {
  it_pit = 1054321;
  it_keyboard = 1054400;
  it_floppy = 1054480;
  it_mouse = 1054560;
  it_usr = 1054640;
}

-- Every line masked
abbrev chips : Chips
chips = record { masks_low = 0xff; masks_high = 0xff; idt = λ i. 0; timer = [] }

setup_interrupt_handlers_lem_example :
    Gate (setup_interrupt_handlers handlers chips).idt 32 1054321 0
    × Gate (setup_interrupt_handlers handlers chips).idt 33 1054400 0
    × Gate (setup_interrupt_handlers handlers chips).idt 38 1054480 0
    × Gate (setup_interrupt_handlers handlers chips).idt 44 1054560 0
    × Gate (setup_interrupt_handlers handlers chips).idt 49 1054640 3
    × ((j : ℕ)
        → j < 8
        → mask_bit (setup_interrupt_handlers handlers chips).masks_low j
          ≡ (if j == 0 || j == 1 || j == 2 || j == 6 then 0 else mask_bit 0xff j))
    × ((j : ℕ)
        → j < 8
        → mask_bit (setup_interrupt_handlers handlers chips).masks_high j
          ≡ (if j == 4 then 0 else mask_bit 0xff j))
setup_interrupt_handlers_lem_example =
    setup_interrupt_handlers_lem handlers chips (omega arith) (omega arith) (omega arith)
      (omega arith) (omega arith)

abbrev copy : ℕ → ℕ → ℕ → (ℕ → ℕ) → ℕ → ℕ
copy to from n m i = if leb to i && ltb i (to + n) then m (from + (i - to)) else m i

abbrev computer : Computer
computer = record {
  kernel = created;
  screen = record {
    col = 5;
    lig = 7;
    ct = 15;
    cf = 0;
    cells = λ i. i;
    cursor_low = 0;
    cursor_high = 0;
  };
  speaker = quiet;
}

-- A number of two digits, and the time
abbrev digits : ℕ → List ℕ → List ℕ
digits n rest = (0x30 + n / 10 % 10) ∷ (0x30 + n % 10) ∷ rest

abbrev print_time : ℕ → ℕ → ℕ → List ℕ
print_time h m s = digits h (0x3a ∷ digits m (0x3a ∷ digits s []))

print_time-IsSprintf : IsSprintf print_time
print_time-IsSprintf = record {
  short = λ h m s i j k. refl;
  printable = λ h m s i j k. (
    ground arith,
    (
      ground arith,
      (refl, (ground arith, (ground arith, (refl, (ground arith, (ground arith, tt)))))),
    ),
  );
}

computer_clock : computer.kernel.clock ≡ 0
unfolding start start_background setup_scheduler pids fix_scheduler tick_scheduler wake_up wake
    elect dispatch push_runnable insert_before pcreate find_free new_queue
computer_clock = refl

tic_pit_lem_example : (t : Computer) × (tic_pit copy print_time computer ≡ some t) × Elects t.kernel
tic_pit_lem_example =
    let r =
      tic_pit_lem copy print_time print_time-IsSprintf computer (omega (arith, computer_clock))
        created-Elects in
    (r.0, r.1, r.2)
