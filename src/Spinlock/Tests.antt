-- ===== src/Spinlock/Tests.antt =====
-- The theorems on src/kernel/kernel/spinlock.c at a short run of two CPUs.
use swag_os.Base.{ℕ, ◌≡◌, ◌≢◌, refl, true, false, arith}
use swag_os.Spinlock.{no_owner, inc_cli, spinlock_check_held}
use swag_os.Spinlock.System.{
  outside, checking, spinning, entered, panicked, update, System, begin, no_deadlock, test_and_set,
  pick, Reach, start, later,
}
use swag_os.Spinlock.Exclusion.{inside, mutual_exclusion, never_panics}

abbrev quiet : System
quiet = record {
  lock = record { owner_cpu = no_owner; is_locked = false };
  cpu = λ i. record { id = i; cli_count = 0; no_int = false; interrupts = true };
  pc = λ _. outside;
}

abbrev waiting : System
waiting = record quiet {
  cpu = update quiet.cpu 0 (record { id = 0; cli_count = 1; no_int = false; interrupts = false });
  pc = update quiet.pc 0 checking;
}

abbrev trying : System
trying = record waiting { pc = update waiting.pc 0 spinning }

abbrev won : System
won = record trying {
  lock = record { owner_cpu = no_owner; is_locked = true };
  pc = update trying.pc 0 entered;
}

won-Reach : Reach 2 won
unfolding inc_cli spinlock_check_held
won-Reach =
    later
      (later
        (later
          (start {s = quiet} (record {
            unlocked = refl;
            unowned = refl;
            all_outside = λ i. refl;
            ids = λ i. refl;
            counts = λ i. refl;
          }))
          (pick {t = waiting} 0 (omega arith) (begin refl)))
        (pick {t = trying} 0 (omega arith) (no_deadlock refl refl)))
      (pick {t = won} 0 (omega arith) (test_and_set refl refl))

mutual_exclusion_example : ◌≡◌ {A = ℕ} 0 0
mutual_exclusion_example = mutual_exclusion 0 0 (omega arith) won-Reach refl refl

never_panics_example :
    (won.pc 0 ≢ panicked) × (inside (won.pc 0) ≡ true → (won.cpu 0).interrupts ≡ false)
never_panics_example = never_panics (omega arith) won-Reach 0
