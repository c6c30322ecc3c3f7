-- ===== src/Spinlock.antt =====
-- src/kernel/kernel/spinlock.c, with `inc_cli` and `dec_cli` of src/kernel/kernel/cpu.c: a lock
-- seen from one CPU, as long as no other CPU acts.
mod Tests
pub mod System
pub mod Exclusion
use swag_os.Base.{ℕ, ◌+◌, ◌-◌, ◌%◌, ◌^◌, Bool, true, false, not, ◌&&◌, ◌||◌, ◌==◌, if◌then◌else◌}
use swag_os.Base.Outcome.{Outcome, ok, panic, hang, ◌>>=◌}

-- `owner_cpu = -1` in a `uint32_t`
abbrev pub no_owner : ℕ
no_owner = 2 ^ 32 - 1

-- The name only serves messages.
pub record Spinlock : Type 0 where
  pub owner_cpu : ℕ
  pub is_locked : Bool

-- The fields of `struct CPU` that the locks use, and the CPU's interrupt flag.
pub record Cpu : Type 0 where
  pub id : ℕ
  pub cli_count : ℕ
  pub no_int : Bool
  pub interrupts : Bool

pub init_spinlock : Spinlock
init_spinlock = record { owner_cpu = no_owner; is_locked = false }

unfoldable pub inc_cli : Cpu → Cpu
inc_cli cpu = record cpu { cli_count = (cpu.cli_count + 1) % 2 ^ 32; interrupts = false }

unfoldable pub dec_cli : Cpu → Outcome Cpu
dec_cli cpu =
    if cpu.interrupts
    then panic
    else if cpu.cli_count == 0
    then panic
    else ok (record cpu {
      cli_count = cpu.cli_count - 1;
      interrupts = cpu.cli_count - 1 == 0 && not cpu.no_int;
    })

unfoldable pub spinlock_check_held : Spinlock → Cpu → Bool
spinlock_check_held lock cpu = lock.is_locked && lock.owner_cpu == cpu.id

-- `hang` is the wait for a lock that another CPU holds.
unfoldable pub acquire_spinlock : Spinlock × Cpu → Outcome (Spinlock × Cpu)
unfolding inc_cli spinlock_check_held
acquire_spinlock (lock, cpu) =
    if spinlock_check_held lock (inc_cli cpu)
    then panic
    else if lock.is_locked
    then hang
    else ok (record { owner_cpu = cpu.id; is_locked = true }, inc_cli cpu)

unfoldable pub release_spinlock : Spinlock × Cpu → Outcome (Spinlock × Cpu)
unfolding dec_cli spinlock_check_held
release_spinlock (lock, cpu) =
    if not (spinlock_check_held lock cpu)
    then panic
    else (dec_cli cpu >>= λ cpu'. ok (record { owner_cpu = no_owner; is_locked = false }, cpu'))
