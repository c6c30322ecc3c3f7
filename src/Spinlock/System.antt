-- ===== src/Spinlock/System.antt =====
-- `n` CPUs that take and release one spinlock in any interleaving, one shared access at a time.
use swag_os.Base.{ℕ, ◌<◌, ◌≡◌, true, false, ◌==◌, if◌then◌else◌}
use swag_os.Base.Outcome.{ok, panic}
use swag_os.Spinlock.{Spinlock, Cpu, no_owner, inc_cli, dec_cli, spinlock_check_held}

-- Where a CPU stands in `acquire_Spinlock` and `release_Spinlock`.
pub data Pc : Type 0 where
  outside : Pc  -- not in the lock's code and not its holder
  checking : Pc  -- after `inc_cli`, before the deadlock check
  spinning : Pc  -- the `while` over the test-and-set
  entered : Pc  -- after the test-and-set, before `owner_cpu` is written
  holding : Pc  -- `acquire_Spinlock` has returned
  releasing : Pc  -- `release_Spinlock` has passed its check
  disowned : Pc  -- `owner_cpu = -1` is written, the flag still set
  leaving : Pc  -- the flag is cleared, before `dec_cli`
  panicked : Pc

abbrev pub update {ℓ} : {A : Type ℓ} → (ℕ → A) → ℕ → A → ℕ → A
update f i a j = if j == i then a else f j

pub record System : Type 0 where
  pub lock : Spinlock
  pub cpu : ℕ → Cpu
  pub pc : ℕ → Pc

abbrev at : System → ℕ → Pc → System
at s i p = record s { pc = update s.pc i p }

-- One step of CPU `i`.
pub data Move (s : System) (i : ℕ) : System → Type 0 where
  begin :
      s.pc i ≡ Pc.outside
      → Move s i
          (record s { cpu = update s.cpu i (inc_cli (s.cpu i)); pc = update s.pc i Pc.checking })
  deadlock :
      s.pc i ≡ Pc.checking
      → spinlock_check_held s.lock (s.cpu i) ≡ true
      → Move s i (record s { pc = update s.pc i Pc.panicked })
  no_deadlock :
      s.pc i ≡ Pc.checking
      → spinlock_check_held s.lock (s.cpu i) ≡ false
      → Move s i (record s { pc = update s.pc i Pc.spinning })
  spin : s.pc i ≡ Pc.spinning → s.lock.is_locked ≡ true → Move s i s
  test_and_set :
      s.pc i ≡ Pc.spinning
      → s.lock.is_locked ≡ false
      → Move s i
          (record s { lock = record (s.lock) { is_locked = true }; pc = update s.pc i Pc.entered })
  own :
      s.pc i ≡ Pc.entered
      → Move s i (record s {
        lock = record (s.lock) { owner_cpu = (s.cpu i).id };
        pc = update s.pc i Pc.holding;
      })
  not_held :
      s.pc i ≡ Pc.holding
      → spinlock_check_held s.lock (s.cpu i) ≡ false
      → Move s i (record s { pc = update s.pc i Pc.panicked })
  held :
      s.pc i ≡ Pc.holding
      → spinlock_check_held s.lock (s.cpu i) ≡ true
      → Move s i (record s { pc = update s.pc i Pc.releasing })
  disown :
      s.pc i ≡ Pc.releasing
      → Move s i (record s {
        lock = record (s.lock) { owner_cpu = no_owner };
        pc = update s.pc i Pc.disowned;
      })
  clear :
      s.pc i ≡ Pc.disowned
      → Move s i
          (record s { lock = record (s.lock) { is_locked = false }; pc = update s.pc i Pc.leaving })
  bad_count :
      s.pc i ≡ Pc.leaving
      → dec_cli (s.cpu i) ≡ panic
      → Move s i (record s { pc = update s.pc i Pc.panicked })
  finish :
      {c : Cpu}
      → s.pc i ≡ Pc.leaving
      → dec_cli (s.cpu i) ≡ ok c
      → Move s i (record s { cpu = update s.cpu i c; pc = update s.pc i Pc.outside })

pub data Step (n : ℕ) (s : System) : System → Type 0 where
  pick : {t : System} (i : ℕ) → i < n → Move s i t → Step n s t

-- An initialised lock, with every CPU outside; `get_cpu_byID` requires that a CPU's place in the
-- table is its id.
pub record IsInitial (s : System) : Type 0 where
  pub unlocked : s.lock.is_locked ≡ false
  pub unowned : s.lock.owner_cpu ≡ no_owner
  pub all_outside : (i : ℕ) → s.pc i ≡ Pc.outside
  pub ids : (i : ℕ) → (s.cpu i).id ≡ i
  pub counts : (i : ℕ) → (s.cpu i).cli_count ≡ 0

pub data Reach (n : ℕ) : System → Type 0 where
  start : {s : System} → IsInitial s → Reach n s
  later : {s t : System} → Reach n s → Step n s t → Reach n t
