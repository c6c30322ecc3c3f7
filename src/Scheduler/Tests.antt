-- ===== src/Scheduler/Tests.antt =====
-- The theorems on the scheduler of src/kernel/kernel/scheduler.c and the sleeps of
-- src/kernel/kernel/proc.c, on a machine with one thread and the idle thread.
use swag_os.Base.{
  ℕ, ◌<◌, ◌≤◌, ◌≡◌, ◌≢◌, refl, sym, ap, ◌∙◌, inl, inr, true, false, [], ◌∷◌, Option, none, some,
  arith,
}
use mathlib.Core.Bool.{false≢true}
use mathlib.Core.Option.{some-injective}
use swag_os.Base.Outcome.{ok, panic, ◌>>=◌}
use swag_os.Scheduler.{
  ThreadState, not_initialized, ready, running, kernel_thread, Thread, Context, Machine,
  idle_thread, update, save_thread_context, switched, invoke_scheduler, invoke_scheduler_old,
  set_thread, is_ready, scan, continue, schedule_idle, woken, woken_status,
}
use swag_os.Scheduler.Exclusive.{held, alive, IsExclusive, update-cases, update_self}
use swag_os.Scheduler.Switch.{take-Settles, invoke-goes}
use swag_os.Scheduler.Sleep.{thread_sleep}
use swag_os.Scheduler.Create.{
  Created, kernel_thread_at, create_idle_thread, create_kernel_thread, create_kernel_thread_lem,
}
use swag_os.Scheduler.Steps.{
  none_some, Run, Run-IsExclusive, boot, next, spawn, reschedule, one_cpu_per_thread,
  scheduler_never_panics,
}
use swag_os.Scheduler.RoundRobin.{schedulable}
use swag_os.Scheduler.Wake.{wakeups, no_lost_wakeup}

abbrev code_at : ℕ → Context
code_at rip = record {
  i_rip = rip;
  i_rsp = 0x1000;
  i_rflags = 0x202;
  i_cs = 8;
  i_ss = 16;
  rdi = 0;
  rsi = 0;
  rbp = 0;
  other_registers = [];
}

abbrev a_thread : ℕ → ThreadState → Thread
a_thread n state = record {
  can_wakeup = true;
  status = state;
  run_mode = kernel_thread;
  id = n;
  pml4t_phys = 0x100000;
  execution_context = code_at 0x1000;
  sleep_channel = 0;
}

abbrev with_worker : ThreadState → Option ℕ → Machine
with_worker state on_cpu = record {
  threads =
      update (update (λ _. a_thread 0 not_initialized) idle_thread (a_thread 300 ready)) 2
        (a_thread 2 state);
  current = update (λ _. none) 0 on_cpu;
  panicked = false;
}

-- Every thread of the machine has the state that its place says.
module _ (state : ThreadState) (on_cpu : Option ℕ) where
  worker_at : (with_worker state on_cpu).threads 2 ≡ a_thread 2 state
  worker_at =
      update_self (update (λ _. a_thread 0 not_initialized) idle_thread (a_thread 300 ready)) 2
        (a_thread 2 state)

  data Place (j : ℕ) : Type 0 where
    worker : j ≡ 2 → (with_worker state on_cpu).threads j ≡ a_thread 2 state → Place j
    idle : j ≡ 300 → (with_worker state on_cpu).threads j ≡ a_thread 300 ready → Place j
    unused : j ≢ 2 → (with_worker state on_cpu).threads j ≡ a_thread 0 not_initialized → Place j

  place : (j : ℕ) → Place j
  place j =
      let inner = update (λ _. a_thread 0 not_initialized) idle_thread (a_thread 300 ready) in
      elim (update-cases inner 2 (a_thread 2 state) j) [
        | inl (e, at) ↦ worker e at
        | inr (ne, at) ↦
            elim (update-cases (λ _. a_thread 0 not_initialized) idle_thread (a_thread 300 ready)
              j) [ inl (e, at') ↦ idle e (at ∙ at') | inr (_, at') ↦ unused ne (at ∙ at') ]
      ]

  worker_only :
      ((c : ℕ) (i : ℕ)
        → (with_worker state on_cpu).current c ≡ some i
        → (c ≡ 0) × (on_cpu ≡ some i))
  worker_only c i e = elim (update-cases (λ _. none) 0 on_cpu c) [
    | inl (z, at) ↦ (z, sym at ∙ e)
    | inr (_, at) ↦ absurd (none_some (sym at ∙ e))
  ]

-- The thread that the CPU runs in the examples: the idle thread, or a worker that is held.
data Runs (state : ThreadState) : Option ℕ → Type 0 where
  runs_idle : Runs state (some 300)
  runs_worker : held state ≡ true → Runs state (some 2)

Runs-IsExclusive :
    (state : ThreadState) (on_cpu : Option ℕ)
    → Runs state on_cpu
    → IsExclusive (with_worker state on_cpu)
Runs-IsExclusive state on_cpu r = record {
  current_held = λ c i e small. held_there r i (worker_only state on_cpu c i e).1 small;
  in_table = λ c i e. in_there r i (worker_only state on_cpu c i e).1;
  one_cpu = λ c d i e e' small.
      (worker_only state on_cpu c i e).0 ∙ sym (worker_only state on_cpu d i e').0;
  has_code = λ j w. elim (place state on_cpu j) [
    | worker _ at ↦ λ z. thousand (ap (λ t. t.execution_context.i_rip) (sym at) ∙ z)
    | idle _ at ↦ λ z. thousand (ap (λ t. t.execution_context.i_rip) (sym at) ∙ z)
    | unused _ at ↦ λ z. thousand (ap (λ t. t.execution_context.i_rip) (sym at) ∙ z)
  ];
  named = λ j w. elim (place state on_cpu j) [
    | worker e at ↦ ap (λ t. t.id) at ∙ sym e
    | idle e at ↦ ap (λ t. t.id) at ∙ sym e
    | unused _ at ↦ absurd (false≢true (ap (λ t. alive t.status) (sym at) ∙ w))
  ];
  idle_id = refl;
  idle_code = thousand;
}
  where
    thousand : ◌≢◌ {A = ℕ} 0x1000 0
    thousand z = omega (arith, z)

    held_there :
        {o : Option ℕ}
        → Runs state o
        → (i : ℕ) → o ≡ some i
        → i < 300
        → held ((with_worker state on_cpu).threads i).status ≡ true
    held_there runs_idle i e small = absurd (omega (arith, some-injective 300 i e, small))
    held_there (runs_worker h) i e small =
        ap (λ j. held ((with_worker state on_cpu).threads j).status) (sym (some-injective 2 i e))
        ∙ ap (λ t. held t.status) (worker_at state on_cpu)
        ∙ h

    in_there : {o : Option ℕ} → Runs state o → (i : ℕ) → o ≡ some i → i ≤ 300
    in_there runs_idle i e = omega (arith, some-injective 300 i e)
    in_there (runs_worker h) i e = omega (arith, some-injective 2 i e)

-- The machine at boot, and its first steps: an idle thread, a kernel thread that it creates, and the
-- timer of the first CPU, which starts it.
abbrev blank : Machine
blank = record { threads = λ _. a_thread 0 not_initialized; current = λ _. none; panicked = false }

abbrev idle_boot : Thread
idle_boot =
    kernel_thread_at (a_thread 0 not_initialized) idle_thread 0xffffffff80100000 0x3000 0x8000
      0x1000

abbrev booted : Machine
booted = set_thread blank idle_thread idle_boot

first_thread : Thread
first_thread =
    kernel_thread_at (a_thread 0 not_initialized) 0 0xffffffff80100000 0x4000 0x9000 0x10000

spawned : Machine
spawned = set_thread booted 0 first_thread

idles : create_idle_thread blank 0xffffffff80100000 0x3000 0x8000 ≡ ok booted
unfolding create_idle_thread
idles = refl

spawns : create_kernel_thread booted 0xffffffff80100000 0x4000 0x9000 ≡ ok spawned
unfolding create_kernel_thread spawned first_thread
spawns = refl

spawned-Run : Run spawned
spawned-Run =
    next
      (boot 0xffffffff80100000 0x3000 0x8000
        (record { no_thread = λ i. refl; no_current = λ cpu. refl }) (λ e. omega (arith, e)) idles)
      (spawn 0xffffffff80100000 0x4000 0x9000 (λ e. omega (arith, e)) spawns)

calm : spawned.panicked ≡ false
unfolding spawned set_thread
calm = refl

no_thread_yet : spawned.current 0 ≡ none
unfolding spawned set_thread
no_thread_yet = refl

first_ready : is_ready (woken (spawned.threads 0)).status ≡ true
unfolding spawned first_thread set_thread kernel_thread_at is_ready woken woken_status
first_ready = refl

begin :
    (s' : Machine) × (scan 300 0 0 none (some (code_at 0x2000)) spawned ≡ ok (switched s'))
    × IsExclusive s'
    × (s'.current 0 ≡ some 0)
begin =
    take-Settles 299 0 0 none (code_at 0x2000) spawned (Run-IsExclusive spawned spawned-Run)
      no_thread_yet (λ e. omega (arith, e)) (omega arith) first_ready

starts : invoke_scheduler spawned 0 (some (code_at 0x2000)) ≡ ok (switched begin.0)
unfolding invoke_scheduler_old continue
starts =
    invoke-goes spawned 0 (some (code_at 0x2000)) calm
    ∙ ap (λ old. invoke_scheduler_old spawned 0 old (some (code_at 0x2000))) no_thread_yet
    ∙ ap (λ r. r >>= continue (schedule_idle 0 none (some (code_at 0x2000)))) begin.1

started-Run : Run begin.0
started-Run = next spawned-Run (reschedule 0 (code_at 0x2000) (λ e. omega (arith, e)) starts)

one_cpu_per_thread_example : begin.0.current 1 ≢ some 0
one_cpu_per_thread_example =
    one_cpu_per_thread begin.0 0 1 0 started-Run (λ e. omega (arith, e)) (λ e. omega (arith, e))
      begin.3

scheduler_never_panics_example : invoke_scheduler spawned 0 (some (code_at 0x2000)) ≢ panic
scheduler_never_panics_example =
    scheduler_never_panics spawned 0 (code_at 0x2000) spawned-Run calm (λ e. omega (arith, e))

no_lost_wakeup_example :
    (s1 s2 : Machine) × (thread_sleep (with_worker running (some 2)) 0 7 ≡ ok s1)
    × (schedulable (wakeups (3 ∷ []) s1) 2 ≡ false)
    × (save_thread_context (wakeups (3 ∷ []) s1) (some 2) (some (code_at 0x2000)) ≡ ok s2)
    × (schedulable (wakeups (7 ∷ []) s2) 2 ≡ true)
no_lost_wakeup_example =
    no_lost_wakeup (with_worker running (some 2)) 0 2 7 (code_at 0x2000) (3 ∷ []) (7 ∷ []) refl
      (omega arith) refl

create_kernel_thread_lem_example :
    Created
      (with_worker ready (some 300))
      0x3000
      0x9000
      (create_kernel_thread (with_worker ready (some 300)) 0xffffffff80100000 0x3000 0x9000)
create_kernel_thread_lem_example =
    create_kernel_thread_lem (with_worker ready (some 300)) 0xffffffff80100000 0x3000 0x9000
      (Runs-IsExclusive ready (some 300) runs_idle) (λ e. omega (arith, e))
