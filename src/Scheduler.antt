-- ===== src/Scheduler.antt =====
-- src/kernel/kernel/scheduler.c, and the thread states of src/kernel/kernel/proc.c: the thread
-- table, the thread that each CPU runs, and the steps that change them.
pub mod Exclusive
pub mod Switch
pub mod Sleep
pub mod Steps
pub mod RoundRobin
pub mod Wake
pub mod Create
mod Tests
use swag_os.Base.{
  ℕ, zero, suc, ◌+◌, ◌-◌, ◌%◌, ◌^◌, Bool, true, false, not, ◌&&◌, ◌||◌, List, [], ◌∷◌, Option, none,
  some, ◌==◌, ltb, if◌then◌else◌,
}
use swag_os.Base.Outcome.{Outcome, ok, panic, hang, ◌>>=◌}

abbrev pub max_num_threads : ℕ
max_num_threads = 300

abbrev pub idle_thread : ℕ
idle_thread = 300

abbrev pub uint32_max : ℕ
uint32_max = 2 ^ 32 - 1

pub data ThreadState : Type 0 where
  not_initialized : ThreadState
  ready : ThreadState
  running : ThreadState
  killed : ThreadState
  sleeping : ThreadState
  wakeup_ready : ThreadState

pub data RunMode : Type 0 where
  kernel_thread : RunMode
  user_thread : RunMode

-- `cpu_context_t`, with the registers that no code of the kernel sets by name as a list.
pub record Context : Type 0 where
  pub i_rip : ℕ
  pub i_rsp : ℕ
  pub i_rflags : ℕ
  pub i_cs : ℕ
  pub i_ss : ℕ
  pub rdi : ℕ
  pub rsi : ℕ
  pub rbp : ℕ
  pub other_registers : List ℕ

-- A `sleep_channel` of 0 is NULL.
pub record Thread : Type 0 where
  pub can_wakeup : Bool
  pub status : ThreadState
  pub run_mode : RunMode
  pub id : ℕ
  pub pml4t_phys : ℕ
  pub execution_context : Context
  pub sleep_channel : ℕ

-- `thread_table`, `current_thread` of every CPU as an index into it, and `global_Settings.panic`.
pub record Machine : Type 0 where
  pub threads : ℕ → Thread
  pub current : ℕ → Option ℕ
  pub panicked : Bool

abbrev pub update {ℓ} : {A : Type ℓ} → (ℕ → A) → ℕ → A → ℕ → A
update f i v j = if j == i then v else f j

unfoldable pub set_thread : Machine → ℕ → Thread → Machine
set_thread s i t = record s { threads = update s.threads i t }

unfoldable pub is_ready : ThreadState → Bool
is_ready ready = true
is_ready _ = false

-- The first test of each scheduling loop.
unfoldable pub woken_status : ThreadState → Bool → ThreadState
woken_status wakeup_ready true = ready
woken_status state _ = state

unfoldable pub woken : Thread → Thread
unfolding woken_status
woken t = record t { status = woken_status t.status t.can_wakeup }

-- A `memset(old_thread, sizeof(Thread), 0x00)` of a killed thread writes no byte.
unfoldable pub save_status : ThreadState → Thread → Context → Outcome Thread
save_status killed t ctx = ok t
save_status sleeping t ctx = ok (record t { status = wakeup_ready; execution_context = ctx })
save_status running t ctx = ok (record t { status = ready; execution_context = ctx })
save_status _ t ctx = panic

unfoldable pub save_thread_context : Machine → Option ℕ → Option Context → Outcome Machine
unfolding set_thread save_status
save_thread_context s none ctx = ok s
save_thread_context s (some o) none = ok s
save_thread_context s (some o) (some ctx) =
    if o == idle_thread
    then ok s
    else (save_status (s.threads o).status (s.threads o) ctx >>= λ t. ok (set_thread s o t))

-- What a call of the scheduler comes to: a switch to another thread, or a return.
pub data Scan : Type 0 where
  switched : Machine → Scan
  passed : Machine → Scan

-- `schedule` returns where the thread has no code to run.
unfoldable pub schedule : Machine → ℕ → ℕ → ThreadState → Scan
unfolding set_thread
schedule s cpu i state =
    if (s.threads i).execution_context.i_rip == 0
    then passed s
    else switched (record (set_thread s i (record (s.threads i) { status = state })) {
      current = update s.current cpu (some i);
    })

-- The loop went past a thread that `schedule` did not start.
unfoldable pub continue : (Machine → Outcome Scan) → Scan → Outcome Scan
continue rest (switched s) = ok (switched s)
continue rest (passed s) = rest s

-- A loop over the `n` threads from `i` on.
unfoldable pub scan : ℕ → ℕ → ℕ → Option ℕ → Option Context → Machine → Outcome Scan
unfolding is_ready woken set_thread save_thread_context schedule continue
scan zero i cpu old ctx s = ok (passed s)
scan (suc n) i cpu old ctx s =
    let s1 = set_thread s i (woken (s.threads i)) in
    elim (is_ready (woken (s.threads i)).status) [
      | true ↦
          (save_thread_context s1 old ctx >>= λ s2.
          continue (scan n (suc i) cpu old ctx) (schedule s2 cpu i running))
      | false ↦ scan n (suc i) cpu old ctx s1
    ]

unfoldable pub is_killed : ThreadState → Bool
is_killed killed = true
is_killed _ = false

unfoldable pub schedule_idle_thread : ℕ → Option ℕ → Option Context → Machine → Outcome Scan
unfolding save_thread_context schedule
schedule_idle_thread cpu old ctx s =
    save_thread_context s old ctx >>= λ s1. ok (schedule s1 cpu idle_thread ready)

-- HandleNoSchedule reads `old_thread->run_mode`, which faults for NULL.
unfoldable pub handle_no_schedule : Option ℕ → Machine → Outcome Scan
handle_no_schedule none s = panic
handle_no_schedule (some o) s = ok (passed s)

-- From the label `schedule_idle` on.
unfoldable pub schedule_idle : ℕ → Option ℕ → Option Context → Machine → Outcome Scan
unfolding schedule_idle_thread handle_no_schedule continue is_killed
schedule_idle cpu none ctx s =
    schedule_idle_thread cpu none ctx s >>= continue (handle_no_schedule none)
schedule_idle cpu (some o) ctx s =
    if is_killed (s.threads o).status
    then (schedule_idle_thread cpu (some o) ctx s >>= continue (handle_no_schedule (some o)))
    else handle_no_schedule (some o) s

-- `old_thread_id` of a thread
unfoldable pub start_id : Thread → ℕ
start_id t = if t.id == uint32_max then max_num_threads else t.id

unfoldable pub invoke_scheduler_old : Machine → ℕ → Option ℕ → Option Context → Outcome Scan
unfolding scan schedule_idle start_id continue
invoke_scheduler_old s cpu none ctx =
    scan max_num_threads 0 cpu none ctx s >>= continue (schedule_idle cpu none ctx)
invoke_scheduler_old s cpu (some o) ctx =
    let start = start_id (s.threads o) in
    scan (max_num_threads - suc start) (suc start) cpu (some o) ctx s
    >>= continue
        (λ s1. scan start 0 cpu (some o) ctx s1 >>= continue (schedule_idle cpu (some o) ctx))

-- `s.current cpu` is the thread that the interrupt stopped; the context is what it was doing.
unfoldable pub invoke_scheduler : Machine → ℕ → Option Context → Outcome Scan
unfolding invoke_scheduler_old
invoke_scheduler s cpu ctx =
    if s.panicked then panic else invoke_scheduler_old s cpu (s.current cpu) ctx
