-- ===== src/Scheduler/RoundRobin.antt =====
-- The order in which InvokeScheduler of src/kernel/kernel/scheduler.c picks the next thread.
use swag_os.Base.{ℕ, suc, ◌+◌, ◌-◌, ◌%◌, ◌≡◌, refl, Bool, some}
use swag_os.Base.Outcome.{Outcome, ◌>>=◌}
use swag_os.Scheduler.{
  Context, Machine, max_num_threads, is_ready, woken, Scan, continue, scan, schedule_idle,
}

-- A thread that the scheduler may start: ready, or saved asleep and woken since.
pub schedulable : Machine → ℕ → Bool
schedulable s i = is_ready (woken (s.threads i)).status

pub schedulable-status :
    (s : Machine) (i : ℕ) → schedulable s i ≡ is_ready (woken (s.threads i)).status
unfolding schedulable
schedulable-status s i = refl

-- How many places after thread `o` thread `j` comes in the order of the two loops.
abbrev pub distance : ℕ → ℕ → ℕ
distance o j = (j + max_num_threads - o) % max_num_threads

abbrev second_loop : ℕ → ℕ → Context → Machine → Outcome Scan
second_loop cpu o ctx s =
    scan o 0 cpu (some o) (some ctx) s >>= continue (schedule_idle cpu (some o) (some ctx))

-- The two loops from a thread `o` on.
two_loops : Machine → ℕ → ℕ → Context → Outcome Scan
two_loops s cpu o ctx =
    scan (max_num_threads - suc o) (suc o) cpu (some o) (some ctx) s
    >>= continue (second_loop cpu o ctx)
