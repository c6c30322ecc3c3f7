-- ===== src/Scheduler/Sleep.antt =====
-- ThreadSleep, Wakeup, NoLockWakeup and ExitThread of src/kernel/kernel/proc.c.
use swag_os.Base.{ℕ, zero, suc, Bool, true, false, ◌&&◌, Option, none, some, ◌==◌, if◌then◌else◌}
use swag_os.Base.Outcome.{Outcome, ok, panic}
use swag_os.Scheduler.{
  ThreadState, not_initialized, killed, sleeping, wakeup_ready, Thread, Machine, max_num_threads,
  uint32_max, update, set_thread,
}

-- The writes of ThreadSleep to its thread, which are made without the lock of the process table.
unfoldable pub put_channel : ℕ → Thread → Thread
put_channel channel t = record t { sleep_channel = channel }

unfoldable pub put_asleep : Thread → Thread
put_asleep t = record t { status = sleeping }

unfoldable pub hold_wakeup : Thread → Thread
hold_wakeup t = record t { can_wakeup = false }

-- ThreadSleep up to its `int3`, which enters the scheduler, where no other CPU comes between its writes.
-- A channel of 0 is NULL. The lock that the caller holds is released in between.
unfoldable pub thread_sleep : Machine → ℕ → ℕ → Outcome Machine
unfolding set_thread put_channel put_asleep hold_wakeup
thread_sleep s cpu channel = elim (s.current cpu) [
  | none ↦ panic
  | some i ↦
      if channel == 0
      then panic
      else ok (set_thread s i (hold_wakeup (put_asleep (put_channel channel (s.threads i)))))
]

-- The rest of ThreadSleep.
unfoldable pub thread_resume : Machine → ℕ → Outcome Machine
unfolding set_thread
thread_resume s cpu = elim (s.current cpu) [
  | none ↦ panic
  | some i ↦ ok (set_thread s i (record (s.threads i) { sleep_channel = 0 }))
]

unfoldable pub is_asleep : ThreadState → Bool
is_asleep sleeping = true
is_asleep wakeup_ready = true
is_asleep _ = false

-- What both loops do to one thread.
unfoldable pub wake_thread : ℕ → Thread → Thread
unfolding is_asleep
wake_thread channel t =
    if is_asleep t.status && t.sleep_channel == channel then record t { can_wakeup = true } else t

unfoldable pub wakeup_loop : ℕ → ℕ → ℕ → Machine → Machine
unfolding set_thread wake_thread
wakeup_loop zero i channel s = s
wakeup_loop (suc n) i channel s =
    wakeup_loop n (suc i) channel (set_thread s i (wake_thread channel (s.threads i)))

-- With the lock of the process table taken around the loop.
unfoldable pub wakeup : Machine → ℕ → Machine
unfolding wakeup_loop
wakeup s channel = wakeup_loop max_num_threads 0 channel s

-- The same loop, for callers that hold the lock.
unfoldable pub no_lock_wakeup : Machine → ℕ → Machine
unfolding wakeup_loop
no_lock_wakeup s channel = wakeup_loop max_num_threads 0 channel s

unfoldable pub exit_thread : Machine → ℕ → Outcome Machine
unfolding set_thread
exit_thread s cpu = elim (s.current cpu) [
  | none ↦ panic
  | some i ↦
      ok (record (set_thread s i (record (s.threads i) { status = killed; id = uint32_max })) {
        current = update s.current cpu none;
      })
]

unfoldable pub is_free : ThreadState → Bool
is_free not_initialized = true
is_free killed = true
is_free _ = false

-- FindFreeThread, from thread `i` on with `n` threads left.
unfoldable pub find_free_from : ℕ → ℕ → Machine → Option ℕ
unfolding is_free
find_free_from zero i s = none
find_free_from (suc n) i s =
    if is_free (s.threads i).status then some i else find_free_from n (suc i) s

unfoldable pub find_free_thread : Machine → Option ℕ
unfolding find_free_from
find_free_thread s = find_free_from max_num_threads 0 s
