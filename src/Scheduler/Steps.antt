-- ===== src/Scheduler/Steps.antt =====
-- Every run of the steps of src/kernel/kernel/scheduler.c and src/kernel/kernel/proc.c, in any order
-- and on any CPUs, keeps each thread on one CPU.
use swag_os.Base.{
  ℕ, zero, suc, ◌<◌, ◌≡◌, ◌≢◌, refl, sym, ap, ◌∙◌, ◌⊎◌, inl, inr, Bool, true, false, ◌&&◌, Option,
  none, some, ◌==◌, Bool-cases, arith,
}
use mathlib.Core.Bool.{false≢true}
use mathlib.Core.Path.{subst}
use swag_os.Base.Outcome.{Outcome, ok, panic}
use swag_os.Scheduler.{
  ThreadState, not_initialized, ready, running, killed, sleeping, wakeup_ready, Thread, Context,
  Machine, max_num_threads, idle_thread, uint32_max, update, set_thread, Scan, switched, passed,
  invoke_scheduler,
}
use swag_os.Scheduler.Exclusive.{
  held, waiting, alive, IsExclusive, IsAlike, set_thread-IsExclusive, update-cases, update_ne,
  update_self,
}
use swag_os.Scheduler.Switch.{Settles, on_switch, on_return, invoke_scheduler-Settles, invoke-stops}
use swag_os.Scheduler.Create.{
  create_kernel_thread, create_idle_thread, kernel_thread_at, Created, table_full, no_stack,
  created, create_kernel_thread_lem,
}
use swag_os.Scheduler.Sleep.{
  put_channel, put_asleep, hold_wakeup, thread_sleep, is_asleep, wake_thread, wakeup_loop, wakeup,
  exit_thread,
}

-- One step of the kernel. A scheduler that returns leaves the CPU with the thread it had. The writes of
-- ThreadSleep are steps of their own, so that other CPUs come between them; some CPU may panic.
pub data Step (s : Machine) : Machine → Type 0 where
  reschedule :
      {s' : Machine} (cpu : ℕ) (ctx : Context)
      → ctx.i_rip ≢ 0
      → invoke_scheduler s cpu (some ctx) ≡ ok (switched s')
      → Step s s'
  keep_running :
      {s' : Machine} (cpu : ℕ) (ctx : Context)
      → ctx.i_rip ≢ 0
      → invoke_scheduler s cpu (some ctx) ≡ ok (passed s')
      → Step s s'
  sleep_on :
      (cpu i channel : ℕ)
      → s.current cpu ≡ some i
      → i < max_num_threads
      → Step s (set_thread s i (put_channel channel (s.threads i)))
  fall_asleep :
      (cpu i : ℕ)
      → s.current cpu ≡ some i
      → i < max_num_threads
      → Step s (set_thread s i (put_asleep (s.threads i)))
  hold_off :
      (cpu i : ℕ)
      → s.current cpu ≡ some i
      → i < max_num_threads
      → Step s (set_thread s i (hold_wakeup (s.threads i)))
  fail : Step s (record s { panicked = true })
  wake : {s' : Machine} (channel : ℕ) → wakeup s channel ≡ s' → Step s s'
  spawn :
      {s' : Machine} (pml4t_kernel entry stack : ℕ)
      → entry ≢ 0
      → create_kernel_thread s pml4t_kernel entry stack ≡ ok s'
      → Step s s'
  exit :
      {s' : Machine} (cpu i : ℕ)
      → s.current cpu ≡ some i
      → i < max_num_threads
      → exit_thread s cpu ≡ ok s'
      → Step s s'

is_some {ℓ} : {A : Type ℓ} → Option A → Bool
is_some none = false
is_some (some a) = true

pub none_some : {i : ℕ} → ◌≢◌ {A = Option ℕ} none (some i)
unfolding is_some
none_some e = false≢true (ap is_some e)

is_ok {ℓ} : {A : Type ℓ} → Outcome A → Bool
is_ok (ok a) = true
is_ok _ = false

panic_ok : {s : Machine} → ◌≢◌ {A = Outcome Machine} panic (ok s)
unfolding is_ok
panic_ok e = false≢true (ap is_ok e)

wake-IsAlike : (channel : ℕ) (t : Thread) → IsAlike t (wake_thread channel t)
unfolding wake_thread
wake-IsAlike channel t = elim (Bool-cases (is_asleep t.status && t.sleep_channel == channel)) [
  | inl e ↦
      rw e (record { same_held = refl; same_waiting = refl; same_id = refl; same_code = refl })
  | inr e ↦
      rw e (record { same_held = refl; same_waiting = refl; same_id = refl; same_code = refl })
]

wakeup_loop-IsExclusive :
    (n i channel : ℕ) (s : Machine) → IsExclusive s → IsExclusive (wakeup_loop n i channel s)
unfolding wakeup_loop
wakeup_loop-IsExclusive zero i channel s x = x
wakeup_loop-IsExclusive (suc n) i channel s x =
    wakeup_loop-IsExclusive n (suc i) channel (set_thread s i (wake_thread channel (s.threads i))) (
      set_thread-IsExclusive s i (wake_thread channel (s.threads i)) x
        (wake-IsAlike channel (s.threads i)))

wakeup-IsExclusive : (s : Machine) (channel : ℕ) → IsExclusive s → IsExclusive (wakeup s channel)
unfolding wakeup
wakeup-IsExclusive s channel x = wakeup_loop-IsExclusive max_num_threads 0 channel s x

-- The machine that a call of the scheduler ends in.
after : Machine → Outcome Scan → Machine
after d (ok (switched s)) = s
after d (ok (passed s)) = s
after d _ = d

Settles-IsExclusive : (s : Machine) (r : Outcome Scan) → Settles s r → IsExclusive (after s r)
unfolding after
Settles-IsExclusive s r (on_switch s' x) = x
Settles-IsExclusive s r (on_return s' x e) = x

scheduled-IsExclusive :
    (s s' : Machine) (cpu : ℕ) (ctx : Context) (r : Outcome Scan)
    → IsExclusive s
    → ctx.i_rip ≢ 0
    → invoke_scheduler s cpu (some ctx) ≡ r
    → after s r ≡ s'
    → IsExclusive s'
unfolding after
scheduled-IsExclusive s s' cpu ctx r x code e same = elim (Bool-cases s.panicked) [
  | inl stop ↦
      subst IsExclusive
        (ap (after s) (sym (invoke-stops s cpu (some ctx) stop)) ∙ ap (after s) e ∙ same) x
  | inr calm ↦ subst IsExclusive (ap (after s) e ∙ same) (
      Settles-IsExclusive s (invoke_scheduler s cpu (some ctx))
        (invoke_scheduler-Settles s cpu ctx x calm code))
]

Settles-is_ok : (s : Machine) (r : Outcome Scan) → Settles s r → is_ok r ≡ true
unfolding is_ok
Settles-is_ok s r (on_switch s' x) = refl
Settles-is_ok s r (on_return s' x e) = refl

held-not_waiting : (t : ThreadState) → held t ≡ true → waiting t ≡ false
held-not_waiting running e = refl
held-not_waiting sleeping e = refl
held-not_waiting not_initialized e = refl
held-not_waiting killed e = refl
held-not_waiting ready e = absurd (false≢true e)
held-not_waiting wakeup_ready e = absurd (false≢true e)

-- The thread of a CPU after `thread_sleep`.
abbrev pub asleep : ℕ → Thread → Thread
asleep channel t = record t { sleep_channel = channel; status = sleeping; can_wakeup = false }

the_machine : Machine → Outcome Machine → Machine
the_machine d (ok s) = s
the_machine d _ = d

thread_sleep-null :
    (s : Machine) (cpu i channel : ℕ)
    → s.current cpu ≡ some i
    → (channel == 0) ≡ true
    → thread_sleep s cpu channel ≡ panic
unfolding thread_sleep
thread_sleep-null s cpu i channel at e = rw (at, thread_sleep) (rw e refl)

pub thread_sleep-runs :
    (s : Machine) (cpu i channel : ℕ)
    → s.current cpu ≡ some i
    → (channel == 0) ≡ false
    → thread_sleep s cpu channel ≡ ok (set_thread s i (asleep channel (s.threads i)))
unfolding thread_sleep put_channel put_asleep hold_wakeup
thread_sleep-runs s cpu i channel at e = rw (at, thread_sleep) (rw e refl)

put_channel-IsExclusive :
    (s : Machine) (i channel : ℕ)
    → IsExclusive s
    → IsExclusive (set_thread s i (put_channel channel (s.threads i)))
unfolding put_channel
put_channel-IsExclusive s i channel x =
    set_thread-IsExclusive s i (put_channel channel (s.threads i)) x
      (record { same_held = refl; same_waiting = refl; same_id = refl; same_code = refl })

hold_wakeup-IsExclusive :
    (s : Machine) (i : ℕ) → IsExclusive s → IsExclusive (set_thread s i (hold_wakeup (s.threads i)))
unfolding hold_wakeup
hold_wakeup-IsExclusive s i x =
    set_thread-IsExclusive s i (hold_wakeup (s.threads i)) x
      (record { same_held = refl; same_waiting = refl; same_id = refl; same_code = refl })

put_asleep-IsExclusive :
    (s : Machine) (cpu i : ℕ)
    → IsExclusive s
    → s.current cpu ≡ some i
    → i < max_num_threads
    → IsExclusive (set_thread s i (put_asleep (s.threads i)))
unfolding put_asleep
put_asleep-IsExclusive s cpu i x at small =
    let h = x.current_held cpu i at small in
    set_thread-IsExclusive s i (put_asleep (s.threads i)) x (record {
      same_held = sym h;
      same_waiting = sym (held-not_waiting (s.threads i).status h);
      same_id = refl;
      same_code = refl;
    })

fail-IsExclusive : (s : Machine) → IsExclusive s → IsExclusive (record s { panicked = true })
fail-IsExclusive s x = record {
  current_held = x.current_held;
  in_table = x.in_table;
  one_cpu = x.one_cpu;
  has_code = x.has_code;
  named = x.named;
  idle_id = x.idle_id;
  idle_code = x.idle_code;
}

exited-IsExclusive :
    (s : Machine) (cpu i : ℕ)
    → IsExclusive s
    → s.current cpu ≡ some i
    → i < max_num_threads
    → IsExclusive
        (record (set_thread s i (record (s.threads i) { status = killed; id = uint32_max })) {
          current = update s.current cpu none;
        })
unfolding set_thread
exited-IsExclusive s cpu i x at small =
    let t = record (s.threads i) { status = killed; id = uint32_max } in
    let idle = update_ne s.threads i t idle_thread (λ e. omega (arith, e)) in
    record {
      current_held = λ c j e below. elim (update-cases s.current cpu none c) [
        | inl (_, now) ↦ absurd (none_some (sym now ∙ e))
        | inr (ne, now) ↦ elim (update-cases s.threads i t j) [
          | inl (eq, _) ↦
              absurd (ne (x.one_cpu c cpu j (sym now ∙ e) (at ∙ ap some (sym eq)) below))
          | inr (_, kept) ↦ ap (λ y. held y.status) kept ∙ x.current_held c j (sym now ∙ e) below
        ]
      ];
      in_table = λ c j e. elim (update-cases s.current cpu none c) [
        | inl (_, now) ↦ absurd (none_some (sym now ∙ e))
        | inr (_, now) ↦ x.in_table c j (sym now ∙ e)
      ];
      one_cpu = λ c d j e e' below. elim (update-cases s.current cpu none c) [
        | inl (_, now) ↦ absurd (none_some (sym now ∙ e))
        | inr (_, now) ↦ elim (update-cases s.current cpu none d) [
          | inl (_, now') ↦ absurd (none_some (sym now' ∙ e'))
          | inr (_, now') ↦ x.one_cpu c d j (sym now ∙ e) (sym now' ∙ e') below
        ]
      ];
      has_code = λ j w. elim (update-cases s.threads i t j) [
        | inl (_, now) ↦ absurd (false≢true (ap (λ y. waiting y.status) (sym now) ∙ w))
        | inr (_, now) ↦ λ z.
            x.has_code j (ap (λ y. waiting y.status) (sym now) ∙ w)
              (ap (λ y. y.execution_context.i_rip) (sym now) ∙ z)
      ];
      named = λ j w. elim (update-cases s.threads i t j) [
        | inl (_, now) ↦ absurd (false≢true (ap (λ y. alive y.status) (sym now) ∙ w))
        | inr (_, now) ↦ ap (λ y. y.id) now ∙ x.named j (ap (λ y. alive y.status) (sym now) ∙ w)
      ];
      idle_id = ap (λ y. y.id) idle ∙ x.idle_id;
      idle_code = λ z. x.idle_code (ap (λ y. y.execution_context.i_rip) (sym idle) ∙ z);
    }

abbrev exited : Machine → ℕ → ℕ → Machine
exited s cpu i =
    record (set_thread s i (record (s.threads i) { status = killed; id = uint32_max })) {
      current = update s.current cpu none;
    }

exit_thread-runs :
    (s : Machine) (cpu i : ℕ) → s.current cpu ≡ some i → exit_thread s cpu ≡ ok (exited s cpu i)
unfolding exit_thread
exit_thread-runs s cpu i at = rw (at, exit_thread) refl

Created-IsExclusive :
    (s : Machine) (entry stack : ℕ) (r : Outcome Machine)
    → IsExclusive s
    → Created s entry stack r
    → IsExclusive (the_machine s r)
unfolding the_machine
Created-IsExclusive s entry stack r x (table_full full) = x
Created-IsExclusive s entry stack r x (no_stack z) = x
Created-IsExclusive s entry stack r x (created s' i some_stack small free x' sched rip same) = x'

Step-IsExclusive : (s s' : Machine) → Step s s' → IsExclusive s → IsExclusive s'
unfolding the_machine after
Step-IsExclusive s s' (reschedule cpu ctx code e) x =
    scheduled-IsExclusive s s' cpu ctx (ok (switched s')) x code e refl
Step-IsExclusive s s' (keep_running cpu ctx code e) x =
    scheduled-IsExclusive s s' cpu ctx (ok (passed s')) x code e refl
Step-IsExclusive s s' (sleep_on cpu i channel at small) x = put_channel-IsExclusive s i channel x
Step-IsExclusive s s' (fall_asleep cpu i at small) x = put_asleep-IsExclusive s cpu i x at small
Step-IsExclusive s s' (hold_off cpu i at small) x = hold_wakeup-IsExclusive s i x
Step-IsExclusive s s' (fail) x = fail-IsExclusive s x
Step-IsExclusive s s' (wake channel e) x = subst IsExclusive e (wakeup-IsExclusive s channel x)
Step-IsExclusive s s' (spawn g entry stack code e) x = subst IsExclusive (ap (the_machine s) e) (
    Created-IsExclusive s entry stack (create_kernel_thread s g entry stack) x
      (create_kernel_thread_lem s g entry stack x code))
Step-IsExclusive s s' (exit cpu i at small e) x =
    subst IsExclusive (ap (the_machine s) (sym (exit_thread-runs s cpu i at) ∙ e))
      (exited-IsExclusive s cpu i x at small)

-- The machine before any thread is created: the table is zeroed memory and no CPU has a thread.
pub record IsBlank (s : Machine) : Type 0 where
  pub no_thread : (i : ℕ) → (s.threads i).status ≡ not_initialized
  pub no_current : (cpu : ℕ) → s.current cpu ≡ none

-- The states that the steps lead to once a blank machine has its idle thread.
pub data Run : Machine → Type 0 where
  boot :
      {s s' : Machine} (pml4t_kernel entry stack : ℕ)
      → IsBlank s
      → entry ≢ 0
      → create_idle_thread s pml4t_kernel entry stack ≡ ok s'
      → Run s'
  next : {s s' : Machine} → Run s → Step s s' → Run s'

create_idle-cases :
    (s : Machine) (g entry stack : ℕ)
    → (create_idle_thread s g entry stack ≡ panic)
      ⊎ (create_idle_thread s g entry stack
          ≡ ok (
              set_thread s idle_thread
                (kernel_thread_at (s.threads idle_thread) idle_thread g entry stack 0x1000)))
unfolding create_idle_thread
create_idle-cases s g entry stack = elim (Bool-cases (stack == 0)) [
  | inl e ↦ inl (rw e refl)
  | inr e ↦ inr (rw e refl)
]

idle-IsExclusive :
    (s : Machine) (g entry stack : ℕ)
    → IsBlank s
    → entry ≢ 0
    → IsExclusive (
        set_thread s idle_thread
          (kernel_thread_at (s.threads idle_thread) idle_thread g entry stack 0x1000))
unfolding set_thread kernel_thread_at
idle-IsExclusive s g entry stack b code =
    let t = kernel_thread_at (s.threads idle_thread) idle_thread g entry stack 0x1000 in
    let here = update_self s.threads idle_thread t in
    record {
      current_held = λ c j e small. absurd (none_some (sym (b.no_current c) ∙ e));
      in_table = λ c j e. absurd (none_some (sym (b.no_current c) ∙ e));
      one_cpu = λ c d j e e' small. absurd (none_some (sym (b.no_current c) ∙ e));
      has_code = λ j w. elim (update-cases s.threads idle_thread t j) [
        | inl (_, now) ↦ λ z. code (ap (λ y. y.execution_context.i_rip) (sym now) ∙ z)
        | inr (_, now) ↦ absurd (
            false≢true
              (ap waiting (sym (b.no_thread j)) ∙ ap (λ y. waiting y.status) (sym now) ∙ w))
      ];
      named = λ j w. elim (update-cases s.threads idle_thread t j) [
        | inl (same, now) ↦ ap (λ y. y.id) now ∙ sym same
        | inr (_, now) ↦
            absurd
              (false≢true (ap alive (sym (b.no_thread j)) ∙ ap (λ y. alive y.status) (sym now) ∙ w))
      ];
      idle_id = ap (λ y. y.id) here;
      idle_code = λ z. code (ap (λ y. y.execution_context.i_rip) (sym here) ∙ z);
    }

boot-IsExclusive :
    (s s' : Machine) (g entry stack : ℕ)
    → IsBlank s
    → entry ≢ 0
    → create_idle_thread s g entry stack ≡ ok s'
    → IsExclusive s'
unfolding the_machine
boot-IsExclusive s s' g entry stack b code e = elim (create_idle-cases s g entry stack) [
  | inl stop ↦ absurd (panic_ok (sym stop ∙ e))
  | inr runs ↦
      subst IsExclusive (ap (the_machine s) (sym runs ∙ e))
        (idle-IsExclusive s g entry stack b code)
]

pub Run-IsExclusive : (s : Machine) → Run s → IsExclusive s
Run-IsExclusive s (boot {s = s0} g entry stack b code e) =
    boot-IsExclusive s0 s g entry stack b code e
Run-IsExclusive s (next {s = s0} r st) = Step-IsExclusive s0 s st (Run-IsExclusive s0 r)

-- From a blank machine with an idle thread on, however calls of InvokeScheduler on contexts with code to
-- run, the single writes of ThreadSleep, wake-ups, exits, panics and new kernel threads on any CPUs
-- follow each other: a thread that is current on a CPU, and is not the idle thread, is not current on
-- any other CPU.
pub one_cpu_per_thread :
    (s : Machine) (c d i : ℕ)
    → Run s
    → c ≢ d
    → i ≢ idle_thread
    → s.current c ≡ some i
    → s.current d ≢ some i
one_cpu_per_thread s c d i r apart ne e e' =
    let x = Run-IsExclusive s r in
    apart (x.one_cpu c d i e e' (omega (arith, ne, x.in_table c i e)))

-- On a machine that was reached in the same way and on which no CPU has panicked, InvokeScheduler on a
-- context with code to run does not panic: it finds every thread that it leaves in a state that it saves.
pub scheduler_never_panics :
    (s : Machine) (cpu : ℕ) (ctx : Context)
    → Run s
    → s.panicked ≡ false
    → ctx.i_rip ≢ 0
    → invoke_scheduler s cpu (some ctx) ≢ panic
unfolding is_ok
scheduler_never_panics s cpu ctx r calm code e =
    let x = Run-IsExclusive s r in
    false≢true (
      ap is_ok (sym e)
      ∙ Settles-is_ok s (invoke_scheduler s cpu (some ctx))
          (invoke_scheduler-Settles s cpu ctx x calm code))
