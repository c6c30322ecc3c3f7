-- ===== src/Scheduler/Create.antt =====
-- CreateKernelThread and CreateIdleThread of src/kernel/kernel/proc.c.
use swag_os.Base.{
  ℕ, zero, suc, ◌+◌, ◌^◌, ◌%◌, ◌<◌, ◌≤◌, ◌≡◌, ◌≢◌, refl, sym, ap, ◌∙◌, ◌⊎◌, inl, inr, true, false,
  none, some, ◌==◌, if◌then◌else◌, Bool-cases, arith,
}
use mathlib.Core.Bool.{false≢true}
use swag_os.Base.Outcome.{Outcome, ok, panic}
use swag_os.Paging.{kernel_phys}
use swag_os.Scheduler.{
  ThreadState, not_initialized, ready, running, killed, sleeping, wakeup_ready, Thread, Machine,
  kernel_thread, max_num_threads, idle_thread, set_thread, is_ready, woken_status, woken,
}
use swag_os.Scheduler.Exclusive.{
  held, waiting, alive, IsExclusive, update-cases, update_self, update_ne,
}
use swag_os.Scheduler.Sleep.{is_free, find_free_from, find_free_thread}
use swag_os.Scheduler.RoundRobin.{schedulable, schedulable-status}

-- The stack pointer starts at the top of the allocation; what else the entry holds stays.
unfoldable pub kernel_thread_at : Thread → ℕ → ℕ → ℕ → ℕ → ℕ → Thread
unfolding kernel_phys
kernel_thread_at t i pml4t_kernel entry stack size = record t {
  can_wakeup = true;
  status = ready;
  run_mode = kernel_thread;
  id = i;
  pml4t_phys = kernel_phys pml4t_kernel;
  execution_context = record (t.execution_context) {
    i_rip = entry;
    i_rsp = (stack + size) % 2 ^ 64;
    i_rflags = 0x202;
    i_cs = 0x8;
    i_ss = 0x10;
    rdi = 0;
    rsi = 0;
    rbp = 0;
  };
}

-- `stack` is what `kalloc` returns, 0 for NULL.
unfoldable pub create_kernel_thread : Machine → ℕ → ℕ → ℕ → Outcome Machine
unfolding set_thread kernel_thread_at find_free_thread
create_kernel_thread s pml4t_kernel entry stack = elim (find_free_thread s) [
  | none ↦ panic
  | some i ↦
      if stack == 0
      then panic
      else ok (set_thread s i (kernel_thread_at (s.threads i) i pml4t_kernel entry stack 0x10000))
]

unfoldable pub create_idle_thread : Machine → ℕ → ℕ → ℕ → Outcome Machine
unfolding set_thread kernel_thread_at
create_idle_thread s pml4t_kernel entry stack =
    if stack == 0
    then panic
    else ok (
        set_thread s idle_thread
          (kernel_thread_at (s.threads idle_thread) idle_thread pml4t_kernel entry stack 0x1000))

free-not_held : (t : ThreadState) → is_free t ≡ true → held t ≡ false
unfolding is_free
free-not_held not_initialized e = refl
free-not_held killed e = refl
free-not_held ready e = refl
free-not_held wakeup_ready e = refl
free-not_held running e = absurd (false≢true e)
free-not_held sleeping e = absurd (false≢true e)

-- The first free thread, if there is one.
find_free-cases :
    (n i : ℕ) (s : Machine)
    → ((k : ℕ) × (find_free_from n i s ≡ some k)
        × (k < i + n)
        × (is_free (s.threads k).status ≡ true))
      ⊎ ((find_free_from n i s ≡ none)
          × ((j : ℕ) → i ≤ j → j < i + n → is_free (s.threads j).status ≡ false))
unfolding find_free_from
find_free-cases zero i s = inr (refl, λ j lo hi. absurd (omega arith))
find_free-cases (suc n) i s = elim (Bool-cases (is_free (s.threads i).status)) [
  | inl e ↦ inl (i, rw (e, find_free_from) refl, omega arith, e)
  | inr e ↦ elim (find_free-cases n (suc i) s) [
    | inl (k, found, below, free) ↦
        inl (k, rw (e, find_free_from) found, omega (arith, below), free)
    | inr (nothing, all) ↦ inr (
      rw (e, find_free_from) nothing,
      λ j lo hi. elim (Bool-cases (i == j)) [
        | inl same ↦ ap (λ x. is_free (s.threads x).status) (ground (arith, same)) ∙ e
        | inr ne ↦ all j (ground (arith, ne)) (omega arith)
      ],
    )
  ]
]

-- A free entry of the table takes a new thread.
new-IsExclusive :
    (s : Machine) (i : ℕ) (t : Thread)
    → IsExclusive s
    → i < max_num_threads
    → is_free (s.threads i).status ≡ true
    → t.id ≡ i
    → t.execution_context.i_rip ≢ 0
    → IsExclusive (set_thread s i t)
unfolding set_thread
new-IsExclusive s i t x small free own code =
    let idle = update_ne s.threads i t idle_thread (λ e. omega (arith, e)) in
    record {
      current_held = λ c j e below. elim (update-cases s.threads i t j) [
        | inl (same, _) ↦ absurd (
            false≢true (
              sym (free-not_held (s.threads i).status free)
              ∙ x.current_held c i (e ∙ ap some same) small))
        | inr (_, kept) ↦ ap (λ y. held y.status) kept ∙ x.current_held c j e below
      ];
      in_table = x.in_table;
      one_cpu = x.one_cpu;
      has_code = λ j w. elim (update-cases s.threads i t j) [
        | inl (_, now) ↦ λ z. code (ap (λ y. y.execution_context.i_rip) (sym now) ∙ z)
        | inr (_, now) ↦ λ z.
            x.has_code j (ap (λ y. waiting y.status) (sym now) ∙ w)
              (ap (λ y. y.execution_context.i_rip) (sym now) ∙ z)
      ];
      named = λ j w. elim (update-cases s.threads i t j) [
        | inl (same, now) ↦ ap (λ y. y.id) now ∙ own ∙ sym same
        | inr (_, now) ↦ ap (λ y. y.id) now ∙ x.named j (ap (λ y. alive y.status) (sym now) ∙ w)
      ];
      idle_id = ap (λ y. y.id) idle ∙ x.idle_id;
      idle_code = λ z. x.idle_code (ap (λ y. y.execution_context.i_rip) (sym idle) ∙ z);
    }

-- The ways in which CreateKernelThread ends.
pub data Created (s : Machine) (entry stack : ℕ) : Outcome Machine → Type 0 where
  table_full :
      ((j : ℕ) → 0 ≤ j → j < 0 + max_num_threads → is_free (s.threads j).status ≡ false)
      → Created s entry stack panic
  no_stack : stack ≡ 0 → Created s entry stack panic
  created :
      (s' : Machine) (i : ℕ)
      → stack ≢ 0
      → i < max_num_threads
      → is_free (s.threads i).status ≡ true
      → IsExclusive s'
      → schedulable s' i ≡ true
      → (s'.threads i).execution_context.i_rip ≡ entry
      → s'.current ≡ s.current
      → Created s entry stack (ok s')

create-full :
    (s : Machine) (g entry stack : ℕ)
    → find_free_thread s ≡ none
    → create_kernel_thread s g entry stack ≡ panic
unfolding create_kernel_thread
create-full s g entry stack e = rw (e, create_kernel_thread) refl

create-no_stack :
    (s : Machine) (g entry stack k : ℕ)
    → find_free_thread s ≡ some k
    → (stack == 0) ≡ true
    → create_kernel_thread s g entry stack ≡ panic
unfolding create_kernel_thread
create-no_stack s g entry stack k e z = rw (e, create_kernel_thread) (rw z refl)

create-runs :
    (s : Machine) (g entry stack k : ℕ)
    → find_free_thread s ≡ some k
    → (stack == 0) ≡ false
    → create_kernel_thread s g entry stack
      ≡ ok (set_thread s k (kernel_thread_at (s.threads k) k g entry stack 0x10000))
unfolding create_kernel_thread
create-runs s g entry stack k e z = rw (e, create_kernel_thread) (rw z refl)

-- On a machine where each thread has one CPU, CreateKernelThread of a function that is not at address
-- 0 panics exactly where the table has no free thread or kalloc gives no stack; otherwise it makes one
-- free thread schedulable at the function, changes no CPU's thread, and keeps each thread on one CPU.
pub create_kernel_thread_lem :
    (s : Machine) (pml4t_kernel entry stack : ℕ)
    → IsExclusive s
    → entry ≢ 0
    → Created s entry stack (create_kernel_thread s pml4t_kernel entry stack)
unfolding find_free_thread kernel_thread_at set_thread is_ready woken woken_status
create_kernel_thread_lem s g entry stack x code = elim (find_free-cases max_num_threads 0 s) [
  | inr (nothing, full) ↦ rw (create-full s g entry stack nothing) (table_full full)
  | inl (k, found, below, free) ↦ elim (Bool-cases (stack == 0)) [
    | inl z ↦ rw (create-no_stack s g entry stack k found z) (no_stack (ground (arith, z)))
    | inr z ↦
        let t = kernel_thread_at (s.threads k) k g entry stack 0x10000 in
        let here = update_self s.threads k t in
        rw (create-runs s g entry stack k found z) (
          created (set_thread s k t) k (λ e. ground (arith, z, e)) (omega (arith, below)) free
            (new-IsExclusive s k t x (omega (arith, below)) free refl code)
            (schedulable-status (set_thread s k t) k ∙ ap (λ y. is_ready (woken y).status) here)
            (ap (λ y. y.execution_context.i_rip) here) refl)
  ]
]
