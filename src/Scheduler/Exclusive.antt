-- ===== src/Scheduler/Exclusive.antt =====
-- No thread runs on two CPUs: an invariant of the scheduler of src/kernel/kernel/scheduler.c.
use swag_os.Base.{
  ℕ, ◌<◌, ◌≤◌, ◌≡◌, ◌≢◌, refl, sym, ap, ap₂, ◌∙◌, ◌⊎◌, inl, inr, Bool, true, false, ◌||◌, some,
  ◌==◌, Bool-cases, ==_ne, ==_self, arith,
}
use mathlib.Core.Bool.{false≢true}
use mathlib.Core.Option.{some-injective}
use swag_os.Scheduler.{
  ThreadState, not_initialized, ready, running, killed, sleeping, wakeup_ready, Thread, Machine,
  max_num_threads, idle_thread, update, set_thread, is_ready, woken_status, woken,
}

-- A CPU may go on with a thread in this state.
abbrev pub held : ThreadState → Bool
held running = true
held sleeping = true
held _ = false

-- A thread in this state may be started, now or later.
abbrev pub waiting : ThreadState → Bool
waiting ready = true
waiting wakeup_ready = true
waiting _ = false

abbrev pub alive : ThreadState → Bool
alive t = waiting t || held t

-- The threads that CPUs run are held, each by one CPU, save the idle thread; every thread that waits
-- and the idle thread have code to run; and a thread that waits or is held has its own index.
pub record IsExclusive (s : Machine) : Type 0 where
  pub current_held :
      (c i : ℕ) → s.current c ≡ some i → i < max_num_threads → held (s.threads i).status ≡ true
  pub in_table : (c i : ℕ) → s.current c ≡ some i → i ≤ idle_thread
  pub one_cpu :
      (c d i : ℕ) → s.current c ≡ some i → s.current d ≡ some i → i < max_num_threads → c ≡ d
  pub has_code :
      (i : ℕ) → waiting (s.threads i).status ≡ true → (s.threads i).execution_context.i_rip ≢ 0
  pub named : (i : ℕ) → alive (s.threads i).status ≡ true → (s.threads i).id ≡ i
  pub idle_id : (s.threads idle_thread).id ≡ idle_thread
  pub idle_code : (s.threads idle_thread).execution_context.i_rip ≢ 0

ready-not_held : (t : ThreadState) → is_ready t ≡ true → held t ≡ false
unfolding is_ready
ready-not_held ready e = refl
ready-not_held not_initialized e = refl
ready-not_held running e = absurd (false≢true e)
ready-not_held killed e = refl
ready-not_held sleeping e = absurd (false≢true e)
ready-not_held wakeup_ready e = refl

held-woken : (t : ThreadState) (b : Bool) → held (woken_status t b) ≡ held t
unfolding woken_status
held-woken not_initialized b = refl
held-woken ready b = refl
held-woken running b = refl
held-woken killed b = refl
held-woken sleeping b = refl
held-woken wakeup_ready true = refl
held-woken wakeup_ready false = refl

waiting-woken : (t : ThreadState) (b : Bool) → waiting (woken_status t b) ≡ waiting t
unfolding woken_status
waiting-woken not_initialized b = refl
waiting-woken ready b = refl
waiting-woken running b = refl
waiting-woken killed b = refl
waiting-woken sleeping b = refl
waiting-woken wakeup_ready true = refl
waiting-woken wakeup_ready false = refl

pub ready-waiting : (t : ThreadState) → is_ready t ≡ true → waiting t ≡ true
unfolding is_ready
ready-waiting ready e = refl
ready-waiting not_initialized e = e
ready-waiting running e = e
ready-waiting killed e = e
ready-waiting sleeping e = e
ready-waiting wakeup_ready e = refl

pub update-cases {ℓ} :
    {A : Type ℓ} (f : ℕ → A) (i : ℕ) (v : A) (j : ℕ)
    → ((j ≡ i) × (update f i v j ≡ v)) ⊎ ((j ≢ i) × (update f i v j ≡ f j))
update-cases f i v j = elim (Bool-cases (j == i)) [
  | inl e ↦ inl (ground (arith, e), rw e refl)
  | inr e ↦ inr (ground (arith, e), rw e refl)
]

pub update_self {ℓ} : {A : Type ℓ} (f : ℕ → A) (i : ℕ) (v : A) → update f i v i ≡ v
update_self f i v = rw (==_self i) refl

pub update_ne {ℓ} : {A : Type ℓ} (f : ℕ → A) (i : ℕ) (v : A) (j : ℕ) → j ≢ i → update f i v j ≡ f j
update_ne f i v j ne = rw (==_ne j i ne) refl

-- Two threads of one index, alike in all that the invariant reads.
pub record IsAlike (t t' : Thread) : Type 0 where
  pub same_held : held t'.status ≡ held t.status
  pub same_waiting : waiting t'.status ≡ waiting t.status
  pub same_id : t'.id ≡ t.id
  pub same_code : t'.execution_context.i_rip ≡ t.execution_context.i_rip

IsAlike-refl : (t : Thread) → IsAlike t t
IsAlike-refl t = record { same_held = refl; same_waiting = refl; same_id = refl; same_code = refl }

update-IsAlike :
    (s : Machine) (i : ℕ) (t : Thread)
    → IsAlike (s.threads i) t
    → (j : ℕ) → IsAlike (s.threads j) (update s.threads i t j)
update-IsAlike s i t a j = elim (Bool-cases (j == i)) [
  | inl e ↦ let same : j ≡ i = ground (arith, e) in rw (e, same) a
  | inr e ↦ rw e (IsAlike-refl (s.threads j))
]

-- A step that changes one thread, and nothing that the invariant reads.
pub set_thread-IsExclusive :
    (s : Machine) (i : ℕ) (t : Thread)
    → IsExclusive s
    → IsAlike (s.threads i) t
    → IsExclusive (set_thread s i t)
unfolding set_thread
set_thread-IsExclusive s i t x a =
    let alike = update-IsAlike s i t a in
    record {
      current_held = λ c j at small. (alike j).same_held ∙ x.current_held c j at small;
      in_table = x.in_table;
      one_cpu = x.one_cpu;
      has_code =
          λ j w z. x.has_code j (sym (alike j).same_waiting ∙ w) (sym (alike j).same_code ∙ z);
      named = λ j w.
          (alike j).same_id
          ∙ x.named j (sym (ap₂ (λ b c. b || c) (alike j).same_waiting (alike j).same_held) ∙ w);
      idle_id = (alike idle_thread).same_id ∙ x.idle_id;
      idle_code = λ z. x.idle_code (sym (alike idle_thread).same_code ∙ z);
    }

pub woken-IsExclusive :
    (s : Machine) (i : ℕ) → IsExclusive s → IsExclusive (set_thread s i (woken (s.threads i)))
unfolding woken
woken-IsExclusive s i x =
    let t = s.threads i in
    set_thread-IsExclusive s i (woken t) x (record {
      same_held = held-woken t.status t.can_wakeup;
      same_waiting = waiting-woken t.status t.can_wakeup;
      same_id = refl;
      same_code = refl;
    })

pub held-alive : (t : ThreadState) → held t ≡ true → alive t ≡ true
held-alive running e = refl
held-alive sleeping e = refl
held-alive ready e = refl
held-alive wakeup_ready e = refl
held-alive not_initialized e = e
held-alive killed e = e

pub waiting-alive : (t : ThreadState) → waiting t ≡ true → alive t ≡ true
waiting-alive ready e = refl
waiting-alive wakeup_ready e = refl
waiting-alive running e = refl
waiting-alive sleeping e = refl
waiting-alive not_initialized e = e
waiting-alive killed e = e

-- A machine on which the thread of `cpu` may have been saved, and nothing else.
pub record IsLeaving (s : Machine) (cpu : ℕ) : Type 0 where
  pub others_held :
      (c i : ℕ)
      → c ≢ cpu
      → s.current c ≡ some i
      → i < max_num_threads
      → held (s.threads i).status ≡ true
  pub in_table : (c i : ℕ) → s.current c ≡ some i → i ≤ idle_thread
  pub one_cpu :
      (c d i : ℕ) → s.current c ≡ some i → s.current d ≡ some i → i < max_num_threads → c ≡ d
  pub has_code :
      (i : ℕ) → waiting (s.threads i).status ≡ true → (s.threads i).execution_context.i_rip ≢ 0
  pub named : (i : ℕ) → alive (s.threads i).status ≡ true → (s.threads i).id ≡ i
  pub idle_id : (s.threads idle_thread).id ≡ idle_thread
  pub idle_code : (s.threads idle_thread).execution_context.i_rip ≢ 0

pub IsExclusive-IsLeaving : (s : Machine) (cpu : ℕ) → IsExclusive s → IsLeaving s cpu
IsExclusive-IsLeaving s cpu x = record {
  others_held = λ c i ne. x.current_held c i;
  in_table = x.in_table;
  one_cpu = x.one_cpu;
  has_code = x.has_code;
  named = x.named;
  idle_id = x.idle_id;
  idle_code = x.idle_code;
}

pub saved-IsLeaving :
    (s : Machine) (cpu old : ℕ) (t : Thread)
    → IsExclusive s
    → s.current cpu ≡ some old
    → old < max_num_threads
    → t.execution_context.i_rip ≢ 0
    → t.id ≡ (s.threads old).id
    → IsLeaving (set_thread s old t) cpu
unfolding set_thread
saved-IsLeaving s cpu old t x at below code same = record {
  others_held = λ c i ne e small. elim (update-cases s.threads old t i) [
    | inl (eq, _) ↦ absurd (ne (x.one_cpu c cpu old (e ∙ ap some eq) at below))
    | inr (_, now) ↦ ap (λ y. held y.status) now ∙ x.current_held c i e small
  ];
  in_table = x.in_table;
  one_cpu = x.one_cpu;
  has_code = λ i w. elim (update-cases s.threads old t i) [
    | inl (_, now) ↦ λ z. code (ap (λ y. y.execution_context.i_rip) (sym now) ∙ z)
    | inr (_, now) ↦ λ z.
        x.has_code i (ap (λ y. waiting y.status) (sym now) ∙ w)
          (ap (λ y. y.execution_context.i_rip) (sym now) ∙ z)
  ];
  named = λ i w. elim (update-cases s.threads old t i) [
    | inl (eq, now) ↦
        ap (λ y. y.id) now
        ∙ same
        ∙ x.named old (held-alive (s.threads old).status (x.current_held cpu old at below))
        ∙ sym eq
    | inr (_, now) ↦ ap (λ y. y.id) now ∙ x.named i (ap (λ y. alive y.status) (sym now) ∙ w)
  ];
  idle_id =
      ap (λ y. y.id) (update_ne s.threads old t idle_thread (λ e. omega (arith, e))) ∙ x.idle_id;
  idle_code = λ z. x.idle_code (
      ap (λ y. y.execution_context.i_rip)
        (sym (update_ne s.threads old t idle_thread (λ e. omega (arith, e))))
      ∙ z);
}

abbrev pub handed : Machine → ℕ → ℕ → Machine
handed s cpu i = record (set_thread s i (record (s.threads i) { status = running })) {
  current = update s.current cpu (some i);
}

-- Handing a thread that no CPU runs to a CPU that leaves its own.
pub handed-IsExclusive :
    (s : Machine) (cpu i : ℕ)
    → IsLeaving s cpu
    → i < max_num_threads
    → (s.threads i).id ≡ i
    → ((c : ℕ) → s.current c ≢ some i)
    → IsExclusive (handed s cpu i)
unfolding set_thread
handed-IsExclusive s cpu i x below own free =
    let t = record (s.threads i) { status = running } in
    record {
      current_held = λ c j e small. elim (update-cases s.current cpu (some i) c) [
        | inl (_, now) ↦
            let same : j ≡ i = some-injective j i (sym e ∙ now) in
            ap (λ y. held (update s.threads i t y).status) same
            ∙ ap (λ y. held y.status) (update_self s.threads i t)
        | inr (ne, now) ↦ elim (update-cases s.threads i t j) [
          | inl (_, at) ↦ ap (λ y. held y.status) at
          | inr (_, at) ↦ ap (λ y. held y.status) at ∙ x.others_held c j ne (sym now ∙ e) small
        ]
      ];
      in_table = λ c j e. elim (update-cases s.current cpu (some i) c) [
        | inl (_, now) ↦ omega (arith, some-injective j i (sym e ∙ now))
        | inr (_, now) ↦ x.in_table c j (sym now ∙ e)
      ];
      one_cpu = λ c d j e e' small. elim (update-cases s.current cpu (some i) c) [
        | inl (at_c, now) ↦ elim (update-cases s.current cpu (some i) d) [
          | inl (at_d, _) ↦ at_c ∙ sym at_d
          | inr (_, now') ↦ absurd (free d (sym now' ∙ e' ∙ sym e ∙ now))
        ]
        | inr (_, now) ↦ elim (update-cases s.current cpu (some i) d) [
          | inl (_, now') ↦ absurd (free c (sym now ∙ e ∙ sym e' ∙ now'))
          | inr (_, now') ↦ x.one_cpu c d j (sym now ∙ e) (sym now' ∙ e') small
        ]
      ];
      has_code = λ j w. elim (update-cases s.threads i t j) [
        | inl (_, at) ↦ absurd (false≢true (ap (λ y. waiting y.status) (sym at) ∙ w))
        | inr (_, at) ↦ λ z.
            x.has_code j (ap (λ y. waiting y.status) (sym at) ∙ w)
              (ap (λ y. y.execution_context.i_rip) (sym at) ∙ z)
      ];
      named = λ j w. elim (update-cases s.threads i t j) [
        | inl (eq, at) ↦ ap (λ y. y.id) at ∙ own ∙ sym eq
        | inr (_, at) ↦ ap (λ y. y.id) at ∙ x.named j (ap (λ y. alive y.status) (sym at) ∙ w)
      ];
      idle_id =
          ap (λ y. y.id) (update_ne s.threads i t idle_thread (λ e. omega (arith, e))) ∙ x.idle_id;
      idle_code = λ z. x.idle_code (
          ap (λ y. y.execution_context.i_rip)
            (sym (update_ne s.threads i t idle_thread (λ e. omega (arith, e))))
          ∙ z);
    }

-- No CPU runs a thread that is ready.
pub ready-free :
    (s : Machine) (i : ℕ)
    → IsExclusive s
    → i < max_num_threads
    → is_ready (s.threads i).status ≡ true
    → (c : ℕ) → s.current c ≢ some i
ready-free s i x small r c e =
    false≢true (sym (ready-not_held (s.threads i).status r) ∙ x.current_held c i e small)

-- Handing the idle thread, which any number of CPUs may run, to a CPU.
pub idle-IsExclusive :
    (s : Machine) (cpu : ℕ)
    → IsExclusive s
    → IsExclusive
        (record (set_thread s idle_thread (record (s.threads idle_thread) { status = ready })) {
          current = update s.current cpu (some idle_thread);
        })
unfolding set_thread
idle-IsExclusive s cpu x =
    let t = record (s.threads idle_thread) { status = ready } in
    let other = λ (j : ℕ) (lt : j < max_num_threads).
      update_ne s.threads idle_thread t j (λ e. omega (arith, e)) in
    record {
      current_held = λ c j e small. elim (update-cases s.current cpu (some idle_thread) c) [
        | inl (_, now) ↦ absurd (omega (arith, some-injective j idle_thread (sym e ∙ now)))
        | inr (_, now) ↦
            ap (λ y. held y.status) (other j small) ∙ x.current_held c j (sym now ∙ e) small
      ];
      in_table = λ c j e. elim (update-cases s.current cpu (some idle_thread) c) [
        | inl (_, now) ↦ omega (arith, some-injective j idle_thread (sym e ∙ now))
        | inr (_, now) ↦ x.in_table c j (sym now ∙ e)
      ];
      one_cpu = λ c d j e e' small. elim (update-cases s.current cpu (some idle_thread) c) [
        | inl (_, now) ↦ absurd (omega (arith, some-injective j idle_thread (sym e ∙ now)))
        | inr (_, now) ↦ elim (update-cases s.current cpu (some idle_thread) d) [
          | inl (_, now') ↦ absurd (omega (arith, some-injective j idle_thread (sym e' ∙ now')))
          | inr (_, now') ↦ x.one_cpu c d j (sym now ∙ e) (sym now' ∙ e') small
        ]
      ];
      has_code = λ j w. elim (update-cases s.threads idle_thread t j) [
        | inl (_, at) ↦ λ z. x.idle_code (ap (λ y. y.execution_context.i_rip) (sym at) ∙ z)
        | inr (_, at) ↦ λ z.
            x.has_code j (ap (λ y. waiting y.status) (sym at) ∙ w)
              (ap (λ y. y.execution_context.i_rip) (sym at) ∙ z)
      ];
      named = λ j w. elim (update-cases s.threads idle_thread t j) [
        | inl (eq, at) ↦ ap (λ y. y.id) at ∙ x.idle_id ∙ sym eq
        | inr (_, at) ↦ ap (λ y. y.id) at ∙ x.named j (ap (λ y. alive y.status) (sym at) ∙ w)
      ];
      idle_id = ap (λ y. y.id) (update_self s.threads idle_thread t) ∙ x.idle_id;
      idle_code = λ z.
          x.idle_code
            (ap (λ y. y.execution_context.i_rip) (sym (update_self s.threads idle_thread t)) ∙ z);
    }
