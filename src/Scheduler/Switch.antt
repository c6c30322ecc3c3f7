-- ===== src/Scheduler/Switch.antt =====
-- InvokeScheduler of src/kernel/kernel/scheduler.c keeps every thread on one CPU.
use swag_os.Base.{
  ℕ, zero, suc, ◌-◌, ◌<◌, ◌≤◌, ◌≡◌, ◌≢◌, refl, sym, ap, ◌∙◌, inl, inr, true, false, Option, none,
  some, ◌==◌, ltb, ltb→lt, Bool-cases, ==_ne, arith,
}
use mathlib.Core.Bool.{false≢true}
use swag_os.Base.Outcome.{Outcome, ok, panic, ◌>>=◌}
use swag_os.Scheduler.{
  ThreadState, not_initialized, ready, running, killed, sleeping, wakeup_ready, Thread, Context,
  Machine, uint32_max, max_num_threads, idle_thread, update, set_thread, is_ready, woken,
  save_status, save_thread_context, Scan, switched, passed, schedule, continue, scan,
  schedule_idle_thread, handle_no_schedule, schedule_idle, start_id, invoke_scheduler_old,
  invoke_scheduler, is_killed,
}
use swag_os.Scheduler.Exclusive.{
  held, IsExclusive, IsLeaving, IsExclusive-IsLeaving, saved-IsLeaving, handed, handed-IsExclusive,
  idle-IsExclusive, ready-free, woken-IsExclusive, ready-waiting, waiting-alive, held-alive,
  update_self, update_ne,
}

-- A loop of the scheduler that does not panic and ends in a good state: with a switch, or with every
-- CPU at the thread it had.
pub data Settles (s : Machine) : Outcome Scan → Type 0 where
  on_switch : (s' : Machine) → IsExclusive s' → Settles s (ok (switched s'))
  on_return : (s' : Machine) → IsExclusive s' → s'.current ≡ s.current → Settles s (ok (passed s'))

Settles-later :
    (s s1 : Machine) (r : Outcome Scan) → s1.current ≡ s.current → Settles s1 r → Settles s r
Settles-later s s1 r same (on_switch s' x) = on_switch s' x
Settles-later s s1 r same (on_return s' x e) = on_return s' x (e ∙ same)

schedule_runs :
    (s : Machine) (cpu i : ℕ)
    → (s.threads i).execution_context.i_rip ≢ 0
    → schedule s cpu i running ≡ switched (handed s cpu i)
unfolding schedule
schedule_runs s cpu i ne = rw (==_ne (s.threads i).execution_context.i_rip 0 ne) refl

save_status-held :
    (state : ThreadState) (t : Thread) (ctx : Context)
    → held state ≡ true
    → (t' : Thread) × (save_status state t ctx ≡ ok t')
      × (t'.execution_context ≡ ctx)
      × (t'.id ≡ t.id)
unfolding save_status
save_status-held running t ctx h =
    (record t { status = ready; execution_context = ctx }, refl, refl, refl)
save_status-held sleeping t ctx h =
    (record t { status = wakeup_ready; execution_context = ctx }, refl, refl, refl)
save_status-held not_initialized t ctx h = absurd (false≢true h)
save_status-held ready t ctx h = absurd (false≢true h)
save_status-held killed t ctx h = absurd (false≢true h)
save_status-held wakeup_ready t ctx h = absurd (false≢true h)

-- What a CPU leaves is saved without a panic, and what is left may still be handed to any thread.
save-Settles :
    (s : Machine) (cpu : ℕ) (old : Option ℕ) (ctx : Context)
    → IsExclusive s
    → s.current cpu ≡ old
    → ctx.i_rip ≢ 0
    → (s' : Machine) × (save_thread_context s old (some ctx) ≡ ok s')
      × IsLeaving s' cpu
      × (s'.current ≡ s.current)
      × ((i : ℕ)
          → is_ready (s.threads i).status ≡ true
          → i < max_num_threads
          → s'.threads i ≡ s.threads i)
unfolding save_thread_context set_thread
save-Settles s cpu none ctx x at code =
    (s, refl, IsExclusive-IsLeaving s cpu x, refl, λ i r small. refl)
save-Settles s cpu (some o) ctx x at code = elim (Bool-cases (o == idle_thread)) [
  | inl e ↦ (s, rw e refl, IsExclusive-IsLeaving s cpu x, refl, λ i r small. refl)
  | inr e ↦
      let below : o < max_num_threads = ground (arith, e, x.in_table cpu o at) in
      let (t, runs, same, id) =
        save_status-held (s.threads o).status (s.threads o) ctx (x.current_held cpu o at below) in
      (
        set_thread s o t,
        rw (e, runs) refl,
        saved-IsLeaving s cpu o t x at below (λ z. code (ap (λ c. c.i_rip) (sym same) ∙ z)) id,
        refl,
        λ i r small.
            update_ne s.threads o t i (λ e'. ready-free s i x small r cpu (at ∙ ap some (sym e'))),
      )
]

-- The machine after the loop has looked at thread `i`.
abbrev pub seen : Machine → ℕ → Machine
seen s i = set_thread s i (woken (s.threads i))

pub scan-skip :
    (n i cpu : ℕ) (old : Option ℕ) (ctx : Option Context) (s : Machine)
    → is_ready (woken (s.threads i)).status ≡ false
    → scan (suc n) i cpu old ctx s ≡ scan n (suc i) cpu old ctx (seen s i)
unfolding scan
scan-skip n i cpu old ctx s e = rw (e, scan) refl

pub scan-take :
    (n i cpu : ℕ) (old : Option ℕ) (ctx : Option Context) (s s2 s3 : Machine)
    → is_ready (woken (s.threads i)).status ≡ true
    → save_thread_context (seen s i) old ctx ≡ ok s2
    → schedule s2 cpu i running ≡ switched s3
    → scan (suc n) i cpu old ctx s ≡ ok (switched s3)
unfolding scan continue
scan-take n i cpu old ctx s s2 s3 e saved runs =
    rw (e, scan) (rw (saved, scan) (rw (runs, scan) refl))

seen-thread : (s : Machine) (i : ℕ) → (seen s i).threads i ≡ woken (s.threads i)
unfolding set_thread
seen-thread s i = update_self s.threads i (woken (s.threads i))

pub seen-current : (s : Machine) (i : ℕ) → (seen s i).current ≡ s.current
unfolding set_thread
seen-current s i = refl

-- A ready thread is taken, since it has code to run.
pub take-Settles :
    (n i cpu : ℕ) (old : Option ℕ) (ctx : Context) (s : Machine)
    → IsExclusive s
    → s.current cpu ≡ old
    → ctx.i_rip ≢ 0
    → i < max_num_threads
    → is_ready (woken (s.threads i)).status ≡ true
    → (s' : Machine) × (scan (suc n) i cpu old (some ctx) s ≡ ok (switched s'))
      × IsExclusive s'
      × (s'.current cpu ≡ some i)
take-Settles n i cpu old ctx s x at code small e =
    let s1 = seen s i in
    let x1 = woken-IsExclusive s i x in
    let thread = seen-thread s i in
    let e1 = ap (λ t. is_ready t.status) thread ∙ e in
    let at1 = ap (λ f. f cpu) (seen-current s i) ∙ at in
    let (s2, saved, leaving, kept, others) = save-Settles s1 cpu old ctx x1 at1 code in
    let has_rip : (s2.threads i).execution_context.i_rip ≢ 0 = λ z.
      x1.has_code i (ready-waiting (s1.threads i).status e1)
        (ap (λ t. t.execution_context.i_rip) (sym (others i e1 small)) ∙ z) in
    (
      handed s2 cpu i,
      scan-take n i cpu old (some ctx) s s2 (handed s2 cpu i) e saved
          (schedule_runs s2 cpu i has_rip),
      handed-IsExclusive s2 cpu i leaving small
          (ap (λ t. t.id) (others i e1 small)
            ∙ x1.named i
                (waiting-alive (s1.threads i).status (ready-waiting (s1.threads i).status e1)))
          (λ c z. ready-free s1 i x1 small e1 c (sym (ap (λ f. f c) kept) ∙ z)),
      update_self s2.current cpu (some i),
    )

scan-Settles-zero :
    (i cpu : ℕ) (old : Option ℕ) (ctx : Context) (s : Machine)
    → IsExclusive s
    → Settles s (scan zero i cpu old (some ctx) s)
unfolding scan
scan-Settles-zero i cpu old ctx s x = on_return s x refl

scan-Settles :
    (n i cpu : ℕ) (old : Option ℕ) (ctx : Context) (s : Machine)
    → IsExclusive s
    → s.current cpu ≡ old
    → ctx.i_rip ≢ 0
    → n ≤ max_num_threads - i
    → Settles s (scan n i cpu old (some ctx) s)
scan-Settles zero i cpu old ctx s x at code le = scan-Settles-zero i cpu old ctx s x
scan-Settles (suc n) i cpu old ctx s x at code le =
    elim (Bool-cases (is_ready (woken (s.threads i)).status)) [
      | inl e ↦
          let (s', runs, x', _) = take-Settles n i cpu old ctx s x at code (omega arith) e in
          rw runs (on_switch s' x')
      | inr e ↦ rw (scan-skip n i cpu old (some ctx) s e) (
          Settles-later s (seen s i) (scan n (suc i) cpu old (some ctx) (seen s i))
            (seen-current s i)
            (scan-Settles n (suc i) cpu old ctx (seen s i) (woken-IsExclusive s i x)
              (ap (λ f. f cpu) (seen-current s i) ∙ at) code (omega arith)))
    ]

abbrev idle_on : Machine → ℕ → Machine
idle_on s cpu =
    record (set_thread s idle_thread (record (s.threads idle_thread) { status = ready })) {
      current = update s.current cpu (some idle_thread);
    }

idle_runs :
    (s : Machine) (cpu : ℕ)
    → (s.threads idle_thread).execution_context.i_rip ≢ 0
    → schedule s cpu idle_thread ready ≡ switched (idle_on s cpu)
unfolding schedule
idle_runs s cpu ne = rw (==_ne (s.threads idle_thread).execution_context.i_rip 0 ne) refl

held-not_killed : (t : ThreadState) → held t ≡ true → is_killed t ≡ false
unfolding is_killed
held-not_killed running e = refl
held-not_killed sleeping e = refl
held-not_killed not_initialized e = refl
held-not_killed ready e = refl
held-not_killed wakeup_ready e = refl
held-not_killed killed e = absurd (false≢true e)

-- A killed thread that a CPU runs can only be the idle thread.
killed_idle :
    (s : Machine) (cpu o : ℕ)
    → IsExclusive s
    → s.current cpu ≡ some o
    → is_killed (s.threads o).status ≡ true
    → o ≡ idle_thread
killed_idle s cpu o x at e = elim (Bool-cases (ltb o max_num_threads)) [
  | inl lt ↦ absurd (
      false≢true (
        sym (
          held-not_killed (s.threads o).status
            (x.current_held cpu o at (ltb→lt o max_num_threads lt)))
        ∙ e))
  | inr ge ↦ ground (arith, ge, x.in_table cpu o at)
]

idle_again :
    (s : Machine) (cpu : ℕ) (ctx : Context)
    → IsExclusive s
    → schedule_idle_thread cpu (some idle_thread) (some ctx) s ≡ ok (switched (idle_on s cpu))
unfolding schedule_idle_thread save_thread_context
idle_again s cpu ctx x = ap ok (idle_runs s cpu x.idle_code)

schedule_idle-killed :
    (s : Machine) (cpu o : ℕ) (ctx : Context)
    → IsExclusive s
    → s.current cpu ≡ some o
    → is_killed (s.threads o).status ≡ true
    → schedule_idle cpu (some o) (some ctx) s ≡ ok (switched (idle_on s cpu))
unfolding schedule_idle continue
schedule_idle-killed s cpu o ctx x at e =
    let same = killed_idle s cpu o x at e in
    rw e (
      ap
        (λ j.
          schedule_idle_thread cpu (some j) (some ctx) s >>= continue (handle_no_schedule (some j)))
        same
      ∙ ap (λ r. r >>= continue (handle_no_schedule (some idle_thread))) (idle_again s cpu ctx x))

-- Where nothing else is ready: the idle thread, or the thread that was stopped.
idle-Settles :
    (s : Machine) (cpu : ℕ) (old : Option ℕ) (ctx : Context)
    → IsExclusive s
    → s.current cpu ≡ old
    → Settles s (schedule_idle cpu old (some ctx) s)
unfolding schedule_idle schedule_idle_thread save_thread_context continue handle_no_schedule
idle-Settles s cpu none ctx x at =
    rw (idle_runs s cpu x.idle_code) (on_switch (idle_on s cpu) (idle-IsExclusive s cpu x))
idle-Settles s cpu (some o) ctx x at = elim (Bool-cases (is_killed (s.threads o).status)) [
  | inr e ↦ rw e (on_return s x refl)
  | inl e ↦
      rw (schedule_idle-killed s cpu o ctx x at e)
        (on_switch (idle_on s cpu) (idle-IsExclusive s cpu x))
]

pub old_start :
    (s : Machine) (cpu o : ℕ) → IsExclusive s → s.current cpu ≡ some o → start_id (s.threads o) ≡ o
unfolding start_id
old_start s cpu o x at =
    let own : (s.threads o).id ≡ o = elim (Bool-cases (ltb o max_num_threads)) [
      | inl lt ↦
          x.named o (
            held-alive (s.threads o).status (x.current_held cpu o at (ltb→lt o max_num_threads lt)))
      | inr ge ↦
          let same : o ≡ idle_thread = ground (arith, ge, x.in_table cpu o at) in
          ap (λ j. (s.threads j).id) same ∙ x.idle_id ∙ sym same
    ] in
    rw (own, ==_ne o uint32_max (λ e. omega (arith, e, x.in_table cpu o at))) refl

Settles-continue :
    (s : Machine) (cpu : ℕ) (old : Option ℕ) (rest : Machine → Outcome Scan) (r : Outcome Scan)
    → s.current cpu ≡ old
    → Settles s r
    → ((s' : Machine) → IsExclusive s' → s'.current cpu ≡ old → Settles s' (rest s'))
    → Settles s (r >>= continue rest)
unfolding continue
Settles-continue s cpu old rest r at (on_switch s' x) go = on_switch s' x
Settles-continue s cpu old rest r at (on_return s' x e) go =
    Settles-later s s' (rest s') e (go s' x (ap (λ f. f cpu) e ∙ at))

Settles-from :
    (s : Machine) (cpu : ℕ) (old : Option ℕ) (ctx : Context)
    → IsExclusive s
    → s.current cpu ≡ old
    → ctx.i_rip ≢ 0
    → Settles s (invoke_scheduler_old s cpu old (some ctx))
unfolding invoke_scheduler_old
Settles-from s cpu none ctx x at code =
    Settles-continue s cpu none (schedule_idle cpu none (some ctx))
      (scan max_num_threads 0 cpu none (some ctx) s) at
      (scan-Settles max_num_threads 0 cpu none ctx s x at code (omega arith))
      (λ s' x' at'. idle-Settles s' cpu none ctx x' at')
Settles-from s cpu (some o) ctx x at code =
    let start = start_id (s.threads o) in
    let bound : start ≤ idle_thread = omega (arith, old_start s cpu o x at, x.in_table cpu o at) in
    Settles-continue s cpu (some o)
      (λ s1.
        scan start 0 cpu (some o) (some ctx) s1
        >>= continue (schedule_idle cpu (some o) (some ctx)))
      (scan (max_num_threads - suc start) (suc start) cpu (some o) (some ctx) s) at
      (scan-Settles (max_num_threads - suc start) (suc start) cpu (some o) ctx s x at code
        (omega arith))
      (λ s' x' at'.
        Settles-continue s' cpu (some o) (schedule_idle cpu (some o) (some ctx))
          (scan start 0 cpu (some o) (some ctx) s') at'
          (scan-Settles start 0 cpu (some o) ctx s' x' at' code (omega arith))
          (λ s'' x'' at''. idle-Settles s'' cpu (some o) ctx x'' at''))

pub invoke-goes :
    (s : Machine) (cpu : ℕ) (ctx : Option Context)
    → s.panicked ≡ false
    → invoke_scheduler s cpu ctx ≡ invoke_scheduler_old s cpu (s.current cpu) ctx
unfolding invoke_scheduler
invoke-goes s cpu ctx calm = rw calm refl

pub invoke-stops :
    (s : Machine) (cpu : ℕ) (ctx : Option Context)
    → s.panicked ≡ true
    → invoke_scheduler s cpu ctx ≡ panic
unfolding invoke_scheduler
invoke-stops s cpu ctx e = rw e refl

-- From a machine on which no two CPUs share a thread, that has not panicked, and with a context that has
-- code to run,
-- InvokeScheduler never panics, and leaves such a machine, by a switch or by a return.
pub invoke_scheduler-Settles :
    (s : Machine) (cpu : ℕ) (ctx : Context)
    → IsExclusive s
    → s.panicked ≡ false
    → ctx.i_rip ≢ 0
    → Settles s (invoke_scheduler s cpu (some ctx))
invoke_scheduler-Settles s cpu ctx x calm code =
    rw (invoke-goes s cpu (some ctx) calm) (Settles-from s cpu (s.current cpu) ctx x refl code)
