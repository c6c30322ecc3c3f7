-- ===== src/Scheduler/Wake.antt =====
-- No wake-up of src/kernel/kernel/proc.c is lost, whichever of Wakeup and the save of the sleeping
-- thread's context comes first.
use swag_os.Base.{
  ℕ, zero, suc, ◌+◌, ◌<◌, ◌≤◌, ◌≡◌, refl, sym, ap, ◌∙◌, inl, inr, Bool, true, false, ◌||◌, some,
  List, [], ◌∷◌, ◌==◌, Bool-cases, ==_ne, arith,
}
use swag_os.Base.Outcome.{ok}
use swag_os.Scheduler.{
  sleeping, wakeup_ready, Thread, Context, Machine, max_num_threads, idle_thread, set_thread,
  is_ready, woken_status, woken, save_status, save_thread_context,
}
use swag_os.Scheduler.Exclusive.{update_self, update_ne}
use swag_os.Scheduler.Sleep.{thread_sleep, is_asleep, wake_thread, wakeup_loop, wakeup}
use swag_os.Scheduler.Steps.{asleep, thread_sleep-runs}
use swag_os.Scheduler.RoundRobin.{schedulable, schedulable-status}

wakeup_loop-before :
    (n i channel : ℕ) (s : Machine) (j : ℕ)
    → j < i
    → (wakeup_loop n i channel s).threads j ≡ s.threads j
unfolding wakeup_loop set_thread
wakeup_loop-before zero i channel s j h = refl
wakeup_loop-before (suc n) i channel s j h =
    wakeup_loop-before n (suc i) channel (set_thread s i (wake_thread channel (s.threads i))) j
      (omega arith)
    ∙ update_ne s.threads i (wake_thread channel (s.threads i)) j (λ e. omega (arith, e))

-- The loop wakes each thread of its range once.
wakeup_loop-at :
    (n i channel : ℕ) (s : Machine) (j : ℕ)
    → i ≤ j
    → j < i + n
    → (wakeup_loop n i channel s).threads j ≡ wake_thread channel (s.threads j)
unfolding wakeup_loop set_thread
wakeup_loop-at zero i channel s j lo hi = absurd (omega arith)
wakeup_loop-at (suc n) i channel s j lo hi =
    let step = set_thread s i (wake_thread channel (s.threads i)) in
    elim (Bool-cases (i == j)) [
      | inl e ↦
          let same : i ≡ j = ground (arith, e) in
          ap (λ k. (wakeup_loop n (suc i) channel step).threads k) (sym same)
          ∙ wakeup_loop-before n (suc i) channel step i (omega arith)
          ∙ update_self s.threads i (wake_thread channel (s.threads i))
          ∙ ap (λ k. wake_thread channel (s.threads k)) same
      | inr e ↦
          wakeup_loop-at n (suc i) channel step j (ground (arith, e)) (omega arith)
          ∙ ap (wake_thread channel) (
              update_ne s.threads i (wake_thread channel (s.threads i)) j
                (λ z. ground (arith, e, z)))
    ]

pub wakeup-thread :
    (s : Machine) (channel j : ℕ)
    → j < max_num_threads
    → (wakeup s channel).threads j ≡ wake_thread channel (s.threads j)
unfolding wakeup
wakeup-thread s channel j h =
    wakeup_loop-at max_num_threads 0 channel s j (omega arith) (omega arith)

-- What the scheduler makes of a thread that sleeps.
abbrev saved : Context → Thread → Thread
saved ctx t = record t { status = wakeup_ready; execution_context = ctx }

save_asleep :
    (s : Machine) (i : ℕ) (ctx : Context)
    → i < max_num_threads
    → (s.threads i).status ≡ sleeping
    → save_thread_context s (some i) (some ctx) ≡ ok (set_thread s i (saved ctx (s.threads i)))
unfolding save_thread_context save_status
save_asleep s i ctx small e = rw (==_ne i idle_thread (λ z. omega (arith, z)), e) refl

or_true : (b : Bool) → (b || true) ≡ true
or_true true = refl
or_true false = refl

or_false : (b : Bool) → (b || false) ≡ b
or_false true = refl
or_false false = refl

or_assoc : (a b c : Bool) → ((a || b) || c) ≡ (a || (b || c))
or_assoc true b c = refl
or_assoc false b c = refl

ready-woken : (b : Bool) → is_ready (woken_status wakeup_ready b) ≡ b
unfolding is_ready woken_status
ready-woken true = refl
ready-woken false = refl

sched :
    (s : Machine) (i : ℕ) (t : Thread)
    → s.threads i ≡ t
    → schedulable s i ≡ is_ready (woken_status t.status t.can_wakeup)
unfolding woken
sched s i t e = schedulable-status s i ∙ ap (λ y. is_ready (woken y).status) e

-- Wake-ups of channels, one after the other.
unfoldable pub wakeups : List ℕ → Machine → Machine
unfolding wakeup
wakeups [] s = s
wakeups (c ∷ cs) s = wakeups cs (wakeup s c)

abbrev pub is_among : ℕ → List ℕ → Bool
is_among x [] = false
is_among x (c ∷ cs) = x == c || is_among x cs

wake-record :
    (c : ℕ) (t : Thread)
    → is_asleep t.status ≡ true
    → wake_thread c t ≡ record t { can_wakeup = t.can_wakeup || t.sleep_channel == c }
unfolding wake_thread
wake-record c t asleep_now = elim (Bool-cases (t.sleep_channel == c)) [
  | inl e ↦ rw (asleep_now, e, or_true t.can_wakeup) refl
  | inr e ↦ rw (asleep_now, e, or_false t.can_wakeup) refl
]

-- What any wake-ups make of a thread that is asleep: it may be woken once its channel was among them.
wakeups-at :
    (cs : List ℕ) (s : Machine) (i : ℕ) (t : Thread)
    → i < max_num_threads
    → is_asleep t.status ≡ true
    → s.threads i ≡ t
    → (wakeups cs s).threads i
      ≡ record t { can_wakeup = t.can_wakeup || is_among t.sleep_channel cs }
unfolding wakeups
wakeups-at [] s i t small asleep_now e =
    e ∙ ap (λ b. record t { can_wakeup = b }) (sym (or_false t.can_wakeup))
wakeups-at (c ∷ cs) s i t small asleep_now e =
    wakeups-at cs (wakeup s c) i (record t { can_wakeup = t.can_wakeup || t.sleep_channel == c })
      small asleep_now
      (wakeup-thread s c i small ∙ ap (wake_thread c) e ∙ wake-record c t asleep_now)
    ∙ ap (λ b. record t { can_wakeup = b })
        (or_assoc t.can_wakeup (t.sleep_channel == c) (is_among t.sleep_channel cs))

-- A thread calls ThreadSleep on a channel, and no Wakeup comes between the writes of that call, as where
-- the wakers take the lock that it holds. Then Wakeup of any channels `before` the scheduler saves its
-- context does not make it schedulable, the save succeeds, and after the save and Wakeup of any channels
-- `since` it may be started exactly if its channel was among those before or those since.
pub no_lost_wakeup :
    (s : Machine) (cpu i channel : ℕ) (ctx : Context) (before since : List ℕ)
    → s.current cpu ≡ some i
    → i < max_num_threads
    → (channel == 0) ≡ false
    → (s1 s2 : Machine) × (thread_sleep s cpu channel ≡ ok s1)
      × (schedulable (wakeups before s1) i ≡ false)
      × (save_thread_context (wakeups before s1) (some i) (some ctx) ≡ ok s2)
      × (schedulable (wakeups since s2) i ≡ (is_among channel before || is_among channel since))
unfolding set_thread is_ready woken_status is_asleep
no_lost_wakeup s cpu i channel ctx before since at small nonzero =
    let t = asleep channel (s.threads i) in
    let s1 = set_thread s i t in
    let t1 : Thread = record t { can_wakeup = is_among channel before } in
    let at1 : (wakeups before s1).threads i ≡ t1 =
      wakeups-at before s1 i t small refl (update_self s.threads i t) in
    let s2 = set_thread (wakeups before s1) i (saved ctx ((wakeups before s1).threads i)) in
    let at2 : s2.threads i ≡ saved ctx t1 =
      update_self (wakeups before s1).threads i (saved ctx ((wakeups before s1).threads i))
      ∙ ap (saved ctx) at1 in
    let t3 : Thread = record (saved ctx t1) {
      can_wakeup = is_among channel before || is_among channel since;
    } in
    (
      s1,
      s2,
      thread_sleep-runs s cpu i channel at nonzero,
      sched (wakeups before s1) i t1 at1,
      save_asleep (wakeups before s1) i ctx small (ap (λ y. y.status) at1),
      sched (wakeups since s2) i t3 (wakeups-at since s2 i (saved ctx t1) small refl at2)
          ∙ ready-woken (is_among channel before || is_among channel since),
    )
