-- ===== src/Spinlock/Exclusion.antt =====
-- Mutual exclusion, and that no CPU panics.
use swag_os.Base.{ℕ, ◌<◌, ◌≡◌, ◌≢◌, Bool, true, false, if◌then◌else◌, arith}
use swag_os.Base.Outcome.{ok, panic}
use swag_os.Spinlock.{no_owner, inc_cli, dec_cli, spinlock_check_held}
use swag_os.Spinlock.System.{
  Pc, outside, checking, spinning, entered, holding, releasing, disowned, leaving, panicked, System,
  Move, begin, deadlock, no_deadlock, spin, test_and_set, own, not_held, held, disown, clear,
  bad_count, finish, pick, IsInitial, Reach, start, later,
}

-- Between the test-and-set and the clearing of the flag.
abbrev pub inside : Pc → Bool
inside entered = true
inside holding = true
inside releasing = true
inside disowned = true
inside _ = false

-- `owner_cpu` names the CPU.
abbrev pub owns : Pc → Bool
owns holding = true
owns releasing = true
owns _ = false

-- Interrupts are counted off on this CPU.
abbrev pub masked : Pc → Bool
masked outside = false
masked _ = true

pub record Inv (n : ℕ) (s : System) : Type 0 where
  pub unique : (i j : ℕ) → inside (s.pc i) ≡ true → inside (s.pc j) ≡ true → i ≡ j
  pub locked : (i : ℕ) → inside (s.pc i) ≡ true → s.lock.is_locked ≡ true
  pub owner : (i : ℕ) → owns (s.pc i) ≡ true → s.lock.owner_cpu ≡ i
  pub owned : (i : ℕ) → i < n → s.lock.owner_cpu ≡ i → owns (s.pc i) ≡ true
  pub ids : (i : ℕ) → (s.cpu i).id ≡ i
  pub counted : (i : ℕ) → (s.cpu i).cli_count ≡ (if masked (s.pc i) then 1 else 0)
  pub quiet : (i : ℕ) → masked (s.pc i) ≡ true → (s.cpu i).interrupts ≡ false
  pub sound : (i : ℕ) → s.pc i ≢ panicked

Inv-init : (n : ℕ) (s : System) → IsInitial s → n < no_owner → Inv n s
Inv-init n s z small = record {
  unique = λ i j a b. ground (arith, z.all_outside i);
  locked = λ i a. ground (arith, z.all_outside i);
  owner = λ i a. ground (arith, z.all_outside i);
  owned = λ i lt e. ground (arith, z.unowned);
  ids = z.ids;
  counted = λ i. ground (arith, z.all_outside i, z.counts i);
  quiet = λ i a. ground (arith, z.all_outside i);
  sound = λ i e. ground (arith, z.all_outside i);
}

-- What a move requires, for the catch-all clauses below, which cannot name it.
abbrev Premise : {s : System} {i : ℕ} {t : System} → Move s i t → Type 0
Premise {s} {i} (begin e) = s.pc i ≡ outside
Premise {s} {i} (deadlock e h) = (s.pc i ≡ checking) × (spinlock_check_held s.lock (s.cpu i) ≡ true)
Premise {s} {i} (no_deadlock e h) = s.pc i ≡ checking
Premise {s} {i} (spin e h) = s.pc i ≡ spinning
Premise {s} {i} (test_and_set e h) = (s.pc i ≡ spinning) × (s.lock.is_locked ≡ false)
Premise {s} {i} (own e) = s.pc i ≡ entered
Premise {s} {i} (not_held e h) = (s.pc i ≡ holding) × (spinlock_check_held s.lock (s.cpu i) ≡ false)
Premise {s} {i} (held e h) = s.pc i ≡ holding
Premise {s} {i} (disown e) = s.pc i ≡ releasing
Premise {s} {i} (clear e) = s.pc i ≡ disowned
Premise {s} {i} (bad_count e h) = (s.pc i ≡ leaving) × (dec_cli (s.cpu i) ≡ panic)
Premise {s} {i} (finish {c} e h) = (s.pc i ≡ leaving) × (dec_cli (s.cpu i) ≡ ok c)

premise : {s : System} {i : ℕ} {t : System} (mv : Move s i t) → Premise mv
premise (begin e) = e
premise (deadlock e h) = (e, h)
premise (no_deadlock e h) = e
premise (spin e h) = e
premise (test_and_set e h) = (e, h)
premise (own e) = e
premise (not_held e h) = (e, h)
premise (held e h) = e
premise (disown e) = e
premise (clear e) = e
premise (bad_count e h) = (e, h)
premise (finish e h) = (e, h)

module _ (n : ℕ) (s : System) (small : n < no_owner) (inv : Inv n s) (i : ℕ) (lt : i < n) where
  open inv use {unique, locked, owner, owned, ids, counted, quiet, sound}

  Move-unique :
      {t : System}
      → Move s i t
      → (a b : ℕ) → inside (t.pc a) ≡ true
      → inside (t.pc b) ≡ true
      → a ≡ b
  Move-unique (begin e) a b p q = ground (arith, unique a b)
  Move-unique mv a b p q = ground (arith, premise mv, unique a b, locked a, locked b)

  Move-locked :
      {t : System} → Move s i t → (a : ℕ) → inside (t.pc a) ≡ true → t.lock.is_locked ≡ true
  Move-locked (begin e) a p = ground (arith, locked a)
  Move-locked mv a p = ground (arith, premise mv, locked a, unique a i)

  Move-owner : {t : System} → Move s i t → (a : ℕ) → owns (t.pc a) ≡ true → t.lock.owner_cpu ≡ a
  Move-owner (begin e) a p = ground (arith, owner a)
  Move-owner mv a p = ground (arith, premise mv, owner a, unique a i, ids i)

  Move-owned :
      {t : System} → Move s i t → (a : ℕ) → a < n → t.lock.owner_cpu ≡ a → owns (t.pc a) ≡ true
  unfolding spinlock_check_held
  Move-owned (begin e) a p q = ground (arith, owned a)
  Move-owned mv a p q = ground (arith, premise mv, owned a, ids i, owner i, locked i, small)

  Move-ids : {t : System} → Move s i t → (a : ℕ) → (t.cpu a).id ≡ a
  unfolding inc_cli dec_cli
  Move-ids (begin e) a = ground (arith, ids a)
  Move-ids mv a = ground (arith, premise mv, ids a)

  Move-counted :
      {t : System} → Move s i t → (a : ℕ) → (t.cpu a).cli_count ≡ (if masked (t.pc a) then 1 else 0)
  unfolding inc_cli dec_cli
  Move-counted (begin e) a = ground (arith, e, counted a)
  Move-counted mv a = ground (arith, premise mv, counted a)

  Move-quiet :
      {t : System} → Move s i t → (a : ℕ) → masked (t.pc a) ≡ true → (t.cpu a).interrupts ≡ false
  unfolding inc_cli dec_cli
  Move-quiet (begin e) a p = ground (arith, e, quiet a)
  Move-quiet mv a p = ground (arith, premise mv, quiet a)

  -- The deadlock check, the check of `release_Spinlock` and those of `dec_cli` all pass.
  Move-sound : {t : System} → Move s i t → (a : ℕ) → t.pc a ≢ panicked
  unfolding inc_cli dec_cli spinlock_check_held
  Move-sound (begin e) a p = ground (arith, e, sound a)
  Move-sound mv a p =
      ground (arith, premise mv, sound a, owned i, owner i, locked i, ids i, counted i, quiet i)

  Move-Inv : {t : System} → Move s i t → Inv n t
  Move-Inv mv = record {
    unique = Move-unique mv;
    locked = Move-locked mv;
    owner = Move-owner mv;
    owned = Move-owned mv;
    ids = Move-ids mv;
    counted = Move-counted mv;
    quiet = Move-quiet mv;
    sound = Move-sound mv;
  }

pub Reach-Inv : {n : ℕ} {s : System} → n < no_owner → Reach n s → Inv n s
Reach-Inv {n} {s} small (start z) = Inv-init n s z small
Reach-Inv {n} small (later {s} r (pick i lt mv)) = Move-Inv n s small (Reach-Inv small r) i lt mv

-- In every reachable state at most one CPU is between the test-and-set of `acquire_Spinlock` and
-- the clearing of the flag in `release_Spinlock`.
pub mutual_exclusion :
    {n : ℕ} {s : System} (i j : ℕ)
    → n < no_owner
    → Reach n s
    → inside (s.pc i) ≡ true
    → inside (s.pc j) ≡ true
    → i ≡ j
mutual_exclusion i j small r p q = (Reach-Inv small r).unique i j p q

-- No check of `acquire_Spinlock`, `release_Spinlock` or `dec_cli` ever panics on a CPU that takes
-- and releases the lock in turn, and a CPU that holds it has its interrupts off.
pub never_panics :
    {n : ℕ} {s : System}
    → n < no_owner
    → Reach n s
    → (i : ℕ) → (s.pc i ≢ panicked) × (inside (s.pc i) ≡ true → (s.cpu i).interrupts ≡ false)
never_panics small r i =
    let inv = Reach-Inv small r in (inv.sound i, λ p. ground (arith, inv.quiet i))
