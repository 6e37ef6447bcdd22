-- ===== src/Sync/Safety.antt =====
-- What holds of the threads that use one mutex of thread/sync.c, in every state that they can reach.
use jack_os.Base.{
  ◌+◌, ◌≡◌, ◌≢◌, ◌⊎◌, refl, sym, ◌∙◌, subst, inl, inr, true, false, Option, none, some, arith, ap,
  ◌↔◌, Bool-cases, ◌==◌, ==→eq,
}
use jack_os.Thread.{Tid, Kernel}
use jack_os.Thread.Queue.{IsValid, is_awake}
use jack_os.Sync.{mutex_init, sema_init}
use jack_os.Sync.System.{
  outside, down, inside, System, Step, first_acquire, next_acquire, release, try_down,
  finish_acquire, give_back, tick, Reach, start, later,
}
use jack_os.Sync.Inv.{owns, IsSafe}
use jack_os.Sync.Enter.{
  first_acquire-eq, waiting-IsSafe, next_acquire-eq, recounted-IsSafe, release-IsSafe,
}
use jack_os.Sync.Turn.{got-IsSafe, tick-IsSafe}
use jack_os.Sync.Down.{down-IsSafe}
use jack_os.Sync.Up.{up-IsSafe}

-- The step returned, with the invariant kept.
abbrev pub Returns : Option System → Type 0
Returns r = (s : System) × (r ≡ some s) × IsSafe s

-- No step panics, and each keeps the invariant.
pub Step-IsSafe : {s : System} {r : Option System} → IsSafe s → Step s r → Returns r
Step-IsSafe {s} v (first_acquire e ne q) =
    (_, q ∙ ap some (first_acquire-eq v e), waiting-IsSafe v e ne)
Step-IsSafe {s} v (next_acquire e small q) = (
  _,
  q ∙ ap some (next_acquire-eq v e small),
  recounted-IsSafe v (s.mutex.holder_repeat_nr + 1) (omega arith) e,
)
Step-IsSafe v (release e q) = let (s, p, w) = release-IsSafe v e in (s, q ∙ p, w)
Step-IsSafe v (try_down e q) = let (s, p, w) = down-IsSafe v e in (s, q ∙ p, w)
Step-IsSafe v (finish_acquire e q) = let (s, p, w) = got-IsSafe v e in (s, q ∙ p, w)
Step-IsSafe v (give_back e q) = let (s, p, w) = up-IsSafe v e in (s, q ∙ p, w)
Step-IsSafe v (tick q) = let (s, p, w) = tick-IsSafe v in (s, q ∙ p, w)

some-IsSafe : {s : System} → Returns (some s) → IsSafe s
some-IsSafe {s} (t, e, v) = let q : s ≡ t = cc e in subst IsSafe (sym q) v

-- The start: nobody uses the mutex, which `mutex_init` has set up.
abbrev pub fresh : Kernel → System
fresh k = record { kernel = k; mutex = mutex_init; pc = λ _. outside }

fresh-IsSafe : (k : Kernel) → IsValid k → IsSafe (fresh k)
unfolding mutex_init sema_init
fresh-IsSafe k v = record {
  valid = v;
  idle_outside = refl;
  binary = omega arith;
  one_owner = λ t u a b. cc;
  free = λ f t. refl;
  taken = λ z. absurd (omega arith);
  held = λ t h. cc;
  holder = λ t h. cc;
  counted = λ t h. cc;
  unheld = λ h. refl;
  distinct = tt;
  waiter = λ t h. cc;
  waits = λ t d a. cc;
  awake = λ f t h. cc;
}

Reach-Returns : {k : Kernel} {r : Option System} → IsValid k → Reach (fresh k) r → Returns r
Reach-Returns {k} v start = (fresh k, refl, fresh-IsSafe k v)
Reach-Returns v (later t path st) = Step-IsSafe (some-IsSafe (Reach-Returns v path)) st

-- Threads that start with a fresh mutex in a valid state of the scheduler, and use it as the relation
-- `Step` lets them, never make it panic, in whatever order they call it, with the timer taking the CPU
-- away between any two pieces of the calls, a piece being taken as run without interruption.
pub no_panic : {k : Kernel} {r : Option System} → IsValid k → Reach (fresh k) r → r ≢ none
no_panic v path e = let (s, q, w) = Reach-Returns v path in cc

-- Mutual exclusion: in every state that is reached from a fresh mutex and a valid state of the
-- scheduler, no two threads are between `mutex_acquire` and `mutex_release` at once, and a thread is
-- there exactly if it is the holder of the mutex.
pub mutual_exclusion :
    {k : Kernel} (s : System)
    → IsValid k
    → Reach (fresh k) (some s)
    → ((t u : Tid) → s.pc t ≡ inside → s.pc u ≡ inside → t ≡ u)
      × ((t : Tid) → (s.mutex.holder ≡ some t) ↔ (s.pc t ≡ inside))
mutual_exclusion s v path =
    let w = some-IsSafe (Reach-Returns v path) in
    (λ t u a b. w.one_owner t u (rw a refl) (rw b refl), λ t. (w.holder t, w.held t))

-- No wakeup is lost: in every state that is reached from a fresh mutex and a valid state of the
-- scheduler and in which a thread sleeps in `sema_down`, some thread has taken the semaphore and not
-- given it back, or some thread that is at the test of `sema_down` is running or ready.
pub no_lost_wakeup :
    {k : Kernel} (s : System) (t : Tid)
    → IsValid k
    → Reach (fresh k) (some s)
    → s.pc t ≡ down
    → is_awake (s.kernel.status t) ≡ false
    → ((u : Tid) × (owns (s.pc u) ≡ true))
      ⊎ ((u : Tid) × (s.pc u ≡ down) × (is_awake (s.kernel.status u) ≡ true))
no_lost_wakeup s t v path d a =
    let w = some-IsSafe (Reach-Returns v path) in
    elim (Bool-cases (s.mutex.semaphore.value == 0)) [
      | inl z ↦ inl (w.taken (==→eq s.mutex.semaphore.value 0 z))
      | inr p ↦ inr (w.awake (ground (arith, w.binary)) t (w.waits t d a))
    ]
