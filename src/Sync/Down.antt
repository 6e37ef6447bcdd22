-- ===== src/Sync/Down.antt =====
-- A round of `sema_down` keeps the invariant and does not panic.
use jack_os.Base.{
  ◌-◌, ◌≡◌, refl, inl, inr, true, false, some, [], ◌∷◌, ◌++◌, arith, has, has-append, Distinct-snoc,
  has→not-mem, ◌==◌, update, Bool-cases, ==→eq,
}
use jack_os.Interrupt.{intr_off}
use jack_os.Thread.{Tid, Kernel, task_blocked, thread_block}
use jack_os.Thread.Queue.{IsValid, SameSleepers, flag-IsValid}
use jack_os.Thread.Calls.{disable-off, thread_block_lem, put_to_sleep}
use jack_os.Sync.{sema_down_round}
use jack_os.Sync.System.{down, got, System, at, do_down}
use jack_os.Sync.Inv.{IsSafe}

module _ {s : System} (v : IsSafe s) where
  abbrev me : Tid
  me = s.kernel.current

  -- One round of `sema_down`: the semaphore is taken.
  abbrev took : System
  took =
      at
        (record s {
          mutex = record s.mutex {
            semaphore = record s.mutex.semaphore { value = s.mutex.semaphore.value - 1 };
          };
        })
        got

  took-IsSafe : s.pc me ≡ down → s.mutex.semaphore.value ≡ 1 → IsSafe took
  took-IsSafe e one = record {
    valid = v.valid;
    idle_outside = ground (arith, v.idle_outside);
    binary = omega arith;
    one_owner = λ t u a b. ground (arith, v.free one t, v.free one u);
    free = λ f t. absurd (omega arith);
    taken = λ z. (me, ground arith);
    held = λ t h. ground (arith, v.free one t);
    holder = λ t h. ground (arith, v.holder t h, v.free one t);
    counted = v.counted;
    unheld = v.unheld;
    distinct = v.distinct;
    waiter = λ t h. ground (arith, v.waiter t h, v.valid.running);
    waits = λ t d a. ground (arith, v.waits t);
    awake = λ f t h. absurd (omega arith);
  }

  -- Or the thread goes to sleep among the waiters.
  not_waiting : has me s.mutex.semaphore.waiters ≡ false
  not_waiting = elim (Bool-cases (has me s.mutex.semaphore.waiters)) [
    | inl i ↦ let w = (v.waiter me i).1 in let r = v.valid.running in cc
    | inr o ↦ o
  ]

  abbrev parked : Kernel → System
  parked k = record {
    kernel = k;
    mutex = record s.mutex {
      semaphore = record s.mutex.semaphore { waiters = s.mutex.semaphore.waiters ++ me ∷ [] };
    };
    pc = update s.pc me down;
  }

  parked-eq :
      (k : Kernel)
      → (s.mutex.semaphore.value == 0) ≡ true
      → thread_block task_blocked (record s.kernel { intr = intr_off }) ≡ some k
      → do_down s ≡ some (parked k)
  unfolding do_down sema_down_round
  parked-eq k z run = rw (z, not_waiting, disable-off s.kernel.intr, run) refl

  took-eq :
      (s.mutex.semaphore.value == 0) ≡ false
      → (s.mutex.semaphore.value - 1 == 0) ≡ true
      → do_down s ≡ some took
  unfolding do_down sema_down_round
  took-eq z one = rw (z, one) refl

  parked-IsSafe :
      (k : Kernel)
      → s.pc me ≡ down
      → s.mutex.semaphore.value ≡ 0
      → IsValid k
      → SameSleepers (put_to_sleep (flag-IsValid intr_off v.valid) task_blocked) k
      → IsSafe (parked k)
  parked-IsSafe k e zero_value valid same =
      let split = λ (t : Tid). has-append t s.mutex.semaphore.waiters (me ∷ []) in
      record {
        valid = valid;
        idle_outside = ground (arith, v.idle_outside, same.idle_thread);
        binary = v.binary;
        one_owner = λ t u a b. ground (arith, v.one_owner t u);
        free = λ f t. absurd (omega arith);
        taken = λ z. let (t, o) = v.taken z in (t, ground arith);
        held = λ t h. ground (arith, v.held t);
        holder = λ t h. ground (arith, v.holder t h);
        counted = v.counted;
        unheld = v.unheld;
        distinct =
            Distinct-snoc s.mutex.semaphore.waiters me v.distinct
              (has→not-mem me s.mutex.semaphore.waiters not_waiting);
        waiter = λ t h. ground (arith, split t, v.waiter t, v.idle_outside, same.asleep t);
        waits = λ t d a. ground (arith, split t, v.waits t, v.idle_outside, same.were_asleep t);
        awake = λ f t h. absurd (omega arith);
      }

  pub down-IsSafe : s.pc me ≡ down → (s' : System) × (do_down s ≡ some s') × IsSafe s'
  down-IsSafe e = elim (Bool-cases (s.mutex.semaphore.value == 0)) [
    | inl none_left ↦
        let (k', run, valid, line, same, off) =
          thread_block_lem (flag-IsValid intr_off v.valid) task_blocked refl
            (λ i. ground (arith, v.idle_outside)) in
        (
          parked k',
          parked-eq k' none_left run,
          parked-IsSafe k' e (==→eq s.mutex.semaphore.value 0 none_left) valid same,
        )
    | inr left ↦
        let one : s.mutex.semaphore.value ≡ 1 = ground (arith, v.binary) in
        (took, took-eq left (ground arith), took-IsSafe e one)
  ]
