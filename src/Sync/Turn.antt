-- ===== src/Sync/Turn.antt =====
-- The last piece of `mutex_acquire`, and the timer, keep the invariant and do not panic.
use jack_os.Base.{◌≡◌, refl, inl, inr, true, none, some, arith, ◌==◌, Option-cases}
use jack_os.Interrupt.{intr_off}
use jack_os.Thread.{Tid, Kernel}
use jack_os.Thread.Queue.{IsValid, SameSleepers, flag-IsQueued}
use jack_os.Thread.Schedule.{schedule_lem}
use jack_os.Sync.{acquire_finish}
use jack_os.Sync.System.{got, inside, System, at, do_got, do_tick}
use jack_os.Sync.Inv.{IsSafe}

module _ {s : System} (v : IsSafe s) where
  abbrev me : Tid
  me = s.kernel.current

  -- Behind `sema_down` nobody holds the mutex.
  nobody_holds : s.pc me ≡ got → s.mutex.holder ≡ none
  nobody_holds e = elim (Option-cases s.mutex.holder) [
    | inl free ↦ free
    | inr (h, theirs) ↦ let i = v.holder h theirs in let same = v.one_owner h me in ground arith
  ]

  pub got-IsSafe : s.pc me ≡ got → (s' : System) × (do_got s ≡ some s') × IsSafe s'
  unfolding do_got acquire_finish
  got-IsSafe e =
      let zero_count : (s.mutex.holder_repeat_nr == 0) ≡ true =
        ground (arith, v.unheld (nobody_holds e)) in
      (
        at (record s { mutex = record s.mutex { holder = some me; holder_repeat_nr = 1 } }) inside,
        rw zero_count refl,
        record {
          valid = v.valid;
          idle_outside = ground (arith, v.idle_outside);
          binary = v.binary;
          one_owner =
              λ t u a b. ground (arith, v.one_owner t u, v.one_owner t me, v.one_owner me u);
          free = λ f t. ground (arith, v.free f t, v.free f me);
          taken = λ z. (me, ground arith);
          held = λ t h. ground (arith, v.one_owner t me);
          holder = λ t h. ground arith;
          counted = λ t h. omega arith;
          unheld = λ h. cc;
          distinct = v.distinct;
          waiter = λ t h. ground (arith, v.waiter t h);
          waits = λ t d a. ground (arith, v.waits t);
          awake = λ f t h. let (u, d, a) = v.awake f t h in (u, ground arith, a);
        },
      )

  -- The timer, and what else changes only who has the CPU.
  moved-IsSafe :
      (k : Kernel) → IsValid k → SameSleepers s.kernel k → IsSafe (record s { kernel = k })
  moved-IsSafe k valid same = record {
    valid = valid;
    idle_outside = ground (arith, v.idle_outside, same.idle_thread);
    binary = v.binary;
    one_owner = v.one_owner;
    free = v.free;
    taken = v.taken;
    held = v.held;
    holder = v.holder;
    counted = v.counted;
    unheld = v.unheld;
    distinct = v.distinct;
    waiter = λ t h. ground (arith, v.waiter t h, v.idle_outside, same.asleep t);
    waits = λ t d a. ground (arith, v.waits t d, v.idle_outside, same.were_asleep t);
    awake = λ f t h.
        let (u, d, a) = v.awake f t h in (u, d, ground (arith, v.idle_outside, same.were_asleep u));
  }

  pub tick-IsSafe : (s' : System) × (do_tick s ≡ some s') × IsSafe s'
  unfolding do_tick
  tick-IsSafe =
      let (k', e, valid, line, same, off) =
        schedule_lem (flag-IsQueued intr_off v.valid.queue) refl in
      (
        record s { kernel = k' },
        rw e refl,
        moved-IsSafe k' valid (record {
          idle_thread = same.idle_thread;
          asleep = same.asleep;
          were_asleep = same.were_asleep;
        }),
      )
