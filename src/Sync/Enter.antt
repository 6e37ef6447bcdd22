-- ===== src/Sync/Enter.antt =====
-- The first piece of `mutex_acquire` and of `mutex_release` keeps the invariant and does not panic.
use jack_os.Base.{
  ℕ, ◌+◌, ◌-◌, ◌%◌, ◌≡◌, ◌≢◌, ◌<◌, refl, inl, inr, true, false, none, some, arith, ◌==◌, ltb,
  Bool-cases, Option-cases,
}
use jack_os.Thread.{Tid}
use jack_os.Sync.{acquire_enter, release_enter, holds}
use jack_os.Sync.System.{Pc, outside, down, inside, up, System, at, do_acquire, do_release}
use jack_os.Sync.Inv.{owns, IsSafe}

module _ {s : System} (v : IsSafe s) where
  abbrev me : Tid
  me = s.kernel.current

  not_mine : (p : Pc) → s.pc me ≡ p → owns p ≡ false → holds s.mutex.holder me ≡ false
  not_mine p e o = elim (Option-cases s.mutex.holder) [
    | inl free ↦ rw free refl
    | inr (h, mine) ↦ ground (arith, v.holder h)
  ]

  -- `mutex_acquire` of a thread that does not hold the mutex goes on to `sema_down`.
  pub first_acquire-eq : s.pc me ≡ outside → do_acquire s ≡ at s down
  unfolding do_acquire acquire_enter
  first_acquire-eq e = rw (not_mine outside e refl) refl

  pub waiting-IsSafe : s.pc me ≡ outside → me ≢ s.kernel.idle_thread → IsSafe (at s down)
  waiting-IsSafe e ne = record {
    valid = v.valid;
    idle_outside = ground (arith, v.idle_outside);
    binary = v.binary;
    one_owner = λ t u a b. ground (arith, v.one_owner t u);
    free = λ f t. ground (arith, v.free f t);
    taken = λ z. let (t, o) = v.taken z in (t, ground arith);
    held = λ t h. ground (arith, v.held t);
    holder = λ t h. ground (arith, v.holder t h);
    counted = v.counted;
    unheld = v.unheld;
    distinct = v.distinct;
    waiter = λ t h. ground (arith, v.waiter t h);
    waits = λ t d a. ground (arith, v.waits t, v.valid.running);
    awake = λ f t h. let (u, d, a) = v.awake f t h in (u, ground arith, a);
  }

  -- Again from inside: the count goes up.
  abbrev again : System
  again = record s { mutex = record s.mutex { holder_repeat_nr = s.mutex.holder_repeat_nr + 1 } }

  pub next_acquire-eq :
      s.pc me ≡ inside
      → s.mutex.holder_repeat_nr + 1 < 0x1_0000_0000
      → do_acquire s ≡ at again inside
  unfolding do_acquire acquire_enter
  next_acquire-eq e small =
      let mine : holds s.mutex.holder me ≡ true = rw (v.held me e) (ground arith) in
      let n : (s.mutex.holder_repeat_nr + 1) % 0x1_0000_0000 ≡ s.mutex.holder_repeat_nr + 1 =
        omega arith in
      rw (mine, n) refl

  -- A change inside the mutex that keeps the holder and leaves a count.
  pub recounted-IsSafe :
      (n : ℕ)
      → 0 < n
      → s.pc me ≡ inside
      → IsSafe (at (record s { mutex = record s.mutex { holder_repeat_nr = n } }) inside)
  recounted-IsSafe n pos e = record {
    valid = v.valid;
    idle_outside = ground (arith, v.idle_outside);
    binary = v.binary;
    one_owner = λ t u a b. ground (arith, v.one_owner t u);
    free = λ f t. ground (arith, v.free f t, v.free f me);
    taken = λ z. (me, ground arith);
    held = λ t h. ground (arith, v.held t, v.held me);
    holder = λ t h. ground (arith, v.holder t h);
    counted = λ t h. pos;
    unheld = λ h. let q = v.held me e in cc;
    distinct = v.distinct;
    waiter = λ t h. ground (arith, v.waiter t h);
    waits = λ t d a. ground (arith, v.waits t);
    awake = λ f t h. let (u, d, a) = v.awake f t h in (u, ground arith, a);
  }

  released-IsSafe :
      s.pc me ≡ inside
      → IsSafe (at (record s { mutex = record s.mutex { holder = none; holder_repeat_nr = 0 } }) up)
  released-IsSafe e = record {
    valid = v.valid;
    idle_outside = ground (arith, v.idle_outside);
    binary = v.binary;
    one_owner = λ t u a b. ground (arith, v.one_owner t u, v.one_owner t me, v.one_owner me u);
    free = λ f t. ground (arith, v.free f t, v.free f me);
    taken = λ z. (me, ground arith);
    held = λ t h. ground (arith, v.one_owner t me);
    holder = λ t h. cc;
    counted = λ t h. cc;
    unheld = λ h. refl;
    distinct = v.distinct;
    waiter = λ t h. ground (arith, v.waiter t h);
    waits = λ t d a. ground (arith, v.waits t);
    awake = λ f t h. let (u, d, a) = v.awake f t h in (u, ground arith, a);
  }

  pub release-IsSafe : s.pc me ≡ inside → (s' : System) × (do_release s ≡ some s') × IsSafe s'
  unfolding do_release release_enter
  release-IsSafe e =
      let mine : holds s.mutex.holder me ≡ true = rw (v.held me e) (ground arith) in
      elim (Bool-cases (ltb 1 s.mutex.holder_repeat_nr)) [
        | inl more ↦ (
          at
              (record s {
                mutex = record s.mutex { holder_repeat_nr = s.mutex.holder_repeat_nr - 1 };
              })
              inside,
          rw (mine, more) refl,
          recounted-IsSafe (s.mutex.holder_repeat_nr - 1) (ground arith) e,
        )
        | inr last ↦
            let one : (s.mutex.holder_repeat_nr == 1) ≡ true =
              ground (arith, v.counted me (v.held me e)) in
            (
              at (record s { mutex = record s.mutex { holder = none; holder_repeat_nr = 0 } }) up,
              rw (mine, last, one) refl,
              released-IsSafe e,
            )
      ]
