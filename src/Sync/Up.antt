-- ===== src/Sync/Up.antt =====
-- `sema_up` keeps the invariant and does not panic.
use jack_os.Base.{
  ℕ, ◌≡◌, refl, sym, ◌∙◌, subst, ap, true, some, List, [], ◌∷◌, arith, has, Distinct, update,
  mem-ne,
}
use jack_os.Interrupt.{intr_disable, intr_set_status, critical_section}
use jack_os.Thread.{Tid, Kernel, sleeps}
use jack_os.Thread.Queue.{flag-IsQueued}
use jack_os.Thread.Wake.{unblocked, unblock-eq, unblocked-IsQueued}
use jack_os.Sync.{Semaphore, wake_first, sema_up}
use jack_os.Sync.System.{outside, up, System, do_up}
use jack_os.Sync.Inv.{owns, IsSafe}

sema_up-eq :
    (n : ℕ) (ws ws' : List Tid) (k k' : Kernel)
    → n ≡ 0
    → wake_first ws (record k { intr = (intr_disable k.intr).1 }) ≡ some (ws', k')
    → k'.intr ≡ (intr_disable k.intr).1
    → sema_up (record { value = n; waiters = ws }) k
      ≡ some (record { value = 1; waiters = ws' }, record k' { intr = k.intr })
unfolding sema_up
sema_up-eq n ws ws' k k' z woken off =
    let flag : (intr_set_status (intr_disable k.intr).0 k'.intr).1 ≡ k.intr =
      ap (λ i. (intr_set_status (intr_disable k.intr).0 i).1) off ∙ (critical_section k.intr).1 in
    rw (z, woken, flag) refl

module _ {s : System} (v : IsSafe s) where
  abbrev me : Tid
  me = s.kernel.current

  -- `sema_up` with nobody waiting, and with a first waiter.
  abbrev raised : Semaphore → Kernel → System
  raised sema k = record {
    kernel = k;
    mutex = record s.mutex { semaphore = record sema { value = 1 } };
    pc = update s.pc me outside;
  }

  owned : owns (s.pc me) ≡ true → s.mutex.semaphore.value ≡ 0
  owned o = ground (arith, v.binary, λ (f : s.mutex.semaphore.value ≡ 1). v.free f me)

  do_up-eq :
      (ws ws' : List Tid) (k' : Kernel)
      → s.mutex.semaphore.value ≡ 0
      → s.mutex.semaphore.waiters ≡ ws
      → wake_first ws (record s.kernel { intr = (intr_disable s.kernel.intr).1 }) ≡ some (ws', k')
      → k'.intr ≡ (intr_disable s.kernel.intr).1
      → do_up s
        ≡ some (raised (record { value = 1; waiters = ws' }) (record k' { intr = s.kernel.intr }))
  unfolding do_up
  do_up-eq ws ws' k' z q woken off =
      let woken' =
        subst
          (λ l.
            wake_first l (record s.kernel { intr = (intr_disable s.kernel.intr).1 })
            ≡ some (ws', k'))
          (sym q) woken in
      rw (sema_up-eq s.mutex.semaphore.value s.mutex.semaphore.waiters ws' s.kernel k' z woken' off)
        refl

  raised-IsSafe :
      s.pc me ≡ up
      → s.mutex.semaphore.waiters ≡ []
      → IsSafe (raised (record { value = 1; waiters = [] }) s.kernel)
  raised-IsSafe e none_waits =
      let here = λ (t : Tid). ap (has t) none_waits in
      record {
        valid = v.valid;
        idle_outside = ground (arith, v.idle_outside);
        binary = omega arith;
        one_owner = λ t u a b. ground (arith, v.one_owner t u);
        free = λ f t. ground (arith, v.one_owner t me);
        taken = λ z. absurd (omega arith);
        held = λ t h. ground (arith, v.held t);
        holder = λ t h. ground (arith, v.holder t h);
        counted = v.counted;
        unheld = v.unheld;
        distinct = tt;
        waiter = λ t h. cc;
        waits = λ t d a. ground (arith, v.waits t, here t);
        awake = λ f t h. cc;
      }

  handed-IsSafe :
      (w : Tid) (rest : List Tid)
      → s.pc me ≡ up
      → s.mutex.semaphore.waiters ≡ w ∷ rest
      → IsSafe (raised (record { value = 1; waiters = rest }) (unblocked w s.kernel))
  handed-IsSafe w rest e some_wait =
      let here = λ (t : Tid). ap (has t) some_wait in
      let (w_down, w_blocked) = v.waiter w (ground (arith, here w)) in
      let d : Distinct (w ∷ rest) = subst Distinct some_wait v.distinct in
      let asleep : sleeps (s.kernel.status w) ≡ true = rw w_blocked refl in
      record {
        valid = record {
          queue = unblocked-IsQueued v.valid.queue w asleep;
          running = ground (arith, v.valid.running);
        };
        idle_outside = ground (arith, v.idle_outside);
        binary = omega arith;
        one_owner = λ t u a b. ground (arith, v.one_owner t u);
        free = λ f t. ground (arith, v.one_owner t me);
        taken = λ z. absurd (omega arith);
        held = λ t h. ground (arith, v.held t);
        holder = λ t h. ground (arith, v.holder t h);
        counted = v.counted;
        unheld = v.unheld;
        distinct = d.1;
        waiter = λ t h. ground (arith, v.waiter t, here t, mem-ne t w rest h d.0);
        waits = λ t p a. ground (arith, v.waits t, here t);
        awake = λ f t h. (w, ground arith, ground arith);
      }

  pub up-IsSafe : s.pc me ≡ up → (s' : System) × (do_up s ≡ some s') × IsSafe s'
  unfolding wake_first
  up-IsSafe e = up_with s.mutex.semaphore.waiters refl
    where
      zero_value : s.mutex.semaphore.value ≡ 0
      zero_value = owned (rw e refl)

      woken :
          (w : Tid) (rest : List Tid)
          → s.mutex.semaphore.waiters ≡ w ∷ rest
          → wake_first (w ∷ rest) (record s.kernel { intr = (intr_disable s.kernel.intr).1 })
            ≡ some (rest, unblocked w (record s.kernel { intr = (intr_disable s.kernel.intr).1 }))
      woken w rest q =
          let (w_down, w_blocked) = v.waiter w (ground (arith, ap (has w) q)) in
          rw
            (unblock-eq (flag-IsQueued (intr_disable s.kernel.intr).1 v.valid.queue) w
              (rw w_blocked refl))
            refl

      up_with :
          (ws : List Tid)
          → s.mutex.semaphore.waiters ≡ ws
          → (s' : System) × (do_up s ≡ some s') × IsSafe s'
      up_with [] q = (
        raised (record { value = 1; waiters = [] }) s.kernel,
        do_up-eq [] [] (record s.kernel { intr = (intr_disable s.kernel.intr).1 }) zero_value q refl
            refl,
        raised-IsSafe e q,
      )
      up_with (w ∷ rest) q = (
        raised (record { value = 1; waiters = rest }) (unblocked w s.kernel),
        do_up-eq (w ∷ rest) rest
            (unblocked w (record s.kernel { intr = (intr_disable s.kernel.intr).1 })) zero_value q
            (woken w rest q) refl,
        handed-IsSafe w rest e q,
      )
