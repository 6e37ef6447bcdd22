-- ===== src/Thread/Wake.antt =====
-- `thread_unblock` of thread/thread.c: it keeps the invariant and does not panic.
use jack_os.Base.{
  ◌≡◌, refl, inl, inr, true, false, some, ◌∷◌, arith, has, has→not-mem, update, Bool-cases,
}
use jack_os.Interrupt.{critical_section, intr_disable, intr_set_status}
use jack_os.Thread.{TaskStatus, task_ready, Tid, Kernel, is_ready, sleeps, thread_unblock}
use jack_os.Thread.Queue.{IsQueued}

-- What `thread_unblock` of a sleeping thread does.
abbrev pub unblocked : Tid → Kernel → Kernel
unblocked t k = record k { ready_list = t ∷ k.ready_list; status = update k.status t task_ready }

sleeps-ready : (s : TaskStatus) → sleeps s ≡ true → is_ready s ≡ false
sleeps-ready s h = ground arith

module _ {k : Kernel} (q : IsQueued k) where
  sleeping-out : (t : Tid) → sleeps (k.status t) ≡ true → has t k.ready_list ≡ false
  sleeping-out t s = elim (Bool-cases (has t k.ready_list)) [
    | inl i ↦ let e = q.ready t i in ground arith
    | inr o ↦ o
  ]

  pub unblock-eq :
      (t : Tid) → sleeps (k.status t) ≡ true → thread_unblock t k ≡ some (unblocked t k)
  unfolding thread_unblock
  unblock-eq t s =
      let flag : (intr_set_status (intr_disable k.intr).0 (intr_disable k.intr).1).1 ≡ k.intr =
        (critical_section k.intr).1 in
      rw (s, sleeps-ready (k.status t) s, sleeping-out t s, flag) refl

  pub unblocked-IsQueued : (t : Tid) → sleeps (k.status t) ≡ true → IsQueued (unblocked t k)
  unblocked-IsQueued t s = record {
    distinct = (has→not-mem t k.ready_list (sleeping-out t s), q.distinct);
    queued = λ u e. ground (arith, q.queued u);
    ready = λ u i. ground (arith, q.ready u);
    single = λ u e. ground (arith, q.single u);
    idle = ground (arith, q.idle);
  }
