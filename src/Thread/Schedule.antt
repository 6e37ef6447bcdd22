-- ===== src/Thread/Schedule.antt =====
-- `schedule` of thread/thread.c keeps the invariant and never panics.
use jack_os.Base.{
  ◌≡◌, refl, sym, ◌∙◌, subst, ap, ap₂, mem-ne, inl, inr, true, false, some, List, [], ◌∷◌, ◌++◌,
  arith, has, append-nil, has-append, Distinct, has→not-mem, if◌then◌else◌, update, Bool-cases,
  Distinct-snoc,
}
use jack_os.Interrupt.{intr_off}
use jack_os.Thread.{
  TaskStatus, task_running, task_ready, task_blocked, Tid, Kernel, is_running, sleeps, is_off,
  is_empty, thread_unblock, requeue, switch, schedule,
}
use jack_os.Thread.Wake.{unblocked, unblock-eq, unblocked-IsQueued}
use jack_os.Thread.Queue.{IsQueued, IsValid, IsParted, SameSleepers, SameSleepers-trans}

-- The threads in the order in which they get the CPU: those that are ready, then the current one if
-- it is running, and the idle thread if these are none.
abbrev pub waiting_line : Kernel → List Tid
waiting_line k = k.ready_list ++ (if is_running (k.status k.current) then k.current ∷ [] else [])

abbrev pub or_idle : Tid → List Tid → List Tid
or_idle idle [] = idle ∷ []
or_idle idle (t ∷ ts) = t ∷ ts

abbrev requeued : Kernel → Kernel
requeued k = record k {
  ready_list = k.ready_list ++ k.current ∷ [];
  this_tick = update k.this_tick k.current (k.time_slice k.current);
  status = update k.status k.current task_ready;
}

is_running→eq : (s : TaskStatus) → is_running s ≡ true → s ≡ task_running
is_running→eq s h = ground arith

module _ {k : Kernel} (q : IsQueued k) where
  running-out : is_running (k.status k.current) ≡ true → has k.current k.ready_list ≡ false
  running-out r = elim (Bool-cases (has k.current k.ready_list)) [
    | inl i ↦ let e = q.ready k.current i in ground arith
    | inr o ↦ o
  ]

  requeued-IsParted : is_running (k.status k.current) ≡ true → IsParted (requeued k)
  requeued-IsParted r = record {
    queue = record {
      distinct =
          Distinct-snoc k.ready_list k.current q.distinct
            (has→not-mem k.current k.ready_list (running-out r));
      queued = λ u e. ground (arith, q.queued u, has-append u k.ready_list (k.current ∷ []));
      ready = λ u i. ground (arith, q.ready u, has-append u k.ready_list (k.current ∷ []));
      single = λ u e. ground (arith, q.single u);
      idle = ground (arith, q.idle, q.single k.idle_thread);
    };
    none_running = λ u e. ground (arith, q.single u);
  }

  -- What the first part of `schedule` leaves: nobody runs, and the line is ready.
  pub requeue_lem :
      (k' : Kernel) × (requeue k ≡ some k')
      × IsParted k'
      × (k'.ready_list ≡ waiting_line k)
      × SameSleepers k k'
      × (k'.intr ≡ k.intr)
  unfolding requeue
  requeue_lem = elim (Bool-cases (is_running (k.status k.current))) [
    | inl r ↦ (
      requeued k,
      rw (r, running-out r) refl,
      requeued-IsParted r,
      rw r refl,
      record {
        idle_thread = refl;
        asleep = λ t ne a. ground arith;
        were_asleep = λ t ne a. ground arith;
      },
      refl,
    )
    | inr s ↦ (
      k,
      rw s refl,
      record { queue = q; none_running = λ u e. ground (arith, q.single u) },
      rw (s, append-nil) refl,
      record { idle_thread = refl; asleep = λ t ne a. refl; were_asleep = λ t ne a. refl },
      refl,
    )
  ]

empty-has : (t : Tid) (l : List Tid) → is_empty l ≡ true → has t l ≡ false
empty-has t [] e = refl
empty-has t (x ∷ l) e = cc

full-or_idle : (i : Tid) (l : List Tid) → is_empty l ≡ false → or_idle i l ≡ l
full-or_idle i [] e = cc
full-or_idle i (x ∷ l) e = refl

empty-or_idle : (i : Tid) (l : List Tid) → is_empty l ≡ true → or_idle i l ≡ i ∷ l
empty-or_idle i [] e = refl
empty-or_idle i (x ∷ l) e = cc

pub or_idle-snoc : (i t : Tid) (l : List Tid) → or_idle i (l ++ t ∷ []) ≡ l ++ t ∷ []
or_idle-snoc i t [] = refl
or_idle-snoc i t (x ∷ l) = refl

or_idle-cons : (i : Tid) (l : List Tid) → (x : Tid) × (rest : List Tid) × (or_idle i l ≡ x ∷ rest)
or_idle-cons i [] = (i, [], refl)
or_idle-cons i (x ∷ l) = (x, l, refl)

module _ {k : Kernel} (p : IsParted k) where
  idle_blocked : is_empty k.ready_list ≡ true → k.status k.idle_thread ≡ task_blocked
  idle_blocked e = ground (
    arith,
    p.queue.idle,
    p.none_running k.idle_thread,
    p.queue.queued k.idle_thread,
    empty-has k.idle_thread k.ready_list e,
  )

  -- The ready list is filled by the idle thread if nobody else is ready.
  pub wake_lem :
      (k' : Kernel) × ((if is_empty k.ready_list then thread_unblock k.idle_thread k else some k)
        ≡ some k')
      × IsParted k'
      × (k'.ready_list ≡ or_idle k.idle_thread k.ready_list)
      × SameSleepers k k'
      × (k'.intr ≡ k.intr)
  wake_lem = elim (Bool-cases (is_empty k.ready_list)) [
    | inl e ↦
        let s : sleeps (k.status k.idle_thread) ≡ true = rw (idle_blocked e) refl in
        (
          unblocked k.idle_thread k,
          rw e (unblock-eq p.queue k.idle_thread s),
          record {
            queue = unblocked-IsQueued p.queue k.idle_thread s;
            none_running = λ u r. ground (arith, p.none_running u);
          },
          sym (empty-or_idle k.idle_thread k.ready_list e),
          record {
            idle_thread = refl;
            asleep = λ t ne a. ground arith;
            were_asleep = λ t ne a. ground arith;
          },
          refl,
        )
    | inr e ↦ (
      k,
      rw e refl,
      p,
      sym (full-or_idle k.idle_thread k.ready_list e),
      record { idle_thread = refl; asleep = λ t ne a. refl; were_asleep = λ t ne a. refl },
      refl,
    )
  ]

  -- The first thread of the ready list gets the CPU.
  pub switch_lem :
      (x : Tid) (rest : List Tid)
      → k.ready_list ≡ x ∷ rest
      → (k' : Kernel) × (switch (x ∷ rest) k ≡ some k')
        × IsValid k'
        × (k'.current ∷ k'.ready_list ≡ x ∷ rest)
        × SameSleepers k k'
        × (k'.intr ≡ k.intr)
  unfolding switch
  switch_lem x rest e =
      let d : Distinct (x ∷ rest) = subst Distinct e p.queue.distinct in
      let here = λ (u : Tid). ap (has u) e in
      (
        record k { ready_list = rest; status = update k.status x task_running; current = x },
        refl,
        record {
          queue = record {
            distinct = d.1;
            queued = λ u r. ground (arith, p.queue.queued u, here u);
            ready = λ u i. ground (arith, p.queue.ready u, here u, mem-ne u x rest i d.0);
            single = λ u r. ground (arith, p.none_running u);
            idle = ground (arith, p.queue.idle);
          };
          running = ground arith;
        },
        refl,
        record {
          idle_thread = refl;
          asleep = λ t ne a. ground (arith, p.queue.queued t, p.queue.ready t, here t);
          were_asleep = λ t ne a. ground arith;
        },
        refl,
      )

schedule-eq :
    (k k1 k2 k3 : Kernel)
    → is_off k.intr ≡ true
    → requeue k ≡ some k1
    → (if is_empty k1.ready_list then thread_unblock k1.idle_thread k1 else some k1) ≡ some k2
    → switch k2.ready_list k2 ≡ some k3
    → schedule k ≡ some k3
unfolding schedule
schedule-eq k k1 k2 k3 off e1 e2 e3 = rw (off, e1, e2) e3

-- `schedule`, called with the flag clear, does not panic, and gives the CPU to the first in line.
pub schedule_lem :
    {k : Kernel}
    → IsQueued k
    → k.intr ≡ intr_off
    → (k' : Kernel) × (schedule k ≡ some k')
      × IsValid k'
      × (k'.current ∷ k'.ready_list ≡ or_idle k.idle_thread (waiting_line k))
      × SameSleepers k k'
      × (k'.intr ≡ intr_off)
schedule_lem {k} q off =
    let (k1, e1, p1, line1, same1, intr1) = requeue_lem q in
    let (k2, e2, p2, line2, same2, intr2) = wake_lem p1 in
    let line : k2.ready_list ≡ or_idle k.idle_thread (waiting_line k) =
      line2 ∙ ap₂ or_idle same1.idle_thread line1 in
    let (x, rest, first) = or_idle-cons k.idle_thread (waiting_line k) in
    let (k3, e3, v3, line3, same3, intr3) = switch_lem p2 x rest (line ∙ first) in
    (
      k3,
      schedule-eq k k1 k2 k3 (ap is_off off) e1 e2
          (subst (λ l. switch l k2 ≡ some k3) (sym (line ∙ first)) e3),
      v3,
      line3 ∙ sym first,
      SameSleepers-trans same1 (SameSleepers-trans same2 same3),
      intr3 ∙ intr2 ∙ intr1 ∙ off,
    )
