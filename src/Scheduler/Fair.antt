-- ===== src/Scheduler/Fair.antt =====
-- How long a ready task waits for `scheduler_schedule` of kernel/scheduler.c to choose it.
use v.Common.{
  ℕ, suc, ◌+◌, ◌-◌, ◌≤◌, ◌<◌, ◌≡◌, ◌≢◌, refl, sym, ap, ◌∙◌, inl, inr, true, Option, some, leb,
  arith, Bool-cases, subst,
}
use v.Scheduler.{Task, TaskState, ready, Scheduler, is_ready, wake, wake_in, scheduler_schedule}
use v.Scheduler.Rounds.{Stops, distance, visited}
use v.Scheduler.Choice.{IsValid, scheduler_schedule_chooses}

-- A run in which the task `t` is ready and is not chosen: `k` calls of `scheduler_schedule`, and between
-- them changes of the tasks that leave their number, the current one and that `t` is ready.
pub data Waits (t : ℕ) : ℕ → Scheduler → Scheduler → Type 0 where
  here : {s : Scheduler} → Waits t 0 s s
  turn :
      {k : ℕ} {s s1 s2 : Scheduler} {switch : Option (ℕ × ℕ)}
      → scheduler_schedule s ≡ some (s1, switch)
      → s1.current_task ≢ t
      → Waits t k s1 s2
      → Waits t (suc k) s s2
  change :
      {k : ℕ} {s s1 s2 : Scheduler}
      → s1.task_count ≡ s.task_count
      → s1.current_task ≡ s.current_task
      → is_ready (s1.tasks t).state ≡ true
      → Waits t k s1 s2
      → Waits t k s s2

wake_in_ready : (x : TaskState) (u : Task) → is_ready x ≡ true → wake_in x u ≡ u
unfolding is_ready wake_in
wake_in_ready ready u h = refl
wake_in_ready _ u h = cc

wake_ready : (u : Task) → is_ready u.state ≡ true → wake u ≡ u
unfolding wake
wake_ready u h = wake_in_ready u.state u h

-- The rounds that one call takes do not go beyond a ready task.
short :
    (s s' : Scheduler) (n old t : ℕ) (stops : Stops n old 0 s s')
    → old < n
    → t < n
    → is_ready (s.tasks t).state ≡ true
    → stops.round ≤ distance n old t
short s s' n old t stops o i r = elim (Bool-cases (leb stops.round (distance n old t))) [
  | inl e ↦ ground (arith, e)
  | inr e ↦
      let passed : visited n old 0 (stops.round - 1) t ≡ true = ground (arith, e, o, i) in
      let awake = ap (λ (u : Task). is_ready u.state) (wake_ready (s.tasks t) r) in
      let asleep = stops.skipped t passed in ground (arith, awake, asleep, r)
]

-- One call that does not choose `t` brings it nearer.
nearer :
    (s s' : Scheduler) (n old t : ℕ) (stops : Stops n old 0 s s')
    → old < n
    → t < n
    → is_ready (s.tasks t).state ≡ true
    → s'.current_task ≢ t
    → (distance n s'.current_task t < distance n old t)
      × (s'.current_task < n)
      × (is_ready (s'.tasks t).state ≡ true)
nearer s s' n old t stops o i r away =
    let le = short s s' n old t stops o i r in
    let at = stops.current in
    let kept : s'.tasks t ≡ s.tasks t =
      stops.woken t ∙ elim (Bool-cases (visited n old 0 stops.round t)) [
        | inl v ↦ rw v (wake_ready (s.tasks t) r)
        | inr v ↦ rw v refl
      ] in
    let inside : s'.current_task < n = ground (arith, at, stops.at_most, o) in
    let behind : stops.round ≢ distance n old t = λ e. away (ground (arith, at, e, o, i)) in
    (
      ground (arith, at, le, behind, stops.later, o, i),
      inside,
      ap (λ (u : Task). is_ready u.state) kept ∙ r,
    )

-- Where a call leads, by what `scheduler_schedule_chooses` says of it.
after_turn :
    (s s1 : Scheduler) (switch : Option (ℕ × ℕ)) (t : ℕ)
    → IsValid s
    → 2 ≤ s.task_count
    → t < s.task_count
    → is_ready (s.tasks t).state ≡ true
    → scheduler_schedule s ≡ some (s1, switch)
    → s1.current_task ≢ t
    → (s1.task_count ≡ s.task_count)
      × (s1.current_task < s.task_count)
      × (distance s.task_count s1.current_task t < distance s.task_count s.current_task t)
      × (is_ready (s1.tasks t).state ≡ true)
after_turn s s1 switch t v two i r e away =
    let (s', e', stops) = scheduler_schedule_chooses s v two in
    let same : s' ≡ s1 = cc in
    let moved : s'.current_task ≢ t =
      λ p. away (ap (λ (x : Scheduler). x.current_task) (sym same) ∙ p) in
    let (less, inside, still) =
      nearer s s' s.task_count s.current_task t stops v.current_in i r moved in
    subst
      (λ (x : Scheduler).
        (x.task_count ≡ s.task_count)
        × (x.current_task < s.task_count)
        × (distance s.task_count x.current_task t < distance s.task_count s.current_task t)
        × (is_ready (x.tasks t).state ≡ true))
      same (stops.same_count, inside, less, still)

Waits-less :
    (t k : ℕ) (s s2 : Scheduler)
    → Waits t k s s2
    → IsValid s
    → 2 ≤ s.task_count
    → t < s.task_count
    → is_ready (s.tasks t).state ≡ true
    → k < distance s.task_count s.current_task t
Waits-less t k s s2 here v two i r = ground (arith, v.current_in)
Waits-less t k s s2 (turn {k = j} {s1 = s1} {switch = w} e away rest) v two i r =
    let (same, inside, less, still) = after_turn s s1 w t v two i r e away in
    let ih =
      Waits-less t j s1 s2 rest
        (record { few = omega (arith, v.few, same); current_in = omega (arith, inside, same) })
        (omega (arith, two, same)) (omega (arith, i, same)) still in
    let ih1 : j < distance s.task_count s1.current_task t =
      subst (λ n. j < distance n s1.current_task t) same ih in
    omega (arith, ih1, less)
Waits-less t k s s2 (change {s1 = s1} count current still rest) v two i r =
    let ih =
      Waits-less t k s1 s2 rest
        (record {
          few = omega (arith, v.few, count);
          current_in = omega (arith, v.current_in, count, current);
        })
        (omega (arith, two, count)) (omega (arith, i, count)) still in
    subst (λ n. k < distance n s.current_task t) count
      (subst (λ c. k < distance s1.task_count c t) current ih)

-- From valid indices and with two tasks or more: a task other than the current one that is ready, and
-- stays so, is passed over by at most task_count - 2 calls of scheduler_schedule, whatever else changes
-- the other tasks between the calls without changing their number or the current one.
pub scheduler_schedule_fair :
    (t k : ℕ) (s s2 : Scheduler)
    → IsValid s
    → 2 ≤ s.task_count
    → t < s.task_count
    → t ≢ s.current_task
    → is_ready (s.tasks t).state ≡ true
    → Waits t k s s2
    → k + 2 ≤ s.task_count
scheduler_schedule_fair t k s s2 v two i other r w =
    ground (arith, Waits-less t k s s2 w v two i r, v.current_in, i, other)
