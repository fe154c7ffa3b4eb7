-- ===== src/Scheduler/Choice.antt =====
-- The search of `scheduler_schedule` in kernel/scheduler.c for the next task.
use v.Common.{
  ℕ, zero, suc, ◌+◌, ◌^◌, ◌≤◌, ◌<◌, ◌≡◌, refl, ◌∙◌, inl, inr, true, false, none, some, ◌==◌,
  if◌then◌else◌, arith, Bool-cases,
}
use v.Scheduler.{Scheduler, max_tasks, advance, goes_on, search_next, scheduler_schedule, report}
use v.Scheduler.Rounds.{slot, Stops, advance_count, advance-slot, stop_here, stop_later}

more_left :
    (s : Scheduler) (n old r : ℕ)
    → old < n
    → r ≤ n
    → s.current_task ≡ slot n old r
    → goes_on old s ≡ true
    → r < n
unfolding goes_on
more_left s n old r h hr e t = elsewhere n old r s.current_task h hr e (not_old s old t)
  where
    not_old : (s : Scheduler) (old : ℕ) → goes_on old s ≡ true → (s.current_task == old) ≡ false
    not_old s old t = ground arith

    elsewhere : (n old r c : ℕ) → old < n → r ≤ n → c ≡ slot n old r → (c == old) ≡ false → r < n
    elsewhere n old r c h hr e t = ground arith

-- With a round of fuel for each task that is left, the search stops.
search_next-Stops :
    (fuel : ℕ) (s : Scheduler) (n old k : ℕ)
    → old < n
    → n < 2 ^ 32
    → k + fuel ≡ n
    → 0 < fuel
    → s.task_count ≡ n
    → s.current_task ≡ slot n old k
    → (s' : Scheduler) × (search_next fuel old s ≡ some s') × Stops n old k s s'
unfolding search_next
search_next-Stops zero s n old k h small f pos c e = absurd (omega arith)
search_next-Stops (suc fuel) s n old k h small f pos c e =
    elim (Bool-cases (goes_on old (advance s))) [
      | inl more ↦
          let at = advance-slot s n old k h (omega arith) small c e in
          let (s', found, stops) =
            search_next-Stops fuel (advance s) n old (k + 1) h small (omega arith)
              (omega (arith, more_left (advance s) n old (k + 1) h (omega arith) at more))
              (advance_count s ∙ c) at in
          (s', rw more found, stop_later s s' n old k h (omega arith) small c e more stops)
      | inr done ↦ (advance s, rw done, stop_here s n old k h (omega arith) small c e done)
    ]

-- Valid indices: room for the count, and a current task among those that exist.
pub record IsValid (s : Scheduler) : Type 0 where
  pub few : s.task_count ≤ max_tasks
  pub current_in : s.current_task < s.task_count

-- With two tasks or more `scheduler_schedule` always returns. It visits the tasks after the current
-- one in order, counts each visited sleeper down and wakes it at zero; it stops at the first that is
-- then ready, or back at the current task after visiting all, and reports a switch exactly where the
-- task that it stops at is another one.
pub scheduler_schedule_chooses :
    (s : Scheduler)
    → IsValid s
    → 2 ≤ s.task_count
    → (s' : Scheduler) × (scheduler_schedule s
        ≡ some (
          s',
          (if s'.current_task == s.current_task
              then none
              else some (s.current_task, s'.current_task)),
        ))
      × Stops s.task_count s.current_task 0 s s'
unfolding scheduler_schedule report
scheduler_schedule_chooses s v two =
    let (s', found, stops) =
      search_next-Stops s.task_count s s.task_count s.current_task 0 v.current_in (omega arith)
        (omega arith) (omega arith) refl (ground arith) in
    (s', rw found (ground arith), stops)
