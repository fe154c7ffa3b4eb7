-- ===== src/Scheduler/Rounds.antt =====
-- The rounds of the search of `scheduler_schedule` (kernel/scheduler.c): which task each visits.
use v.Common.{
  ℕ, ◌+◌, ◌-◌, ◌%◌, ◌^◌, ◌≤◌, ◌<◌, ◌≡◌, refl, sym, ap, ◌∙◌, ◌⊎◌, inl, inr, Bool, true, false, not,
  ◌&&◌, ◌==◌, ltb, leb, if◌then◌else◌, u32, arith, Bool-cases, ==→eq,
}
use native.Mathlib.Nat.{mod-eq_of_lt, mod_self}
use v.Scheduler.{Task, Scheduler, is_ready, wake, advance, goes_on}

-- The `j`-th task after the task `old` of `n`, going round.
abbrev pub slot : ℕ → ℕ → ℕ → ℕ
slot n old j = if ltb (old + j) n then old + j else old + j - n

-- How far the task `i` is after `old`: 1 for the next one, `n` for `old` itself.
abbrev pub distance : ℕ → ℕ → ℕ → ℕ
distance n old i = if ltb old i then i - old else i + n - old

-- `i` is a task that the search visits in the rounds after `k` up to `r`.
abbrev pub visited : (n old k r i : ℕ) → Bool
visited n old k r i = ltb i n && (ltb k (distance n old i) && leb (distance n old i) r)

-- The search stops after round `r`, from the state `s` after round `k`.
pub record Stops (n old k : ℕ) (s s' : Scheduler) : Type 0 where
  pub round : ℕ
  pub later : k < round
  pub at_most : round ≤ n
  pub same_count : s'.task_count ≡ n
  pub current : s'.current_task ≡ slot n old round
  pub choice : (is_ready (s'.tasks s'.current_task).state ≡ true) ⊎ (round ≡ n)
  pub skipped :
      (i : ℕ) → visited n old k (round - 1) i ≡ true → is_ready (wake (s.tasks i)).state ≡ false
  pub woken :
      (i : ℕ) → s'.tasks i ≡ (if visited n old k round i then wake (s.tasks i) else s.tasks i)

next_mod : (c n : ℕ) → c < n → n < 2 ^ 32 → u32 (c + 1) % n ≡ (if (c + 1) == n then 0 else c + 1)
next_mod c n h small = elim (Bool-cases ((c + 1) == n)) [
  | inl e ↦ rw e (
      ap (λ (x : ℕ). u32 x % n) (==→eq (c + 1) n e)
      ∙ ap (λ (x : ℕ). x % n) (mod-eq_of_lt small)
      ∙ mod_self n)
  | inr e ↦ rw e (mod-eq_of_lt (ground arith) ∙ omega arith)
]

advance_current :
    (c n old k : ℕ)
    → n < 2 ^ 32
    → old < n
    → k < n
    → c ≡ slot n old k
    → u32 (c + 1) % n ≡ slot n old (k + 1)
advance_current c n old k small h hk e = next_mod c n (ground arith) small ∙ ground arith

-- One round visits the next slot.
advance_woken :
    (s : Scheduler) (n old k i : ℕ)
    → old < n
    → k < n
    → (advance s).current_task ≡ slot n old (k + 1)
    → s.task_count ≡ n
    → (advance s).tasks i ≡ (if visited n old k (k + 1) i then wake (s.tasks i) else s.tasks i)
unfolding advance
advance_woken s n old k i h hk e c = ground arith

pub advance_count : (s : Scheduler) → (advance s).task_count ≡ s.task_count
unfolding advance
advance_count s = refl

pub advance-slot :
    (s : Scheduler) (n old k : ℕ)
    → old < n
    → k < n
    → n < 2 ^ 32
    → s.task_count ≡ n
    → s.current_task ≡ slot n old k
    → (advance s).current_task ≡ slot n old (k + 1)
unfolding advance
advance-slot s n old k h hk small c e =
    ap (λ (m : ℕ). u32 (s.current_task + 1) % m) c
    ∙ advance_current s.current_task n old k small h hk e

ended :
    (s : Scheduler) (n old r : ℕ)
    → old < n
    → 0 < r
    → r ≤ n
    → s.current_task ≡ slot n old r
    → goes_on old s ≡ false
    → (is_ready (s.tasks s.current_task).state ≡ true) ⊎ (r ≡ n)
unfolding goes_on
ended s n old r h hr hn e t = elim (Bool-cases (is_ready (s.tasks s.current_task).state)) [
  | inl yes_ready ↦ inl yes_ready
  | inr not_ready ↦ inr (round_trip n old r s.current_task h hr hn e (rw not_ready at t))
]
  where
    round_trip :
        (n old r c : ℕ)
        → old < n
        → 0 < r
        → r ≤ n
        → c ≡ slot n old r
        → not (c == old) ≡ false
        → r ≡ n
    round_trip n old r c h hr hn e t = ground arith

not_ready_on :
    (s : Scheduler) (old : ℕ)
    → goes_on old s ≡ true
    → is_ready (s.tasks s.current_task).state ≡ false
unfolding goes_on
not_ready_on s old t = ground arith

-- The search stopped right here.
pub stop_here :
    (s : Scheduler) (n old k : ℕ)
    → old < n
    → k < n
    → n < 2 ^ 32
    → s.task_count ≡ n
    → s.current_task ≡ slot n old k
    → goes_on old (advance s) ≡ false
    → Stops n old k s (advance s)
stop_here s n old k h hk small c e t =
    let at = advance-slot s n old k h hk small c e in
    record {
      round = k + 1;
      later = omega arith;
      at_most = omega arith;
      same_count = advance_count s ∙ c;
      current = at;
      choice = ended (advance s) n old (k + 1) h (omega arith) (omega arith) at t;
      skipped = λ i v. ground arith;
      woken = λ i. advance_woken s n old k i h hk at c;
    }

-- A task that a later round visits is not the one of this round.
beyond_same :
    (s : Scheduler) (n old k i : ℕ)
    → old < n
    → k < n
    → (advance s).current_task ≡ slot n old (k + 1)
    → s.task_count ≡ n
    → (r : ℕ) → visited n old (k + 1) r i ≡ true
    → (advance s).tasks i ≡ s.tasks i
beyond_same s n old k i h hk at c r v =
    advance_woken s n old k i h hk at c
    ∙ ap (λ (b : Bool). if b then wake (s.tasks i) else s.tasks i) (not_first n old k i r v)
  where
    not_first :
        (n old k i r : ℕ) → visited n old (k + 1) r i ≡ true → visited n old k (k + 1) i ≡ false
    not_first n old k i r v = ground arith

slot_of :
    (n old k i : ℕ)
    → old < n
    → (r : ℕ) → visited n old k r i ≡ true
    → visited n old (k + 1) r i ≡ false
    → i ≡ slot n old (k + 1)
slot_of n old k i h r v w = ground arith

here_woken :
    (s : Scheduler) (n old k i : ℕ)
    → old < n
    → k < n
    → (advance s).current_task ≡ slot n old (k + 1)
    → s.task_count ≡ n
    → i ≡ slot n old (k + 1)
    → (advance s).tasks i ≡ wake (s.tasks i)
here_woken s n old k i h hk at c e =
    advance_woken s n old k i h hk at c
    ∙ ap (λ (b : Bool). if b then wake (s.tasks i) else s.tasks i) (first n old k i h hk e)
  where
    first :
        (n old k i : ℕ)
        → old < n
        → k < n
        → i ≡ slot n old (k + 1)
        → visited n old k (k + 1) i ≡ true
    first n old k i h hk e = ground arith

beyond_both : (n old k i r : ℕ) → visited n old (k + 1) r i ≡ true → visited n old k r i ≡ true
beyond_both n old k i r v = ground arith

first_only :
    (n old k i r : ℕ)
    → k < r
    → visited n old (k + 1) r i ≡ false
    → visited n old k (k + 1) i ≡ visited n old k r i
first_only n old k i r h v = ground arith

-- The search goes on from the next round.
pub stop_later :
    (s s' : Scheduler) (n old k : ℕ)
    → old < n
    → k < n
    → n < 2 ^ 32
    → s.task_count ≡ n
    → s.current_task ≡ slot n old k
    → goes_on old (advance s) ≡ true
    → Stops n old (k + 1) (advance s) s'
    → Stops n old k s s'
stop_later s s' n old k h hk small c e t r =
    let at = advance-slot s n old k h hk small c e in
    record {
      round = r.round;
      later = omega arith;
      at_most = r.at_most;
      same_count = r.same_count;
      current = r.current;
      choice = r.choice;
      skipped = λ i v. elim (Bool-cases (visited n old (k + 1) (r.round - 1) i)) [
        | inl beyond ↦
            ap (λ (x : Task). is_ready (wake x).state)
              (sym (beyond_same s n old k i h hk at c (r.round - 1) beyond))
            ∙ r.skipped i beyond
        | inr not_beyond ↦
            let here = slot_of n old k i h (r.round - 1) v not_beyond in
            ap (λ (x : Task). is_ready x.state) (sym (here_woken s n old k i h hk at c here))
            ∙ ap (λ (j : ℕ). is_ready ((advance s).tasks j).state) (here ∙ sym at)
            ∙ not_ready_on (advance s) old t
      ];
      woken = λ i. elim (Bool-cases (visited n old (k + 1) r.round i)) [
        | inl beyond ↦
            r.woken i
            ∙ rw (beyond, beyond_both n old k i r.round beyond)
                (ap wake (beyond_same s n old k i h hk at c r.round beyond))
        | inr not_beyond ↦
            r.woken i
            ∙ rw not_beyond (
                advance_woken s n old k i h hk at c
                ∙ ap (λ (b : Bool). if b then wake (s.tasks i) else s.tasks i)
                    (first_only n old k i r.round (omega arith) not_beyond))
      ];
    }
