-- ===== src/Process/Slots.antt =====
-- The slots of kernel/process.c: the search for a free one, and how many are in use.
use v.Common.{
  ℕ, zero, suc, ◌+◌, ◌≤◌, ◌<◌, ◌≡◌, refl, ◌⊎◌, inl, inr, Bool, true, false, ◌==◌, if◌then◌else◌,
  update, arith, Bool-cases, subst, ==→eq,
}
use v.Process.{Process, is_terminated, find_slot, count_child}

-- The slot `i` is free.
abbrev pub is_free : (ℕ → Process) → ℕ → Bool
is_free f i = is_terminated (f i).state

-- The first free slot of the `n` from `i` on, or 0 where none is free.
abbrev pub FirstFree : (n i : ℕ) → (ℕ → Process) → ℕ → Type 0
FirstFree n i f r =
    ((r ≡ 0) × ((j : ℕ) → i ≤ j → j < i + n → is_free f j ≡ false))
    ⊎ ((i ≤ r)
        × (r < i + n)
        × (is_free f r ≡ true)
        × ((j : ℕ) → i ≤ j → j < r → is_free f j ≡ false))

pub find_slot-FirstFree : (n i : ℕ) (f : ℕ → Process) → FirstFree n i f (find_slot n i f)
unfolding find_slot
find_slot-FirstFree zero i f = inl (refl, λ j h k. absurd (omega arith))
find_slot-FirstFree (suc n) i f = elim (Bool-cases (is_free f i)) [
  | inl free ↦ rw free (inr (omega arith, omega arith, free, λ j h k. absurd (omega arith)))
  | inr used ↦
      rw used (further n i f used (find_slot n (i + 1) f) (find_slot-FirstFree n (i + 1) f))
]
  where
    here_or_later :
        (i : ℕ) (f : ℕ → Process)
        → is_free f i ≡ false
        → (j : ℕ) → i ≤ j
        → (i + 1 ≤ j → is_free f j ≡ false)
        → is_free f j ≡ false
    here_or_later i f used j h k = elim (Bool-cases (i == j)) [
      | inl here ↦ subst (λ x. is_free f x ≡ false) (==→eq i j here) used
      | inr there ↦ k (ground arith)
    ]

    further :
        (n i : ℕ) (f : ℕ → Process)
        → is_free f i ≡ false
        → (r : ℕ) → FirstFree n (i + 1) f r
        → FirstFree (suc n) i f r
    further n i f used r (inl (z, all)) =
        inl (z, λ j h k. here_or_later i f used j h (λ h'. all j h' (omega arith)))
    further n i f used r (inr (a, b, free, all)) =
        inr (omega arith, omega arith, free, λ j h k. here_or_later i f used j h (λ h'. all j h' k))

-- How many of the `n` slots from `i` on are in use.
unfoldable pub in_use : (n i : ℕ) → (ℕ → Process) → ℕ
in_use zero i f = 0
in_use (suc n) i f = (if is_free f i then 0 else 1) + in_use n (i + 1) f

pub in_use-le : (n i : ℕ) (f : ℕ → Process) → in_use n i f ≤ n
unfolding in_use
in_use-le zero i f = omega arith
in_use-le (suc n) i f = ground (arith, in_use-le n (i + 1) f)

-- The count goes by the states alone.
pub in_use_same :
    (n i : ℕ) (f g : ℕ → Process)
    → ((j : ℕ) → is_free f j ≡ is_free g j)
    → in_use n i f ≡ in_use n i g
unfolding in_use
in_use_same zero i f g h = refl
in_use_same (suc n) i f g h = ground (arith, h i, in_use_same n (i + 1) f g h)

in_use-update_outside :
    (n i p : ℕ) (f : ℕ → Process) (x : Process) → p < i → in_use n i (update f p x) ≡ in_use n i f
unfolding in_use
in_use-update_outside zero i p f x h = refl
in_use-update_outside (suc n) i p f x h = ground (arith, in_use-update_outside n (i + 1) p f x)

abbrev pub weight : Process → ℕ
weight x = if is_terminated x.state then 0 else 1

-- A write to one slot changes the count by that slot.
pub in_use-update :
    (n i p : ℕ) (f : ℕ → Process) (x : Process)
    → i ≤ p
    → p < i + n
    → in_use n i (update f p x) + weight (f p) ≡ in_use n i f + weight x
unfolding in_use
in_use-update zero i p f x h k = absurd (omega arith)
in_use-update (suc n) i p f x h k = elim (Bool-cases (i == p)) [
  | inl here ↦ ground (arith, in_use-update_outside n (i + 1) p f x)
  | inr there ↦ ground (arith, in_use-update n (i + 1) p f x)
]

-- A count below `n` leaves a slot free.
pub in_use_full :
    (n i : ℕ) (f : ℕ → Process)
    → ((j : ℕ) → i ≤ j → j < i + n → is_free f j ≡ false)
    → in_use n i f ≡ n
unfolding in_use
in_use_full zero i f h = refl
in_use_full (suc n) i f h = ground (
  arith,
  h i (omega arith) (omega arith),
  in_use_full n (i + 1) f (λ j a b. h j (omega arith) (omega arith)),
)

pub count_child_state :
    (parent : ℕ) (f : ℕ → Process) (j : ℕ) → (count_child parent f j).state ≡ (f j).state
unfolding count_child
count_child_state parent f j = ground arith

pub count_child_pid :
    (parent : ℕ) (f : ℕ → Process) (j : ℕ) → (count_child parent f j).pid ≡ (f j).pid
unfolding count_child
count_child_pid parent f j = ground arith
