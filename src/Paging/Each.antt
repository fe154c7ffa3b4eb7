-- ===== src/Paging/Each.antt =====
-- The loops over `map_page` of kernel/memory.c that pass over what fails, as those that map stacks do.
use v.Common.{
  ℕ, zero, suc, ◌+◌, ◌*◌, ◌/◌, ◌%◌, ◌^◌, ◌<◌, ◌≡◌, ◌≢◌, refl, ap, ◌∙◌, Bool, true, false, ◌==◌, leb,
  ltb, ◌&&◌, ◌||◌, if◌then◌else◌, arith, inl, inr, ◌⊎◌, Bool-cases, u64,
}
use v.Pages.{map_each}
use v.Paging.{Paging, alloc_physical_page, map_page, page_tables}
use v.Paging.Tree.{entry, IsValid}
use v.Paging.Entry.{page_number}
use v.Paging.Map.{mapping, Outcome, map_page-Outcome}
use v.Paging.Run.{recount, Outside, shift}

-- What the loop over `n` pages from `addr` on comes to: the tables stay valid, the pages outside keep their
-- entries, and each page of the run keeps its entry or gets one with the flags.
pub record Tried (pool flags : ℕ) (s : Paging) (n addr : ℕ) (s1 : Paging) : Type 0 where
  pub valid : IsValid pool s1
  pub outside : (w : ℕ) → Outside n addr w → entry s1 w ≡ entry s w
  pub either : (w : ℕ) → (entry s1 w ≡ entry s w) ⊎ (entry s1 w % 4096 ≡ flags / 2 * 2 + 1)

-- One page.
abbrev Changed : (pool flags : ℕ) → Paging → ℕ → Paging → Type 0
Changed pool flags s addr s1 =
    IsValid pool s1
    × ((w : ℕ) → page_number addr ≢ page_number w → entry s1 w ≡ entry s w)
    × ((w : ℕ) → (entry s1 w ≡ entry s w) ⊎ (entry s1 w % 4096 ≡ flags / 2 * 2 + 1))

module _ (pool flags : ℕ) (small : flags < 4096) where
  Outcome-Changed :
      (s : Paging) (addr p : ℕ) (r : Bool × Paging)
      → Outcome pool s addr (mapping p flags) r
      → Changed pool flags s addr r.1
  Outcome-Changed s addr p (true, s1) (ok, on, off, used) = (
    ok,
    off,
    λ w. elim (Bool-cases (page_number addr == page_number w)) [
      | inl here ↦ inr (ap (λ e. e % 4096) (on w (ground (arith, here))) ∙ omega (arith, small))
      | inr elsewhere ↦ inl (off w (ground (arith, elsewhere)))
    ],
  )
  Outcome-Changed s addr p (false, s1) (ok, same, full) = (ok, λ w o. same w, λ w. inl (same w))

  round-Changed :
      (s : Paging) (addr : ℕ)
      → IsValid pool s
      → let (page, m1) = alloc_physical_page s in
        Changed pool flags s addr (if page == 0 then m1 else (map_page pool m1 addr page flags).1)
  unfolding alloc_physical_page
  round-Changed s addr ok =
      let (p, m1) = alloc_physical_page s in
      let ok1 = recount pool s m1.next_free_page ok in
      elim (Bool-cases (p == 0)) [
        | inl none_left ↦ rw none_left (ok1, λ w o. refl, λ w. inl refl)
        | inr page ↦ rw page (
            Outcome-Changed m1 addr p (map_page pool m1 addr p flags)
              (map_page-Outcome pool m1 addr p flags ok1 small))
      ]

  Changed-Tried :
      (s s1 s2 : Paging) (n addr : ℕ)
      → Changed pool flags s addr s1
      → Tried pool flags s1 n (addr + 4096) s2
      → Tried pool flags s (suc n) addr s2
  Changed-Tried s s1 s2 n addr (ok, off, one) rest = record {
    valid = rest.valid;
    outside = λ w o.
        let zeroth : addr + 0 * 4096 ≡ addr = omega arith in
        rest.outside w (λ i l e. o (suc i) (omega (arith, l)) (ap page_number (shift addr i) ∙ e))
        ∙ off w (λ e. o 0 (omega arith) (ap page_number zeroth ∙ e));
    either = λ w. elim (rest.either w) [
      | inl same ↦ elim (one w) [
        | inl before ↦ inl (same ∙ before)
        | inr new ↦ inr (ap (λ e. e % 4096) same ∙ new)
      ]
      | inr new ↦ inr new
    ];
  }

  pub map_each-Tried :
      (n addr : ℕ) (s : Paging)
      → IsValid pool s
      → addr + n * 4096 < 2 ^ 64
      → Tried pool flags s n addr (map_each (page_tables pool) n addr flags s)
  unfolding map_each
  map_each-Tried zero addr s ok b = record {
    valid = ok;
    outside = λ w o. refl;
    either = λ w. inl refl;
  }
  map_each-Tried (suc n) addr s ok b =
      let (page, m1) = alloc_physical_page s in
      let s1 = if page == 0 then m1 else (map_page pool m1 addr page flags).1 in
      let next : u64 (addr + 4096) ≡ addr + 4096 = omega (arith, b) in
      let changed = round-Changed s addr ok in
      let rest : Tried pool flags s1 n (addr + 4096)
          (map_each (page_tables pool) n (addr + 4096) flags s1) =
        map_each-Tried n (addr + 4096) s1 changed.0 (omega (arith, b)) in
      rw next (Changed-Tried s s1 _ n addr changed rest)

-- A page where the kernel puts stacks: the first 64 MB behind 0xFFFF800000000000, or the 62 MB of the users'
-- stacks.
abbrev pub is_stack : ℕ → Bool
is_stack w =
    let p = page_number w in
    (leb 0x800000000 p && ltb p 0x800004000) || (leb 0x1000FE p && ltb p 0x103F00)

-- Valid tables in which only such pages have another entry than before, and then a present and writable
-- one that the user can reach.
abbrev pub Grown : (pool : ℕ) → Paging → Paging → Type 0
Grown pool s s1 =
    IsValid pool s1
    × ((w : ℕ) → is_stack w ≡ false → entry s1 w ≡ entry s w)
    × ((w : ℕ) → (entry s1 w ≡ entry s w) ⊎ (entry s1 w % 4096 ≡ 7))

pub Grown-trans :
    (pool : ℕ) (s s1 s2 : Paging) → Grown pool s s1 → Grown pool s1 s2 → Grown pool s s2
Grown-trans pool s s1 s2 (v, off, one) (w, off2, two) = (
  w,
  λ a o. off2 a o ∙ off a o,
  λ a. elim (two a) [
    | inl same ↦ elim (one a) [
      | inl before ↦ inl (same ∙ before)
      | inr new ↦ inr (ap (λ e. e % 4096) same ∙ new)
    ]
    | inr new ↦ inr new
  ],
)

-- The loop over pages of stacks.
pub map_each-Grown :
    (pool n addr : ℕ) (s : Paging)
    → IsValid pool s
    → addr + n * 4096 < 2 ^ 64
    → ((w : ℕ) → is_stack w ≡ false → Outside n addr w)
    → Grown pool s (map_each (page_tables pool) n addr 7 s)
map_each-Grown pool n addr s ok b inside =
    let t = map_each-Tried pool 7 (omega arith) n addr s ok b in
    (t.valid, λ w o. t.outside w (inside w o), t.either)
