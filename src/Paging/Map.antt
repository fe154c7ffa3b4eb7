-- ===== src/Paging/Map.antt =====
-- `map_page` of kernel/memory.c and the entries of all addresses.
use v.Common.{
  ℕ, ◌+◌, ◌*◌, ◌/◌, ◌≤◌, ◌<◌, ◌≡◌, ◌≢◌, refl, sym, ap, ◌∙◌, Bool, true, false, Option, none, some,
  arith, subst, bit_or-page, bit_or-one,
}
use Prim.Native.Nat.{bit_or}
use v.Paging.{
  Paging, pool_size, present, page_of, slot, pml4_index, pdpt_index, pd_index, pt_index, next_table,
  and_then, map_entry, map_page,
}
use v.Paging.Tree.{index_bound, walk, entry, IsValid}
use v.Paging.Entry.{page_number, written-IsTree, entry-written}
use v.Paging.Descend.{Led, Step, next_table-Step}

-- The entry that `map_page` writes for the physical page of `p`: its address and the flags, with the
-- present flag set.
abbrev pub mapping : ℕ → ℕ → ℕ
mapping p flags = page_of p + (flags / 2 * 2 + 1)

-- What `map_page` comes to at `v`: its page gets the entry, or nothing changes since the pool has
-- less than three pages left.
abbrev pub Outcome : ℕ → Paging → ℕ → ℕ → Bool × Paging → Type 0
Outcome pool s v e (true, s1) =
    IsValid pool s1
    × ((w : ℕ) → page_number v ≡ page_number w → entry s1 w ≡ e)
    × ((w : ℕ) → page_number v ≢ page_number w → entry s1 w ≡ entry s w)
    × (s1.bootstrap_memory_used ≤ s.bootstrap_memory_used + 3 * 4096)
Outcome pool s v e (false, s1) =
    IsValid pool s1
    × ((w : ℕ) → entry s1 w ≡ entry s w)
    × (pool_size < s.bootstrap_memory_used + 3 * 4096)

pub mapping_lem :
    (p flags : ℕ) → flags < 4096 → bit_or (bit_or (page_of p) flags) 1 ≡ mapping p flags
mapping_lem p flags h =
    let page : page_of p ≡ p / 4096 * 4096 = omega arith in
    ap (λ x. bit_or (bit_or x flags) 1) page
    ∙ ap (λ x. bit_or x 1) (bit_or-page (p / 4096) flags h)
    ∙ bit_or-one (p / 4096 * 4096 + flags)
    ∙ omega arith

module _ (pool : ℕ) (s : Paging) (ok : IsValid pool s) (v p flags : ℕ) (small : flags < 4096) where
  abbrev First : ℕ → Paging → Type 0
  First pdpt s1 = Led pool s ok.level s.pml4 (pml4_index v) 2 pdpt s1

  -- The three steps together make the walk of `v`.
  walk-Led :
      (pdpt pd pt : ℕ) (s1 s2 s3 : Paging)
      → (a : First pdpt s1) → (b : Led pool s1 a.valid.level pdpt (pdpt_index v) 1 pd s2)
      → Led pool s2 b.valid.level pd (pd_index v) 0 pt s3
      → walk 3 s3.words s3.pml4 v ≡ some pt
  unfolding walk
  walk-Led pdpt pd pt s1 s2 s3 a b c =
      let top : s3.pml4 ≡ s.pml4 = c.same_root ∙ b.same_root ∙ a.same_root in
      let root = ok.tree.root in
      let root1 = a.ranks s.pml4 (omega (arith, root)) in
      let root2 = b.ranks s.pml4 (omega (arith, root, root1)) in
      let r1 =
        b.stands s.pml4 (pml4_index v) (omega (arith, root, root1)) (index_bound 3 v) a.there in
      let r2 : s3.words (slot s.pml4 (pml4_index v)) ≡ s1.words (slot s.pml4 (pml4_index v)) =
        c.stands s.pml4 (pml4_index v) (omega (arith, root, root1, root2)) (index_bound 3 v)
          (ap present r1 ∙ a.there)
        ∙ r1 in
      let q =
        c.stands pdpt (pdpt_index v) (omega (arith, a.below, b.ranks pdpt (omega (arith, a.below))))
          (index_bound 2 v) b.there in
      rw (top, r2, a.there, a.to, q, b.there, b.to, c.there, c.to) refl

  third :
      (pdpt pd : ℕ) (s1 s2 : Paging)
      → (a : First pdpt s1) → (b : Led pool s1 a.valid.level pdpt (pdpt_index v) 1 pd s2)
      → (r : Option ℕ × Paging) → Step pool s2 b.valid.level pd (pd_index v) 0 r
      → Outcome pool s v
          (mapping p flags)
          (and_then pool r (map_entry pool (pt_index v) (page_of p) flags))
  unfolding and_then map_entry
  third pdpt pd s1 s2 a b (none, s3) (same, full) =
      subst (λ x. Outcome pool s v (mapping p flags) (false, x)) (sym same)
        (b.valid, λ w. b.keeps w ∙ a.keeps w, omega (arith, full, a.used, b.used))
  third pdpt pd s1 s2 a b (some pt, s3) c =
      let e = bit_or (bit_or (page_of p) flags) 1 in
      let walked = walk-Led pdpt pd pt s1 s2 s3 a b c in
      let (on, off) =
        entry-written pool s3 c.valid.level c.valid.parent c.valid.place c.valid.tree pt v e
          walked in
      (
        record {
          level = c.valid.level;
          parent = c.valid.parent;
          place = c.valid.place;
          tree =
              written-IsTree pool s3 c.valid.level c.valid.parent c.valid.place c.valid.tree pt
                (pt_index v) e c.below (index_bound 0 v);
        },
        λ w n. on w n ∙ mapping_lem p flags small,
        λ w n. off w n ∙ c.keeps w ∙ b.keeps w ∙ a.keeps w,
        omega (arith, a.used, b.used, c.used),
      )

  second :
      (pdpt : ℕ) (s1 : Paging)
      → (a : First pdpt s1) → (r : Option ℕ × Paging)
      → Step pool s1 a.valid.level pdpt (pdpt_index v) 1 r
      → Outcome pool s v (mapping p flags) (
          and_then pool r (λ pd s2.
            and_then pool
              (next_table pool s2 pd (pd_index v))
              (map_entry pool (pt_index v) (page_of p) flags)))
  unfolding and_then
  second pdpt s1 a (none, s2) (same, full) =
      subst (λ x. Outcome pool s v (mapping p flags) (false, x)) (sym same)
        (a.valid, λ w. a.keeps w, omega (arith, full, a.used))
  second pdpt s1 a (some pd, s2) b =
      third pdpt pd s1 s2 a b (next_table pool s2 pd (pd_index v))
        (next_table-Step pool s2 b.valid pd (pd_index v) 0 b.below (index_bound 1 v))

  first :
      (r : Option ℕ × Paging)
      → Step pool s ok.level s.pml4 (pml4_index v) 2 r
      → Outcome pool s v (mapping p flags) (
          and_then pool r (λ pdpt s1.
            and_then pool (next_table pool s1 pdpt (pdpt_index v)) (λ pd s2.
              and_then pool
                (next_table pool s2 pd (pd_index v))
                (map_entry pool (pt_index v) (page_of p) flags))))
  unfolding and_then
  first (none, s1) (same, full) =
      subst (λ x. Outcome pool s v (mapping p flags) (false, x)) (sym same)
        (ok, λ w. refl, omega (arith, full))
  first (some pdpt, s1) a =
      second pdpt s1 a (next_table pool s1 pdpt (pdpt_index v))
        (next_table-Step pool s1 a.valid pdpt (pdpt_index v) 1 a.below (index_bound 2 v))

-- On valid page tables over an aligned pool, and with flags below 4096, map_page returns: it either
-- succeeds, and then the page table entry of every address of the page is the physical page with the
-- flags and the present flag while no other page's entry changes and at most three pages of the pool are
-- used; or it fails with less than three pages left in the pool and no entry changed. The page tables stay
-- valid in both cases.
pub map_page-Outcome :
    (pool : ℕ) (s : Paging) (v p flags : ℕ)
    → IsValid pool s
    → flags < 4096
    → Outcome pool s v (mapping p flags) (map_page pool s v p flags)
unfolding map_page
map_page-Outcome pool s v p flags ok small =
    let i3 : pml4_index (page_of v) ≡ pml4_index v = omega arith in
    let i2 : pdpt_index (page_of v) ≡ pdpt_index v = omega arith in
    let i1 : pd_index (page_of v) ≡ pd_index v = omega arith in
    let i0 : pt_index (page_of v) ≡ pt_index v = omega arith in
    rw (map_page, i3, i2, i1, i0)
      (first pool s ok v p flags small (next_table pool s s.pml4 (pml4_index v))
        (next_table-Step pool s ok s.pml4 (pml4_index v) 2 ok.tree.root (index_bound 3 v)))
