-- ===== src/Paging/Descend.antt =====
-- One level of `map_page` of kernel/memory.c: the next table, a new one where there is none.
use v.Common.{
  ℕ, suc, ◌+◌, ◌%◌, ◌≤◌, ◌<◌, ◌≡◌, refl, ap, ◌∙◌, true, false, Option, none, some, ◌==◌, ltb, arith,
  inl, inr, Bool-cases, ==→eq, u32, update_other, update_same, ltb→lt, ltb→le,
}
use v.Paging.{Paging, pool_size, present, page_of, slot, bootstrap_alloc, add_table, next_table}
use v.Paging.Tree.{entry, IsValid}
use v.Paging.Add.{
  after, after-IsTree, level_after, parent_after, place_after, entry-after, at_old, at_link,
}

-- The step from entry `i` of `table`, `k + 2` levels above the pages, led to `next`.
pub record Led (pool : ℕ) (s : Paging) (level : ℕ → ℕ) (table i k next : ℕ) (s1 : Paging)
    : Type 0 where
  pub valid : IsValid pool s1
  pub below : valid.level next ≡ suc k
  pub there : present (s1.words (slot table i)) ≡ true
  pub to : page_of (s1.words (slot table i)) ≡ next
  pub keeps : (v : ℕ) → entry s1 v ≡ entry s v
  pub ranks : (u : ℕ) → 0 < level u → valid.level u ≡ level u
  pub stands :
      (u j : ℕ)
      → 0 < level u
      → j < 512
      → present (s.words (slot u j)) ≡ true
      → s1.words (slot u j) ≡ s.words (slot u j)
  pub same_root : s1.pml4 ≡ s.pml4
  pub used : s1.bootstrap_memory_used ≤ s.bootstrap_memory_used + 4096

-- What the step comes to: a table, or nothing changed because the pool is used up.
abbrev pub Step : ℕ → Paging → (ℕ → ℕ) → ℕ → ℕ → ℕ → Option ℕ × Paging → Type 0
Step pool s level table i k (some next, s1) = Led pool s level table i k next s1
Step pool s level table i k (none, s1) = (s1 ≡ s) × (pool_size < s.bootstrap_memory_used + 4096)

module _ (pool : ℕ) (s : Paging) (ok : IsValid pool s) (table i k : ℕ)
    (above : ok.level table ≡ suc (suc k)) (inside : i < 512) where
  existing :
      present (s.words (slot table i)) ≡ true
      → Led pool s ok.level table i k (page_of (s.words (slot table i))) s
  existing h = record {
    valid = ok;
    below = (ok.tree.child table i k above inside h).0;
    there = h;
    to = refl;
    keeps = λ v. refl;
    ranks = λ u l. refl;
    stands = λ u j l b p. refl;
    same_root = refl;
    used = omega arith;
  }

  added :
      (absent : present (s.words (slot table i)) ≡ false)
      → (space : s.bootstrap_memory_used + 4096 ≤ pool_size)
      → Led pool s ok.level table i k
          (pool + s.bootstrap_memory_used)
          (after pool s ok.level ok.parent ok.place ok.tree table i k above inside absent space)
  added absent space =
      let new = pool + s.bootstrap_memory_used in
      let new_page : new % 4096 ≡ 0 = omega (arith, ok.tree.pool_page, ok.tree.used_page) in
      let linked =
        at_link pool s ok.level ok.parent ok.place ok.tree table i k above inside absent space in
      let empty : ok.level new ≡ 0 = ok.tree.fresh new (omega arith) (omega (arith, space)) in
      record {
        valid = record {
          level =
              level_after pool s ok.level ok.parent ok.place ok.tree table i k above inside absent
                space;
          parent =
              parent_after pool s ok.level ok.parent ok.place ok.tree table i k above inside absent
                space;
          place =
              place_after pool s ok.level ok.parent ok.place ok.tree table i k above inside absent
                space;
          tree =
              after-IsTree pool s ok.level ok.parent ok.place ok.tree table i k above inside absent
                space;
        };
        below = update_same ok.level new (suc k);
        there = ap present linked ∙ ground (arith, new_page);
        to = ap page_of linked ∙ omega (arith, new_page);
        keeps =
            entry-after pool s ok.level ok.parent ok.place ok.tree table i k above inside absent
              space;
        ranks = λ u l.
            update_other ok.level new (suc k) u (λ e. omega (arith, l, empty, ap ok.level e));
        stands = λ u j l b p.
            at_old pool s ok.level ok.parent ok.place ok.tree table i k above inside absent space u
              j l b
              (elim (Bool-cases (slot table i == slot u j)) [
                | inl h ↦
                    absurd
                      (ground (arith, p, absent, ap s.words (==→eq (slot table i) (slot u j) h)))
                | inr h ↦ h
              ]);
        same_root = refl;
        used = omega arith;
      }

  allocated :
      (space : s.bootstrap_memory_used + 4096 ≤ pool_size)
      → bootstrap_alloc pool s 4096 ≡ (
        some (pool + s.bootstrap_memory_used),
        record s { bootstrap_memory_used = s.bootstrap_memory_used + 4096 },
      )
  unfolding bootstrap_alloc
  allocated space =
      let sum : u32 (s.bootstrap_memory_used + 4096) ≡ s.bootstrap_memory_used + 4096 =
        omega (arith, space) in
      let fits : ltb pool_size (s.bootstrap_memory_used + 4096) ≡ false = ground (arith, space) in
      rw (sum, fits) refl

  refused : pool_size < s.bootstrap_memory_used + 4096 → bootstrap_alloc pool s 4096 ≡ (none, s)
  unfolding bootstrap_alloc
  refused full =
      let sum : u32 (s.bootstrap_memory_used + 4096) ≡ s.bootstrap_memory_used + 4096 =
        omega (arith, ok.tree.used_in) in
      let over : ltb pool_size (s.bootstrap_memory_used + 4096) ≡ true = ground (arith, full) in
      rw (sum, over) refl

  pub next_table-Step : Step pool s ok.level table i k (next_table pool s table i)
  unfolding next_table add_table
  next_table-Step = elim (Bool-cases (present (s.words (slot table i)))) [
    | inl h ↦ rw (next_table, h) (existing h)
    | inr h ↦ elim (Bool-cases (ltb pool_size (s.bootstrap_memory_used + 4096))) [
      | inl f ↦
          let full = ltb→lt pool_size (s.bootstrap_memory_used + 4096) f in
          rw (next_table, h, refused full) (refl, full)
      | inr f ↦
          let space = ltb→le pool_size (s.bootstrap_memory_used + 4096) f in
          rw (next_table, h, allocated space) (added h space)
    ]
  ]
