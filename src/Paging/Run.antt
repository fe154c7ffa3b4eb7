-- ===== src/Paging/Run.antt =====
-- Runs of pages that the loops over `map_page` of kernel/memory.c map.
use v.Common.{
  ℕ, zero, suc, ◌+◌, ◌*◌, ◌/◌, ◌%◌, ◌^◌, ◌≤◌, ◌<◌, ◌≡◌, ◌≢◌, refl, sym, ap, ◌∙◌, Bool, true, false,
  ◌==◌, if◌then◌else◌, arith, inl, inr, Bool-cases, subst, u64,
}
use v.Pages.{map_run}
use v.Paging.{Paging, present, alloc_physical_page, map_page, page_tables}
use v.Paging.Tree.{entry, IsValid}
use v.Paging.Entry.{page_number}
use v.Paging.Map.{mapping, Outcome, map_page-Outcome}
use v.Paging.Change.{mapping-present}

-- The counter of free pages is no part of the tables.
pub recount :
    (pool : ℕ) (s : Paging) (n : ℕ)
    → IsValid pool s
    → IsValid pool (record s { next_free_page = n })
recount pool s n ok = record {
  level = ok.level;
  parent = ok.parent;
  place = ok.place;
  tree = record {
    root = ok.tree.root;
    aligned = ok.tree.aligned;
    child = ok.tree.child;
    pool_page = ok.tree.pool_page;
    used_page = ok.tree.used_page;
    used_in = ok.tree.used_in;
    fresh = ok.tree.fresh;
  };
}

-- No page of the run is that of `w`.
abbrev pub Outside : ℕ → ℕ → ℕ → Type 0
Outside n addr w = (i : ℕ) → i < n → page_number (addr + i * 4096) ≢ page_number w

-- What a run of `n` pages from `addr` on comes to: the tables stay valid, the pages outside the run
-- keep their entries, and where it succeeds each page of the run is present.
pub record Ran (pool flags : ℕ) (s : Paging) (n addr : ℕ) (done : Bool) (s1 : Paging) : Type 0 where
  pub valid : IsValid pool s1
  pub mapped : done ≡ true → (i : ℕ) → i < n → present (entry s1 (addr + i * 4096)) ≡ true
  pub flagged :
      done ≡ true → (i : ℕ) → i < n → entry s1 (addr + i * 4096) % 4096 ≡ flags / 2 * 2 + 1
  pub outside : (w : ℕ) → Outside n addr w → entry s1 w ≡ entry s w

next_apart :
    (addr n i : ℕ)
    → addr % 4096 ≡ 0
    → n < 2 ^ 36
    → i < n
    → page_number (addr + 4096 + i * 4096) ≢ page_number addr
next_apart addr n i a b l e = omega (arith, a, b, l, e)

pub shift : (addr i : ℕ) → addr + suc i * 4096 ≡ addr + 4096 + i * 4096
shift addr i = omega arith

-- Each page of the run, from the first and the rest.
each_page :
    (P : ℕ → Type 0) (s : Paging) (n addr : ℕ)
    → P (entry s addr)
    → ((i : ℕ) → i < n → P (entry s (addr + 4096 + i * 4096)))
    → (i : ℕ) → i < suc n
    → P (entry s (addr + i * 4096))
each_page P s n addr first rest zero l =
    let at : addr ≡ addr + 0 * 4096 = omega arith in subst (λ x. P (entry s x)) at first
each_page P s n addr first rest (suc i) l =
    subst (λ x. P (entry s x)) (sym (shift addr i)) (rest i (omega arith))

-- The flags of a mapping.
mapping_flags : (p flags : ℕ) → flags < 4096 → mapping p flags % 4096 ≡ flags / 2 * 2 + 1
mapping_flags p flags h = omega (arith, h)

module _ (pool flags : ℕ) (small : flags < 4096) where
  -- The rest of the run after its first page.
  onward :
      (n addr : ℕ) (s s1 : Paging) (p : ℕ) (r : Bool × Paging)
      → addr % 4096 ≡ 0
      → n < 2 ^ 36
      → IsValid pool s1
      → ((w : ℕ) → page_number addr ≡ page_number w → entry s1 w ≡ mapping p flags)
      → ((w : ℕ) → page_number addr ≢ page_number w → entry s1 w ≡ entry s w)
      → Ran pool flags s1 n (addr + 4096) r.0 r.1
      → Ran pool flags s (suc n) addr r.0 r.1
  onward n addr s s1 p r a b ok on off rest = record {
    valid = rest.valid;
    mapped = λ d.
        each_page (λ e. present e ≡ true) r.1 n addr
          (ap present (rest.outside addr (λ i l. next_apart addr n i a b l) ∙ on addr refl)
            ∙ mapping-present p flags)
          (rest.mapped d);
    flagged = λ d.
        each_page (λ e. e % 4096 ≡ flags / 2 * 2 + 1) r.1 n addr
          (ap (λ e. e % 4096) (rest.outside addr (λ i l. next_apart addr n i a b l) ∙ on addr refl)
            ∙ mapping_flags p flags small)
          (rest.flagged d);
    outside = λ w o.
        let zeroth : addr + 0 * 4096 ≡ addr = omega arith in
        rest.outside w (λ i l e. o (suc i) (omega (arith, l)) (ap page_number (shift addr i) ∙ e))
        ∙ off w (λ e. o 0 (omega arith) (ap page_number zeroth ∙ e));
  }

  -- A run that ends at its first page.
  failed :
      (n addr : ℕ) (s s1 : Paging)
      → IsValid pool s1
      → ((w : ℕ) → entry s1 w ≡ entry s w)
      → Ran pool flags s (suc n) addr false s1
  failed n addr s s1 ok same = record {
    valid = ok;
    mapped = λ d. cc;
    flagged = λ d. cc;
    outside = λ w o. same w;
  }

  -- The round on what `map_page` comes to.
  one_round :
      (n addr : ℕ) (s : Paging) (p : ℕ) (r : Bool × Paging)
      → addr % 4096 ≡ 0
      → n < 2 ^ 36
      → Outcome pool s addr (mapping p flags) r
      → ((s1 : Paging)
          → IsValid pool s1
          → Ran pool flags s1 n
              (addr + 4096)
              (map_run (page_tables pool) n (u64 (addr + 4096)) flags s1).0
              (map_run (page_tables pool) n (u64 (addr + 4096)) flags s1).1)
      → let rest = map_run (page_tables pool) n (u64 (addr + 4096)) flags r.1 in
        let end = (if r.0 then rest else (false, r.1)) in Ran pool flags s (suc n) addr end.0 end.1
  one_round n addr s p (true, s1) a b (ok, on, off, used) ih =
      onward n addr s s1 p (map_run (page_tables pool) n (u64 (addr + 4096)) flags s1) a b ok on off
        (ih s1 ok)
  one_round n addr s p (false, s1) a b (ok, same, full) ih = failed n addr s s1 ok same

  -- On valid page tables, a run of pages that fits into the address space and into its 2^36 pages.
  pub map_run-Ran :
      (n addr : ℕ) (s : Paging)
      → IsValid pool s
      → addr % 4096 ≡ 0
      → addr + n * 4096 < 2 ^ 64
      → n ≤ 2 ^ 36
      → Ran pool flags s n addr
          (map_run (page_tables pool) n addr flags s).0
          (map_run (page_tables pool) n addr flags s).1
  unfolding map_run alloc_physical_page
  map_run-Ran zero addr s ok a b c = record {
    valid = ok;
    mapped = λ d i l. absurd (omega (arith, l));
    flagged = λ d i l. absurd (omega (arith, l));
    outside = λ w o. refl;
  }
  map_run-Ran (suc n) addr s ok a b c =
      let (p, m1) = alloc_physical_page s in
      let ok1 = recount pool s m1.next_free_page ok in
      let next : u64 (addr + 4096) ≡ addr + 4096 = omega (arith, b) in
      elim (Bool-cases (p == 0)) [
        | inl h ↦ rw (map_run, h) (failed n addr s m1 ok1 (λ w. refl))
        | inr h ↦
            let rest =
              one_round n addr m1 p (map_page pool m1 addr p flags) a (omega (arith, c))
                (map_page-Outcome pool m1 addr p flags ok1 small)
                (λ s1 ok2.
                  subst
                    (λ x.
                      Ran pool flags s1 n x
                        (map_run (page_tables pool) n (u64 (addr + 4096)) flags s1).0
                        (map_run (page_tables pool) n (u64 (addr + 4096)) flags s1).1)
                    next
                    (map_run-Ran n (u64 (addr + 4096)) s1 ok2 (omega (arith, a, next))
                      (omega (arith, b, next)) (omega (arith, c)))) in
            rw (map_run, h)
              (record {
                valid = rest.valid;
                mapped = rest.mapped;
                flagged = rest.flagged;
                outside = rest.outside;
              })
      ]
