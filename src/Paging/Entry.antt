-- ===== src/Paging/Entry.antt =====
-- What a write to a page table of kernel/memory.c does to the entries of all addresses.
use v.Common.{
  ℕ, suc, ◌/◌, ◌%◌, ◌^◌, ◌<◌, ◌≡◌, ◌≢◌, refl, sym, ap, ◌∙◌, true, Option, none, some, ◌==◌, update,
  arith, inl, inr, Bool-cases, Option-cases, subst, ==→eq,
}
use v.Paging.{Paging, pml4_index, pdpt_index, pd_index, pt_index, present, page_of, slot}
use v.Paging.Tree.{
  index_bound, walk, value, entry, IsTree, slot_apart, Agree, level-walk, walk_same, walk_unique,
  walk-Agree,
}

-- The number of the virtual page of an address: its 36 digits from the 12th on.
abbrev pub page_number : ℕ → ℕ
page_number v = v / 4096 % 2 ^ 36

page_number_indices :
    (v w : ℕ) → Agree 3 v w → pt_index v ≡ pt_index w → page_number v ≡ page_number w
page_number_indices v w a p = omega (arith, a, p)

-- The other way round.
pub same_indices :
    (v w : ℕ)
    → page_number v ≡ page_number w
    → (pml4_index v ≡ pml4_index w)
      × (pdpt_index v ≡ pdpt_index w)
      × (pd_index v ≡ pd_index w)
      × (pt_index v ≡ pt_index w)
same_indices v w e = (omega arith, omega arith, omega arith, omega arith)

value-index :
    (words : ℕ → ℕ) (v w : ℕ)
    → pt_index v ≡ pt_index w
    → (r : Option ℕ) → value words v r ≡ value words w r
value-index words v w e none = refl
value-index words v w e (some t) = ap (λ i. words (slot t i)) e

-- An entry is that of its page.
pub entry-same : (s : Paging) (v w : ℕ) → page_number v ≡ page_number w → entry s v ≡ entry s w
entry-same s v w e =
    let (i3, i2, i1, i0) = same_indices v w e in
    ap (λ r. value s.words v r) (walk-Agree 3 s.words s.pml4 v w (i3, (i2, (i1, tt))))
    ∙ value-index s.words v w i0 (walk 3 s.words s.pml4 w)

module _ (pool : ℕ) (s : Paging) (level parent place : ℕ → ℕ)
    (tree : IsTree pool s level parent place) where
  -- The state after the write of `e` to entry `i` of `t`.
  abbrev pub written : ℕ → ℕ → ℕ → Paging
  written t i e = record s { words = update s.words (slot t i) e }

  upper_same :
      (pt i e : ℕ)
      → level pt ≡ 1
      → i < 512
      → (t j k : ℕ) → level t ≡ suc (suc k)
      → j < 512
      → update s.words (slot pt i) e (slot t j) ≡ s.words (slot t j)
  upper_same pt i e l b t j k m c = elim (Bool-cases (slot pt i == slot t j)) [
    | inl h ↦
        let (same, at) =
          slot_apart pt t i j (tree.aligned pt (omega (arith, l)))
            (tree.aligned t (omega (arith, m))) b c (==→eq (slot pt i) (slot t j) h) in
        absurd (omega (arith, ap level same, l, m))
    | inr h ↦ rw h refl
  ]

  pub written-IsTree :
      (pt i e : ℕ) → level pt ≡ 1 → i < 512 → IsTree pool (written pt i e) level parent place
  written-IsTree pt i e l b = record {
    root = tree.root;
    aligned = tree.aligned;
    child = λ t j k m c.
        subst
          (λ x.
            present x ≡ true
            → (level (page_of x) ≡ suc k) × (parent (page_of x) ≡ t) × (place (page_of x) ≡ j))
          (sym (upper_same pt i e l b t j k m c)) (tree.child t j k m c);
    pool_page = tree.pool_page;
    used_page = tree.used_page;
    used_in = tree.used_in;
    fresh = tree.fresh;
  }

  walk-written :
      (pt i e w : ℕ)
      → level pt ≡ 1
      → i < 512
      → walk 3 (update s.words (slot pt i) e) s.pml4 w ≡ walk 3 s.words s.pml4 w
  walk-written pt i e w l b =
      walk_same pool s level parent place tree (update s.words (slot pt i) e)
        (upper_same pt i e l b) 3 s.pml4 w tree.root

  -- A page table holds no entry of another page in the same slot.
  elsewhere :
      (pt v e w q : ℕ)
      → level pt ≡ 1
      → page_number v ≢ page_number w
      → walk 3 s.words s.pml4 v ≡ some pt
      → walk 3 s.words s.pml4 w ≡ some q
      → update s.words (slot pt (pt_index v)) e (slot q (pt_index w))
        ≡ s.words (slot q (pt_index w))
  elsewhere pt v e w q l n r f = elim (Bool-cases (slot pt (pt_index v) == slot q (pt_index w))) [
    | inl h ↦
        let m = level-walk pool s level parent place tree 3 s.pml4 w q tree.root f in
        let (same, at) =
          slot_apart pt q (pt_index v) (pt_index w) (tree.aligned pt (omega (arith, l)))
            (tree.aligned q (omega (arith, m))) (index_bound 0 v) (index_bound 0 w)
            (==→eq (slot pt (pt_index v)) (slot q (pt_index w)) h) in
        let (root, agree) =
          walk_unique pool s level parent place tree 3 s.pml4 s.pml4 v w q tree.root tree.root
            (r ∙ ap some same) f in
        absurd (n (page_number_indices v w agree at))
    | inr h ↦ rw h refl
  ]

  -- The write changes the entry of exactly one virtual page.
  pub entry-written :
      (pt v e : ℕ)
      → walk 3 s.words s.pml4 v ≡ some pt
      → ((w : ℕ) → page_number v ≡ page_number w → entry (written pt (pt_index v) e) w ≡ e)
        × ((w : ℕ)
            → page_number v ≢ page_number w
            → entry (written pt (pt_index v) e) w ≡ entry s w)
  entry-written pt v e r =
      let l = level-walk pool s level parent place tree 3 s.pml4 v pt tree.root r in
      (
        λ w n.
            let (i3, i2, i1, i0) = same_indices v w n in
            let there : walk 3 s.words s.pml4 w ≡ some pt =
              sym (walk-Agree 3 s.words s.pml4 v w (i3, (i2, (i1, tt)))) ∙ r in
            rw (walk-written pt (pt_index v) e w l (index_bound 0 v), there) (ground (arith, i0)),
        λ w n. elim (Option-cases (walk 3 s.words s.pml4 w)) [
          | inl f ↦ rw (walk-written pt (pt_index v) e w l (index_bound 0 v), f) refl
          | inr (q, f) ↦
              rw (walk-written pt (pt_index v) e w l (index_bound 0 v), f)
                (elsewhere pt v e w q l n r f)
        ],
      )
