-- ===== src/Paging/Add.antt =====
-- A new table from the pool of kernel/memory.c in an entry that led nowhere.
use v.Common.{
  update_same, update_other, ℕ, zero, suc, ◌+◌, ◌*◌, ◌/◌, ◌%◌, ◌≤◌, ◌<◌, ◌≡◌, ◌≢◌, refl, sym, ap,
  ◌∙◌, true, false, ◌==◌, update, arith, inl, inr, Bool-cases, ==→eq, bit_or-page_link,
}
use Prim.Native.Nat.{bit_or}
use v.Paging.{Paging, pool_size, present, page_of, slot, clear_table}
use v.Paging.Tree.{index, index_bound, walk, value, entry, IsTree, slot_apart}

uncleared :
    (n i c a : ℕ) (words : ℕ → ℕ)
    → ((j : ℕ) → i ≤ j → j < i + n → slot c j ≢ a)
    → clear_table n i c words a ≡ words a
unfolding clear_table
uncleared zero i c a words h = refl
uncleared (suc n) i c a words h =
    uncleared n (i + 1) c a (update words (slot c i) 0)
      (λ j lo hi. h j (omega (arith, lo)) (omega (arith, hi)))
    ∙ ground (arith, h i (omega arith) (omega arith))

cleared : (n i c j : ℕ) (words : ℕ → ℕ) → i ≤ j → j < i + n → clear_table n i c words (slot c j) ≡ 0
unfolding clear_table
cleared zero i c j words a b = absurd (omega arith)
cleared (suc n) i c j words a b = elim (Bool-cases (i == j)) [
  | inl h ↦
      uncleared n (i + 1) c (slot c j) (update words (slot c i) 0)
        (λ k lo hi e. omega (arith, e, lo, ==→eq i j h))
      ∙ ground (arith, ==→eq i j h)
  | inr h ↦ cleared n (i + 1) c j (update words (slot c i) 0) (ground arith) (omega arith)
]

module _ (pool : ℕ) (s : Paging) (level parent place : ℕ → ℕ)
    (tree : IsTree pool s level parent place) (t i k : ℕ) (above : level t ≡ suc (suc k))
    (inside : i < 512) (absent : present (s.words (slot t i)) ≡ false)
    (space : s.bootstrap_memory_used + 4096 ≤ pool_size) where
  -- The new table.
  abbrev pub new : ℕ
  new = pool + s.bootstrap_memory_used

  -- The words after `next_table`.
  abbrev pub words_after : ℕ → ℕ
  words_after = update (clear_table 512 0 new s.words) (slot t i) (bit_or (bit_or new 1) 2)

  abbrev pub after : Paging
  after = record s { words = words_after; bootstrap_memory_used = s.bootstrap_memory_used + 4096 }

  abbrev pub level_after : ℕ → ℕ
  level_after = update level new (suc k)

  new_page : new % 4096 ≡ 0
  new_page = omega (arith, tree.pool_page, tree.used_page)

  new_level : level new ≡ 0
  new_level = tree.fresh new (omega arith) (omega (arith, space))

  -- A table of the tree is not the new one.
  old : (u : ℕ) → 0 < level u → new ≢ u
  old u l e = omega (arith, l, new_level, ap level e)

  link : bit_or (bit_or new 1) 2 ≡ new + 3
  link =
      let split : new ≡ new / 4096 * 4096 = omega (arith, new_page) in
      ap (λ x. bit_or (bit_or x 1) 2) split ∙ bit_or-page_link (new / 4096) ∙ omega (arith, split)

  pub at_link : words_after (slot t i) ≡ new + 3
  at_link = ground (arith, link)

  at_new : (j : ℕ) → j < 512 → words_after (slot new j) ≡ 0
  at_new j b = elim (Bool-cases (slot t i == slot new j)) [
    | inl h ↦ absurd (
        old t (omega (arith, above)) (
          sym
            (slot_apart t new i j (tree.aligned t (omega (arith, above))) new_page inside b
              (==→eq (slot t i) (slot new j) h)).0))
    | inr h ↦ rw h (cleared 512 0 new j s.words (omega arith) b)
  ]

  pub at_old :
      (u j : ℕ)
      → 0 < level u
      → j < 512
      → (slot t i == slot u j) ≡ false
      → words_after (slot u j) ≡ s.words (slot u j)
  at_old u j l b n = rw n (
      uncleared 512 0 new (slot u j) s.words
        (λ m lo hi e. old u l (slot_apart new u m j new_page (tree.aligned u l) hi b e).0))

  abbrev pub parent_after : ℕ → ℕ
  parent_after = update parent new t

  abbrev pub place_after : ℕ → ℕ
  place_after = update place new i

  -- The entry of the tree's tables that the new table does not stand in.
  ChildOf : (ℕ → ℕ) → (ℕ → ℕ) → (ℕ → ℕ) → ℕ → ℕ → ℕ → ℕ → Type 0
  ChildOf level parent place u j m x =
      (level (page_of x) ≡ suc m) × (parent (page_of x) ≡ u) × (place (page_of x) ≡ j)

  child_old :
      (u j m : ℕ)
      → level u ≡ suc (suc m)
      → j < 512
      → (slot t i == slot u j) ≡ false
      → present (words_after (slot u j)) ≡ true
      → ChildOf level_after parent_after place_after u j m (words_after (slot u j))
  unfolding ChildOf
  child_old u j m l b n p =
      let same = at_old u j (omega (arith, l)) b n in
      let (c, q, r) = tree.child u j m l b (ap present (sym same) ∙ p) in
      let other = old (page_of (s.words (slot u j))) (omega (arith, c)) in
      rw same (
        update_other level new (suc k) (page_of (s.words (slot u j))) other ∙ c,
        update_other parent new t (page_of (s.words (slot u j))) other ∙ q,
        update_other place new i (page_of (s.words (slot u j))) other ∙ r,
      )

  child_new :
      (u j m : ℕ)
      → level u ≡ suc (suc m)
      → j < 512
      → (slot t i == slot u j) ≡ true
      → ChildOf level_after parent_after place_after u j m (words_after (slot u j))
  unfolding ChildOf
  child_new u j m l b e =
      let (same, at) =
        slot_apart t u i j (tree.aligned t (omega (arith, above)))
          (tree.aligned u (omega (arith, l))) inside b (==→eq (slot t i) (slot u j) e) in
      let there : words_after (slot u j) ≡ new + 3 =
        ap words_after (sym (==→eq (slot t i) (slot u j) e)) ∙ at_link in
      let page : page_of (new + 3) ≡ new = omega (arith, new_page) in
      rw (there, page)
        (
          update_same level new (suc k) ∙ omega (arith, above, l, ap level same),
          update_same parent new t ∙ same,
          update_same place new i ∙ at,
        )

  child_after :
      (u j m : ℕ)
      → level_after u ≡ suc (suc m)
      → j < 512
      → present (words_after (slot u j)) ≡ true
      → ChildOf level_after parent_after place_after u j m (words_after (slot u j))
  unfolding ChildOf
  child_after u j m l b p = elim (Bool-cases (new == u)) [
    | inl h ↦
        let none_there : words_after (slot u j) ≡ 0 =
          ap (λ x. words_after (slot x j)) (sym (==→eq new u h)) ∙ at_new j b in
        absurd (ground (arith, none_there, p))
    | inr h ↦
        let was : level u ≡ suc (suc m) = ground (arith, l, h) in
        elim (Bool-cases (slot t i == slot u j)) [
          | inl e ↦ child_new u j m was b e
          | inr e ↦ child_old u j m was b e p
        ]
  ]

  aligned_after : (u : ℕ) → 0 < level_after u → u % 4096 ≡ 0
  aligned_after u l = elim (Bool-cases (new == u)) [
    | inl h ↦ ap (λ x. x % 4096) (sym (==→eq new u h)) ∙ new_page
    | inr h ↦ tree.aligned u (ground (arith, l, h))
  ]

  pub after-IsTree : IsTree pool after level_after parent_after place_after
  unfolding ChildOf
  after-IsTree = record {
    root =
        update_other level new (suc k) s.pml4 (old s.pml4 (omega (arith, tree.root))) ∙ tree.root;
    aligned = aligned_after;
    child = child_after;
    pool_page = tree.pool_page;
    used_page = omega (arith, tree.used_page);
    used_in = space;
    fresh = λ u lo hi.
        update_other level new (suc k) u (λ e. omega (arith, e, lo))
        ∙ tree.fresh u (omega (arith, lo)) hi;
  }

  -- Below the new table there is nothing.
  value-new : (m v : ℕ) → value words_after v (walk m words_after new v) ≡ 0
  unfolding walk
  value-new zero v = at_new (index 0 v) (index_bound 0 v)
  value-new (suc m) v = rw (at_new (index (suc m) v) (index_bound (suc m) v)) refl

  -- No address gets another entry.
  value-after :
      (m u v : ℕ)
      → level u ≡ suc m
      → value words_after v (walk m words_after u v) ≡ value s.words v (walk m s.words u v)
  unfolding walk
  value-after zero u v l = elim (Bool-cases (slot t i == slot u (index 0 v))) [
    | inl h ↦ absurd (
        omega (
          arith,
          above,
          l,
          ap level
              (slot_apart t u i (index 0 v) (tree.aligned t (omega (arith, above)))
                (tree.aligned u (omega (arith, l))) inside (index_bound 0 v)
                (==→eq (slot t i) (slot u (index 0 v)) h)).0,
        ))
    | inr h ↦ at_old u (index 0 v) (omega (arith, l)) (index_bound 0 v) h
  ]
  value-after (suc m) u v l = elim (Bool-cases (slot t i == slot u (index (suc m) v))) [
    | inl h ↦
        let e = ==→eq (slot t i) (slot u (index (suc m) v)) h in
        let there : words_after (slot u (index (suc m) v)) ≡ new + 3 =
          ap words_after (sym e) ∙ at_link in
        let page : page_of (new + 3) ≡ new = omega (arith, new_page) in
        let marked : present (new + 3) ≡ true = ground (arith, new_page) in
        let before : present (s.words (slot u (index (suc m) v))) ≡ false =
          ap (λ x. present (s.words x)) (sym e) ∙ absent in
        rw (there, page, marked, before) (value-new m v)
    | inr h ↦
        rw (at_old u (index (suc m) v) (omega (arith, l)) (index_bound (suc m) v) h)
          (elim (Bool-cases (present (s.words (slot u (index (suc m) v))))) [
            | inl p ↦ rw p (
                value-after m (page_of (s.words (slot u (index (suc m) v)))) v
                  (tree.child u (index (suc m) v) m l (index_bound (suc m) v) p).0)
            | inr p ↦ rw p refl
          ])
  ]

  pub entry-after : (v : ℕ) → entry after v ≡ entry s v
  entry-after v = value-after 3 s.pml4 v tree.root
