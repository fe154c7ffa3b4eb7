-- ===== src/Paging/Tree.antt =====
-- The page tables of kernel/memory.c as a tree: which table every walk comes to, and which entry.
use v.Common.{
  ℕ, zero, suc, ◌+◌, ◌%◌, ◌≤◌, ◌<◌, ◌≡◌, refl, sym, ap, ◌∙◌, Bool, true, false, Option, none, some,
  if◌then◌else◌, arith, inl, inr, Bool-cases,
}
use v.Paging.{Paging, pool_size, pml4_index, pdpt_index, pd_index, pt_index, present, page_of, slot}

-- The index of an address at a level: 0 for the page table, 3 for the PML4.
abbrev pub index : ℕ → ℕ → ℕ
index zero v = pt_index v
index (suc zero) v = pd_index v
index (suc (suc zero)) v = pdpt_index v
index (suc (suc (suc k))) v = pml4_index v

pub index_bound : (k v : ℕ) → index k v < 512
index_bound zero v = omega arith
index_bound (suc zero) v = omega arith
index_bound (suc (suc zero)) v = omega arith
index_bound (suc (suc (suc k))) v = omega arith

-- The page table of an address, `k` levels below `table`.
unfoldable pub walk : (k : ℕ) → (ℕ → ℕ) → ℕ → ℕ → Option ℕ
walk zero words table v = some table
walk (suc k) words table v =
    let e = words (slot table (index (suc k) v)) in
    let rest = walk k words (page_of e) v in if present e then rest else none

-- The entry of an address in its page table, 0 where it has none.
abbrev pub value : (ℕ → ℕ) → ℕ → Option ℕ → ℕ
value words v none = 0
value words v (some table) = words (slot table (pt_index v))

-- The page table entry of an address.
abbrev pub entry : Paging → ℕ → ℕ
entry s v = value s.words v (walk 3 s.words s.pml4 v)

-- A tree of tables: each table has a level, 1 for a page table and 4 for the PML4, and each but
-- the PML4 stands in one slot only. What is left of the pool holds no table.
pub record IsTree (pool : ℕ) (s : Paging) (level parent place : ℕ → ℕ) : Type 0 where
  pub root : level s.pml4 ≡ 4
  pub aligned : (t : ℕ) → 0 < level t → t % 4096 ≡ 0
  pub child :
      (t i k : ℕ)
      → level t ≡ suc (suc k)
      → i < 512
      → present (s.words (slot t i)) ≡ true
      → (level (page_of (s.words (slot t i))) ≡ suc k)
        × (parent (page_of (s.words (slot t i))) ≡ t)
        × (place (page_of (s.words (slot t i))) ≡ i)
  pub pool_page : pool % 4096 ≡ 0
  pub used_page : s.bootstrap_memory_used % 4096 ≡ 0
  pub used_in : s.bootstrap_memory_used ≤ pool_size
  pub fresh : (t : ℕ) → pool + s.bootstrap_memory_used ≤ t → t < pool + pool_size → level t ≡ 0

-- Two words of tables are one only in the same slot.
pub slot_apart :
    (t u i j : ℕ)
    → t % 4096 ≡ 0
    → u % 4096 ≡ 0
    → i < 512
    → j < 512
    → slot t i ≡ slot u j
    → (t ≡ u) × (i ≡ j)
slot_apart t u i j a b h l e = (omega arith, omega arith)

if_some :
    (b : Bool) (r : Option ℕ) (p : ℕ) → (if b then r else none) ≡ some p → (b ≡ true) × (r ≡ some p)
if_some true r p e = (refl, e)
if_some false r p e = cc

walk-some :
    (k : ℕ) (words : ℕ → ℕ) (t v p : ℕ)
    → walk (suc k) words t v ≡ some p
    → (present (words (slot t (index (suc k) v))) ≡ true)
      × (walk k words (page_of (words (slot t (index (suc k) v)))) v ≡ some p)
unfolding walk
walk-some k words t v p e = if_some _ _ p e

-- Two addresses have the same indices at the levels 1 to `k`.
abbrev pub Agree : ℕ → ℕ → ℕ → Type 0
Agree zero v w = Unit {0}
Agree (suc k) v w = (index (suc k) v ≡ index (suc k) w) × Agree k v w

-- A walk reads the indices of its levels only.
pub walk-Agree :
    (k : ℕ) (words : ℕ → ℕ) (t v w : ℕ) → Agree k v w → walk k words t v ≡ walk k words t w
unfolding walk
walk-Agree zero words t v w a = refl
walk-Agree (suc k) words t v w a =
    let e = words (slot t (index (suc k) v)) in
    let at_v : (if present e then walk k words (page_of e) v else none)
        ≡ (if present e then walk k words (page_of e) w else none) =
      ap (λ (r : Option ℕ). if present e then r else none)
        (walk-Agree k words (page_of e) v w a.1) in
    at_v
    ∙ ap
        (λ i.
          if present (words (slot t i)) then walk k words (page_of (words (slot t i))) w else none)
        a.0

module _ (pool : ℕ) (s : Paging) (level parent place : ℕ → ℕ)
    (tree : IsTree pool s level parent place) where
  pub level-walk : (k t v p : ℕ) → level t ≡ suc k → walk k s.words t v ≡ some p → level p ≡ 1
  unfolding walk
  level-walk zero t v p l e = cc
  level-walk (suc k) t v p l e =
      let (there, rest) = walk-some k s.words t v p e in
      level-walk k (page_of (s.words (slot t (index (suc k) v)))) v p
        (tree.child t (index (suc k) v) k l (index_bound (suc k) v) there).0 rest

  -- A walk stays the same where the entries of the upper tables do.
  pub walk_same :
      (words : ℕ → ℕ)
      → ((t i k : ℕ) → level t ≡ suc (suc k) → i < 512 → words (slot t i) ≡ s.words (slot t i))
      → (k t v : ℕ) → level t ≡ suc k
      → walk k words t v ≡ walk k s.words t v
  unfolding walk
  walk_same words same zero t v l = refl
  walk_same words same (suc k) t v l =
      elim (Bool-cases (present (s.words (slot t (index (suc k) v))))) [
        | inl h ↦
            rw (same t (index (suc k) v) k l (index_bound (suc k) v), h)
              (walk_same words same k (page_of (s.words (slot t (index (suc k) v)))) v
                (tree.child t (index (suc k) v) k l (index_bound (suc k) v) h).0)
        | inr h ↦ rw (same t (index (suc k) v) k l (index_bound (suc k) v), h) refl
      ]

  -- Two walks from tables of one level that come to one page table are the same walk.
  pub walk_unique :
      (k t u v w p : ℕ)
      → level t ≡ suc k
      → level u ≡ suc k
      → walk k s.words t v ≡ some p
      → walk k s.words u w ≡ some p
      → (t ≡ u) × Agree k v w
  unfolding walk
  walk_unique zero t u v w p l m e f = (cc, tt)
  walk_unique (suc k) t u v w p l m e f =
      let (there, rest) = walk-some k s.words t v p e in
      let (there', rest') = walk-some k s.words u w p f in
      let a = tree.child t (index (suc k) v) k l (index_bound (suc k) v) there in
      let b = tree.child u (index (suc k) w) k m (index_bound (suc k) w) there' in
      let (same, agree) =
        walk_unique k (page_of (s.words (slot t (index (suc k) v))))
          (page_of (s.words (slot u (index (suc k) w)))) v w p a.0 b.0 rest rest' in
      (sym a.1 ∙ ap parent same ∙ b.1, (sym a.2 ∙ ap place same ∙ b.2, agree))

-- Some such tree.
pub record IsValid (pool : ℕ) (s : Paging) : Type 0 where
  pub level : ℕ → ℕ
  pub parent : ℕ → ℕ
  pub place : ℕ → ℕ
  pub tree : IsTree pool s level parent place
