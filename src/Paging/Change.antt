-- ===== src/Paging/Change.antt =====
-- `unmap_page` and `set_page_flags` of kernel/memory.c and the entries of all addresses.
use v.Common.{
  ℕ, ◌<◌, ◌≡◌, ◌≢◌, refl, sym, ap, ◌∙◌, Bool, true, false, Option, none, some, ◌==◌, update, arith,
  inl, inr, Bool-cases, subst, ==→eq, ==→ne,
}
use mathlib.Core.Option
use Prim.Native.Nat.{bit_or}
use v.Paging.{
  Paging, present, page_of, slot, pml4_index, pdpt_index, pd_index, pt_index, existing_table,
  find_table, unmap_entry, unmap_page, set_entry_flags, set_page_flags, map_page,
}
use v.Paging.Tree.{index_bound, walk, value, entry, IsValid, level-walk}
use v.Paging.Entry.{page_number, written-IsTree, entry-written, entry-same}
use v.Paging.Map.{mapping, mapping_lem, Outcome, map_page-Outcome}

find_table-walk : (s : Paging) (v : ℕ) → find_table s v ≡ walk 3 s.words s.pml4 v
unfolding find_table existing_table walk Option.bind
find_table-walk s v = elim (Bool-cases (present (s.words (slot s.pml4 (pml4_index v))))) [
  | inl h ↦
      rw h
        (elim (Bool-cases (
          present
            (s.words (slot (page_of (s.words (slot s.pml4 (pml4_index v)))) (pdpt_index v))))) [
              | inl g ↦ rw (existing_table, g) refl
              | inr g ↦ rw (existing_table, g) refl
            ])
  | inr h ↦ rw h refl
]

find_table-page : (s : Paging) (v : ℕ) → find_table s (page_of v) ≡ walk 3 s.words s.pml4 v
unfolding find_table
find_table-page s v =
    let i3 : pml4_index (page_of v) ≡ pml4_index v = omega arith in
    let i2 : pdpt_index (page_of v) ≡ pdpt_index v = omega arith in
    let i1 : pd_index (page_of v) ≡ pd_index v = omega arith in
    rw (find_table, i3, i2, i1) (find_table-walk s v)

-- What a change of the entry of `v` to `e` comes to: it is made where the entry is present, and else
-- refused with nothing changed.
abbrev pub Change : ℕ → Paging → ℕ → ℕ → Bool × Paging → Type 0
Change pool s v e (true, s1) =
    (present (entry s v) ≡ true)
    × IsValid pool s1
    × ((w : ℕ) → page_number v ≡ page_number w → entry s1 w ≡ e)
    × ((w : ℕ) → page_number v ≢ page_number w → entry s1 w ≡ entry s w)
Change pool s v e (false, s1) = (present (entry s v) ≡ false) × (s1 ≡ s)

module _ (pool : ℕ) (s : Paging) (ok : IsValid pool s) (v : ℕ) where
  -- The write of `e` to the entry that the walk of `v` comes to.
  changed :
      (pt e : ℕ)
      → walk 3 s.words s.pml4 v ≡ some pt
      → present (s.words (slot pt (pt_index v))) ≡ true
      → Change pool s v e (true, record s { words = update s.words (slot pt (pt_index v)) e })
  changed pt e r h =
      let one =
        level-walk pool s ok.level ok.parent ok.place ok.tree 3 s.pml4 v pt ok.tree.root r in
      let (on, off) = entry-written pool s ok.level ok.parent ok.place ok.tree pt v e r in
      (
        ap (λ x. present (value s.words v x)) r ∙ h,
        record {
          level = ok.level;
          parent = ok.parent;
          place = ok.place;
          tree =
              written-IsTree pool s ok.level ok.parent ok.place ok.tree pt (pt_index v) e one
                (index_bound 0 v);
        },
        on,
        off,
      )

  unmap_entry-Change :
      (r : Option ℕ)
      → walk 3 s.words s.pml4 v ≡ r
      → Change pool s v 0 (unmap_entry s (pt_index v) r)
  unfolding unmap_entry
  unmap_entry-Change none r = (ap (λ x. present (value s.words v x)) r, refl)
  unmap_entry-Change (some pt) r = elim (Bool-cases (present (s.words (slot pt (pt_index v))))) [
    | inl h ↦ rw h (changed pt 0 r h)
    | inr h ↦ rw h (ap (λ x. present (value s.words v x)) r ∙ h, refl)
  ]

  set_entry_flags-Change :
      (flags : ℕ) (r : Option ℕ)
      → flags < 4096
      → walk 3 s.words s.pml4 v ≡ r
      → Change pool s v (mapping (entry s v) flags) (set_entry_flags s (pt_index v) flags r)
  unfolding set_entry_flags
  set_entry_flags-Change flags none small r = (ap (λ x. present (value s.words v x)) r, refl)
  set_entry_flags-Change flags (some pt) small r =
      let e = s.words (slot pt (pt_index v)) in
      elim (Bool-cases (present e)) [
        | inl h ↦ rw h (
            subst
              (λ x. Change pool s v x (
                true,
                record s {
                  words =
                      update s.words (slot pt (pt_index v)) (bit_or (bit_or (page_of e) flags) 1);
                },
              ))
              (mapping_lem e flags small ∙ ap (λ x. mapping (value s.words v x) flags) (sym r))
              (changed pt (bit_or (bit_or (page_of e) flags) 1) r h))
        | inr h ↦ rw h (ap (λ x. present (value s.words v x)) r ∙ h, refl)
      ]

-- On valid page tables unmap_page succeeds exactly where the page is present: it then clears the page's
-- entry and no other, and keeps the tables valid; otherwise it fails and changes nothing.
pub unmap_page-Change :
    (pool : ℕ) (s : Paging) (v : ℕ) → IsValid pool s → Change pool s v 0 (unmap_page s v)
unfolding unmap_page
unmap_page-Change pool s v ok =
    let i0 : pt_index (page_of v) ≡ pt_index v = omega arith in
    rw (unmap_page, i0, find_table-page s v)
      (unmap_entry-Change pool s ok v (walk 3 s.words s.pml4 v) refl)

-- On valid page tables and with flags below 4096, set_page_flags succeeds exactly where the page is
-- present: it then leaves the physical page of its entry and gives it the flags and the present flag,
-- changes no other entry, and keeps the tables valid; otherwise it fails and changes nothing.
pub set_page_flags-Change :
    (pool : ℕ) (s : Paging) (v flags : ℕ)
    → IsValid pool s
    → flags < 4096
    → Change pool s v (mapping (entry s v) flags) (set_page_flags s v flags)
unfolding set_page_flags
set_page_flags-Change pool s v flags ok small =
    let i0 : pt_index (page_of v) ≡ pt_index v = omega arith in
    rw (set_page_flags, i0, find_table-page s v)
      (set_entry_flags-Change pool s ok v flags (walk 3 s.words s.pml4 v) small refl)

pub mapping-present : (p flags : ℕ) → present (mapping p flags) ≡ true
mapping-present p flags = ground arith

restored :
    (pool : ℕ) (s s1 : Paging) (v e : ℕ) (r : Bool × Paging)
    → present e ≡ true
    → entry s v ≡ 0
    → entry s1 v ≡ e
    → ((w : ℕ) → page_number v ≢ page_number w → entry s1 w ≡ entry s w)
    → Change pool s1 v 0 r
    → (r.0 ≡ true) × ((w : ℕ) → entry r.1 w ≡ entry s w)
restored pool s s1 v e (false, s2) there empty at off (absent, same) =
    absurd (ground (arith, there, at, absent))
restored pool s s1 v e (true, s2) there empty at off (was, ok, on', off') = (
  refl,
  λ w. elim (Bool-cases (page_number v == page_number w)) [
    | inl h ↦
        let same = ==→eq (page_number v) (page_number w) h in
        on' w same ∙ sym empty ∙ entry-same s v w same
    | inr h ↦
        let other : page_number v ≢ page_number w = ==→ne (page_number v) (page_number w) h in
        off' w other ∙ off w other
  ],
)

-- Unmap after map.
unmapped :
    (pool : ℕ) (s : Paging) (v e : ℕ) (r : Bool × Paging)
    → present e ≡ true
    → entry s v ≡ 0
    → Outcome pool s v e r
    → r.0 ≡ true
    → ((unmap_page r.1 v).0 ≡ true) × ((w : ℕ) → entry (unmap_page r.1 v).1 w ≡ entry s w)
unmapped pool s v e (false, s1) there empty o h = cc
unmapped pool s v e (true, s1) there empty (ok, on, off, used) h =
    restored pool s s1 v e (unmap_page s1 v) there empty (on v refl) off
      (unmap_page-Change pool s1 v ok)

-- On valid page tables and with flags below 4096, where an address has no entry and map_page of its page
-- succeeds, unmap_page of it succeeds too, and then every address has the entry that it had before.
pub unmap_page-map_page :
    (pool : ℕ) (s : Paging) (v p flags : ℕ)
    → IsValid pool s
    → flags < 4096
    → entry s v ≡ 0
    → (map_page pool s v p flags).0 ≡ true
    → ((unmap_page (map_page pool s v p flags).1 v).0 ≡ true)
      × ((w : ℕ) → entry (unmap_page (map_page pool s v p flags).1 v).1 w ≡ entry s w)
unmap_page-map_page pool s v p flags ok small empty h =
    unmapped pool s v (mapping p flags) (map_page pool s v p flags) (mapping-present p flags) empty
      (map_page-Outcome pool s v p flags ok small) h
