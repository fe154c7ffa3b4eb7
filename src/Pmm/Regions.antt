-- ===== src/Pmm/Regions.antt =====
-- `init_pmm` of kernel/memory.c against the list of the usable entries of the map.
use v.Common.{
  min, ◌≢◌, ap, ◌∙◌, update_same, ℕ, zero, suc, ◌+◌, ◌^◌, ◌≤◌, ◌<◌, ◌≡◌, refl, true, false, List,
  [], ◌∷◌, ◌==◌, ltb, leb, if◌then◌else◌, u32, length, get_or, arith, Bool-cases, inl, inr,
}
use v.Pmm.{
  MemoryEntry, BootInfo, Region, PmmInfo, max_entries, boot_signature, entry_count, is_ram,
  add_region, collect, init_pmm,
}

abbrev pub region_of : MemoryEntry → Region
region_of e = record { base = e.base_low; length = e.length_low; kind = e.type }

-- The regions of the usable ones among the `n` entries from `i` on, in their order.
unfoldable pub usable : (n i : ℕ) → (ℕ → MemoryEntry) → List Region
usable zero i entries = []
usable (suc n) i entries =
    let rest = usable n (i + 1) entries in
    if is_ram (entries i) then region_of (entries i) ∷ rest else rest

-- The bytes of a list of regions, and of those from 1 MB on.
abbrev pub bytes : List Region → ℕ
bytes [] = 0
bytes (r ∷ rs) = r.length + bytes rs

abbrev pub high_bytes : List Region → ℕ
high_bytes [] = 0
high_bytes (r ∷ rs) = (if leb 0x100000 r.base then r.length else 0) + high_bytes rs

-- What the loop adds to `p`.
record Collected (p q : PmmInfo) (rs : List Region) : Type 0 where
  count : q.region_count ≡ p.region_count + length rs
  total : q.total_memory ≡ u32 (p.total_memory + bytes rs)
  high : q.free_memory ≡ u32 (p.free_memory + high_bytes rs)
  kept : (j : ℕ) → j < p.region_count → q.regions j ≡ p.regions j
  at : (k : ℕ) (d : Region) → k < length rs → q.regions (p.region_count + k) ≡ get_or rs k d

added_room :
    (e : MemoryEntry) (p : PmmInfo) (n : ℕ)
    → p.region_count + suc n ≤ max_entries
    → (add_region e p).region_count + n ≤ max_entries
unfolding add_region
added_room e p n h = omega (arith, h)

added_total : (e : MemoryEntry) (p : PmmInfo) → (add_region e p).total_memory < 2 ^ 32
unfolding add_region
added_total e p = omega arith

added_free :
    (e : MemoryEntry) (p : PmmInfo) → p.free_memory < 2 ^ 32 → (add_region e p).free_memory < 2 ^ 32
unfolding add_region
added_free e p f = ground (arith, f)

-- The break comes after the last entry at the earliest.
late_break :
    (n i : ℕ) (entries : ℕ → MemoryEntry) (p : PmmInfo)
    → p.region_count + n ≤ max_entries
    → (if leb max_entries p.region_count then p else collect n i entries p) ≡ collect n i entries p
unfolding collect
late_break zero i entries p h = ground arith
late_break (suc n) i entries p h =
    let room : leb max_entries p.region_count ≡ false = ground (arith, h) in rw room refl

at_first :
    (e : MemoryEntry) (p q : PmmInfo) (rs : List Region)
    → p.region_count < max_entries
    → Collected (add_region e p) q rs
    → (k : ℕ) (d : Region) → k < length (region_of e ∷ rs)
    → q.regions (p.region_count + k) ≡ get_or (region_of e ∷ rs) k d
unfolding add_region
at_first e p q rs h c zero d l =
    let here : p.region_count + 0 ≡ p.region_count = omega arith in
    ap q.regions here
    ∙ c.kept p.region_count (omega (arith, h))
    ∙ update_same p.regions p.region_count (region_of e)
at_first e p q rs h c (suc k) d l =
    let next : p.region_count + suc k ≡ u32 (p.region_count + 1) + k = omega (arith, h) in
    ap q.regions next ∙ c.at k d (omega (arith, l))

first_then :
    (e : MemoryEntry) (p q : PmmInfo) (rs : List Region)
    → p.region_count < max_entries
    → p.total_memory < 2 ^ 32
    → p.free_memory < 2 ^ 32
    → Collected (add_region e p) q rs
    → Collected p q (region_of e ∷ rs)
unfolding add_region
first_then e p q rs h t f c = record {
  count = omega (arith, c.count, h);
  total = omega (arith, c.total);
  high = ground (arith, c.high, f);
  kept = λ j l. c.kept j (omega (arith, h, l)) ∙ ground (arith, l);
  at = at_first e p q rs h c;
}

collect-Collected :
    (n i : ℕ) (entries : ℕ → MemoryEntry) (p : PmmInfo)
    → p.region_count + n ≤ max_entries
    → p.total_memory < 2 ^ 32
    → p.free_memory < 2 ^ 32
    → Collected p (collect n i entries p) (usable n i entries)
unfolding collect usable
collect-Collected zero i entries p h t f = record {
  count = omega arith;
  total = omega (arith, t);
  high = omega (arith, f);
  kept = λ j l. refl;
  at = λ k d l. absurd (omega (arith, l));
}
collect-Collected (suc n) i entries p h t f =
    let e = entries i in
    elim (Bool-cases (is_ram e)) [
      | inl r ↦
          let one : u32 (p.region_count + 1) ≡ p.region_count + 1 = omega (arith, h) in
          rw (r, late_break n (i + 1) entries (add_region e p) (added_room e p n h))
            (first_then e p (collect n (i + 1) entries (add_region e p)) (usable n (i + 1) entries)
              (omega (arith, h)) t f
              (collect-Collected n (i + 1) entries (add_region e p) (added_room e p n h)
                (added_total e p) (added_free e p f)))
      | inr r ↦ rw r (collect-Collected n (i + 1) entries p (omega (arith, h)) t f)
    ]

-- With the boot loader's signature, init_pmm leaves exactly the RAM regions below 4 GB among the first
-- 128 entries of the map, in their order, and counts their bytes and those of the regions from 1 MB on,
-- both modulo 2^32; without the signature it leaves everything as it was.
pub init_pmm_lem :
    (b : BootInfo) (p : PmmInfo)
    → let q = init_pmm b p in
      let rs = usable (min max_entries b.memory_entries) 0 b.entry_at in
      (b.signature ≡ boot_signature
        → (q.region_count ≡ length rs)
          × ((k : ℕ) (d : Region) → k < length rs → q.regions k ≡ get_or rs k d)
          × (q.total_memory ≡ u32 (bytes rs))
          × (q.free_memory ≡ u32 (high_bytes rs)))
      × (b.signature ≢ boot_signature → q ≡ p)
unfolding init_pmm entry_count
init_pmm_lem b p =
    let n : (if ltb max_entries b.memory_entries then max_entries else b.memory_entries)
        ≡ min max_entries b.memory_entries =
      ground arith in
    let c =
      collect-Collected (min max_entries b.memory_entries) 0 b.entry_at
        (record p { region_count = 0; total_memory = 0; free_memory = 0 }) (omega arith)
        (omega arith) (omega arith) in
    let q =
      collect (min max_entries b.memory_entries) 0 b.entry_at
        (record p { region_count = 0; total_memory = 0; free_memory = 0 }) in
    (
      λ s.
          let signed : (b.signature == boot_signature) ≡ true = ground (arith, s) in
          rw (signed, n)
            (
              omega (arith, c.count),
              λ k d l. let at : k ≡ 0 + k = omega arith in ap q.regions at ∙ c.at k d l,
              omega (arith, c.total),
              omega (arith, c.high),
            ),
      λ s.
          let unsigned : (b.signature == boot_signature) ≡ false = ground (arith, s) in
          rw (init_pmm, unsigned) refl,
    )
