-- ===== src/Pmm/Tests.antt =====
-- Memory maps of kernel/memory.c.
use v.Common.{ℕ, ◌≡◌, ◌≢◌, ◌==◌, ◌<◌, refl, if◌then◌else◌, length, get_or, u32}
use v.Pmm.{BootInfo, Region, PmmInfo, boot_signature, init_pmm, is_ram}
use v.Pmm.Regions.{usable, bytes, high_bytes, init_pmm_lem}

-- Low memory, a hole, and 16 MB from 1 MB on.
abbrev three_entries : BootInfo
three_entries = record {
  signature = 0x1BADB002;
  entry_at = λ i. record {
    base_low = if i == 0 then 0 else 0x100000;
    base_high = 0;
    length_low = if i == 0 then 0x9FC00 else 0x1000000;
    length_high = 0;
    type = if i == 1 then 2 else 1;
    acpi = 1;
  };
  memory_entries = 3;
}

abbrev blank : PmmInfo
blank = record {
  regions = λ _. record { base = 0; length = 0; kind = 0 };
  region_count = 0;
  total_memory = 0;
  free_memory = 0;
}

init_pmm_lem_example :
    let q = init_pmm three_entries blank in
    let rs = usable 3 0 three_entries.entry_at in
    (three_entries.signature ≡ boot_signature
      → (q.region_count ≡ length rs)
        × ((k : ℕ) (d : Region) → k < length rs → q.regions k ≡ get_or rs k d)
        × (q.total_memory ≡ u32 (bytes rs))
        × (q.free_memory ≡ u32 (high_bytes rs)))
    × (three_entries.signature ≢ boot_signature → q ≡ blank)
init_pmm_lem_example = init_pmm_lem three_entries blank

-- Two regions are usable, and only the second counts as free.
counted :
    (length (usable 3 0 three_entries.entry_at) ≡ 2)
    × (high_bytes (usable 3 0 three_entries.entry_at) ≡ 0x1000000)
unfolding usable is_ram
counted = (refl, refl)
