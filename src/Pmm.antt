-- ===== src/Pmm.antt =====
-- kernel/memory.c and memory.h: the memory map of the boot loader, `print_memory_map` and `init_pmm`.
-- An array is a function of the index.
pub mod Regions
mod Tests
use v.Common.{
  ℕ, zero, suc, ◌+◌, ◌-◌, ◌^◌, Bool, true, false, ◌&&◌, List, [], ◌∷◌, ◌==◌, ltb, leb,
  if◌then◌else◌, u32, update, not,
}
use v.Console.{Console, console_write}

-- struct e820_entry
pub record MemoryEntry : Type 0 where
  pub base_low : ℕ
  pub base_high : ℕ
  pub length_low : ℕ
  pub length_high : ℕ
  pub type : ℕ
  pub acpi : ℕ

-- The fields of `struct boot_info` that the code reads: `entry_at` is the array at `memory_map`.
pub record BootInfo : Type 0 where
  pub signature : ℕ
  pub entry_at : ℕ → MemoryEntry
  pub memory_entries : ℕ

-- struct memory_region
pub record Region : Type 0 where
  pub base : ℕ
  pub length : ℕ
  pub kind : ℕ

-- struct pmm_info
pub record PmmInfo : Type 0 where
  pub regions : ℕ → Region
  pub region_count : ℕ
  pub total_memory : ℕ
  pub free_memory : ℕ

-- MAX_MEMORY_MAP_ENTRIES
abbrev pub max_entries : ℕ
max_entries = 128

-- The signature that both functions ask for.
abbrev pub boot_signature : ℕ
boot_signature = 0x1BADB002

-- E820_RAM
abbrev pub e820_ram : ℕ
e820_ram = 1

-- The entries that the loops look at.
pub entry_count : BootInfo → ℕ
entry_count b = if ltb max_entries b.memory_entries then max_entries else b.memory_entries

-- RAM below 4 GB.
unfoldable pub is_ram : MemoryEntry → Bool
is_ram e = e.type == e820_ram && e.base_high == 0

-- The body of the loop of `init_pmm` for such an entry.
pub add_region : MemoryEntry → PmmInfo → PmmInfo
add_region e p = record {
  regions =
      update p.regions p.region_count
        (record { base = e.base_low; length = e.length_low; kind = e.type });
  region_count = u32 (p.region_count + 1);
  total_memory = u32 (p.total_memory + e.length_low);
  free_memory =
      if leb 0x100000 e.base_low then u32 (p.free_memory + e.length_low) else p.free_memory;
}

-- `n` rounds from entry `i` on, with the break where the array of regions is full.
pub collect : (n i : ℕ) → (ℕ → MemoryEntry) → PmmInfo → PmmInfo
collect zero i entries p = p
collect (suc n) i entries p =
    let e = entries i in
    let p1 = if is_ram e then add_region e p else p in
    let rest = collect n (i + 1) entries p1 in
    if is_ram e && leb max_entries p1.region_count then p1 else rest

pub init_pmm : BootInfo → PmmInfo → PmmInfo
init_pmm b p =
    if b.signature == boot_signature
    then collect (entry_count b) 0 b.entry_at
        (record p { region_count = 0; total_memory = 0; free_memory = 0 })
    else p

abbrev map_title : List ℕ
map_title = b'M' ∷ b'e' ∷ b'm' ∷ b'o' ∷ b'r' ∷ b'y' ∷ b' ' ∷ b'M' ∷ b'a' ∷ b'p' ∷ b':' ∷ 10 ∷ []

abbrev bad_signature : List ℕ
bad_signature =
    b'I' ∷ b'n' ∷ b'v' ∷ b'a' ∷ b'l' ∷ b'i' ∷ b'd' ∷ b' ' ∷ b'b' ∷ b'o' ∷ b'o' ∷ b't' ∷ b' ' ∷ b'i'
    ∷ b'n' ∷ b'f' ∷ b'o' ∷ b' ' ∷ b's' ∷ b'i' ∷ b'g' ∷ b'n' ∷ b'a' ∷ b't' ∷ b'u' ∷ b'r' ∷ b'e'
    ∷ b'!' ∷ 10 ∷ []

abbrev base_label : List ℕ
base_label = b'B' ∷ b'a' ∷ b's' ∷ b'e' ∷ b':' ∷ b' ' ∷ b'0' ∷ b'x' ∷ []

abbrev length_label : List ℕ
length_label = b' ' ∷ b'L' ∷ b'e' ∷ b'n' ∷ b'g' ∷ b't' ∷ b'h' ∷ b':' ∷ b' ' ∷ b'0' ∷ b'x' ∷ []

abbrev type_label : List ℕ
type_label = b' ' ∷ b'T' ∷ b'y' ∷ b'p' ∷ b'e' ∷ b':' ∷ b' ' ∷ []

abbrev newline : List ℕ
newline = 10 ∷ []

-- The name of a type in `print_memory_map`.
pub type_name : ℕ → List ℕ
type_name t =
    if t == 1
    then b'R' ∷ b'A' ∷ b'M' ∷ []
    else if t == 2
    then b'R' ∷ b'E' ∷ b'S' ∷ b'E' ∷ b'R' ∷ b'V' ∷ b'E' ∷ b'D' ∷ []
    else if t == 3
    then b'A' ∷ b'C' ∷ b'P' ∷ b'I' ∷ []
    else if t == 4
    then b'N' ∷ b'V' ∷ b'S' ∷ []
    else if t == 5
    then b'U' ∷ b'N' ∷ b'U' ∷ b'S' ∷ b'A' ∷ b'B' ∷ b'L' ∷ b'E' ∷ []
    else b'U' ∷ b'N' ∷ b'K' ∷ b'N' ∷ b'O' ∷ b'W' ∷ b'N' ∷ []

-- One line of the map.
pub print_entry : MemoryEntry → Console → Console
print_entry e c =
    let c1 = console_write (console_write (console_write c base_label) length_label) type_label in
    console_write (console_write c1 (type_name e.type)) newline

-- `n` rounds from entry `i` on.
pub print_entries : (n i : ℕ) → (ℕ → MemoryEntry) → Console → Console
print_entries zero i entries c = c
print_entries (suc n) i entries c = print_entries n (i + 1) entries (print_entry (entries i) c)

pub print_memory_map : BootInfo → Console → Console
print_memory_map b c =
    let c1 = console_write c map_title in
    if b.signature == boot_signature
    then print_entries (entry_count b) 0 b.entry_at c1
    else console_write c1 bad_signature
