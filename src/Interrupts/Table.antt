-- ===== src/Interrupts/Table.antt =====
-- What the table of kernel/interrupt.c holds after `setup_idt`, as the processor reads it.
use v.Common.{
  subst, sym, ap, ◌∙◌, ℕ, zero, suc, ◌+◌, ◌*◌, ◌/◌, ◌^◌, ◌≤◌, ◌<◌, ◌≡◌, refl, if◌then◌else◌, u8,
  u16, u32, within, arith,
}
use v.Interrupts.{Gate, Descriptors, idt_set_gate, clear_gates, install_gates, setup_idt}

-- The address that the processor takes from a gate.
abbrev pub handler : Gate → ℕ
handler g = g.offset_low + 2 ^ 16 * g.offset_mid + 2 ^ 32 * g.offset_high

-- A present interrupt gate of ring 0 in the kernel's code segment, to the handler `a`.
pub record LeadsTo (a : ℕ) (g : Gate) : Type 0 where
  pub address : handler g ≡ a
  pub segment : g.selector ≡ 0x08
  pub kind : g.type_attr ≡ 0x8E
  pub stack : g.ist ≡ 0

-- The gate that `idt_set_gate` writes.
abbrev gate_of : ℕ → ℕ → ℕ → Gate
gate_of base sel flags = record {
  offset_low = u16 base;
  selector = u16 sel;
  ist = 0;
  type_attr = u8 flags;
  offset_mid = u16 (base / 2 ^ 16);
  offset_high = u32 (base / 2 ^ 32);
  reserved = 0;
}

clear_gates_lem :
    (n i : ℕ) (idt : ℕ → Gate) (v : ℕ)
    → i + n ≤ 256
    → clear_gates n i idt v ≡ (if within i n v then gate_of 0 0 0 else idt v)
unfolding clear_gates idt_set_gate
clear_gates_lem zero i idt v h = ground arith
clear_gates_lem (suc n) i idt v h =
    ground (arith, clear_gates_lem n (i + 1) (idt_set_gate idt i 0 0 0) v)

install_gates_lem :
    (stub : ℕ → ℕ) (n i : ℕ) (idt : ℕ → Gate) (v : ℕ)
    → i + n ≤ 256
    → install_gates stub n i idt v ≡ (if within i n v then gate_of (stub v) 0x08 0x8E else idt v)
unfolding install_gates idt_set_gate
install_gates_lem stub zero i idt v h = ground arith
install_gates_lem stub (suc n) i idt v h =
    ground (arith, install_gates_lem stub n (i + 1) (idt_set_gate idt i (stub i) 0x08 0x8E) v)

handler-gate_of : (a : ℕ) → a < 2 ^ 64 → handler (gate_of a 0x08 0x8E) ≡ a
handler-gate_of a h = omega arith

LeadsTo-gate_of : (a : ℕ) → a < 2 ^ 64 → LeadsTo a (gate_of a 0x08 0x8E)
LeadsTo-gate_of a h = record {
  address = handler-gate_of a h;
  segment = refl;
  kind = refl;
  stack = refl;
}

-- With stubs at 64-bit addresses, after setup_idt the gates 0 to 31 are present interrupt gates of the
-- kernel's code segment that lead to the stubs isr0 to isr31, the gates 32 to 47 lead in the same way to
-- the stubs apic_isr32 to apic_isr47, the gates 48 to 255 are not present, and the limit covers exactly
-- the 256 gates.
pub setup_idt_lem :
    (isr apic_isr : ℕ → ℕ) (a : ℕ) (d : Descriptors)
    → ((v : ℕ) → isr v < 2 ^ 64)
    → ((v : ℕ) → apic_isr v < 2 ^ 64)
    → ((v : ℕ) → v < 32 → LeadsTo (isr v) ((setup_idt isr apic_isr a d).idt v))
      × ((v : ℕ) → 32 ≤ v → v < 48 → LeadsTo (apic_isr v) ((setup_idt isr apic_isr a d).idt v))
      × ((v : ℕ) → 48 ≤ v → v < 256 → ((setup_idt isr apic_isr a d).idt v).type_attr ≡ 0)
      × ((setup_idt isr apic_isr a d).limit + 1 ≡ 256 * 16)
unfolding setup_idt
setup_idt_lem isr apic_isr a d hi ha =
    let cleared = clear_gates 256 0 d.idt in
    let low = install_gates isr 32 0 cleared in
    (
      λ v h.
          subst (LeadsTo (isr v))
            (sym (
              install_gates_lem apic_isr 16 32 low v (omega arith)
              ∙ ground (arith, install_gates_lem isr 32 0 cleared v (omega arith))))
            (LeadsTo-gate_of (isr v) (hi v)),
      λ v h l.
          subst (LeadsTo (apic_isr v))
            (sym (install_gates_lem apic_isr 16 32 low v (omega arith) ∙ ground arith))
            (LeadsTo-gate_of (apic_isr v) (ha v)),
      λ v h l.
          ap (λ (g : Gate). g.type_attr) {y = gate_of 0 0 0}
            (install_gates_lem apic_isr 16 32 low v (omega arith)
              ∙ ground (
                arith,
                install_gates_lem isr 32 0 cleared v (omega arith),
                clear_gates_lem 256 0 d.idt v (omega arith),
              )),
      refl,
    )
