-- ===== src/Interrupts.antt =====
-- kernel/interrupt.c: the interrupt descriptor table, and the port writes that set up the PIC. The
-- addresses of the assembly stubs isr0 to isr31 and apic_isr32 to apic_isr47 are parameters.
pub mod Table
mod Tests
use v.Common.{
  ℕ, zero, suc, ◌+◌, ◌-◌, ◌*◌, ◌/◌, ◌%◌, ◌^◌, List, [], ◌∷◌, ◌==◌, ltb, if◌then◌else◌, u8, u16, u32,
  update,
}

-- struct idt_entry
pub record Gate : Type 0 where
  pub offset_low : ℕ
  pub selector : ℕ
  pub ist : ℕ
  pub type_attr : ℕ
  pub offset_mid : ℕ
  pub offset_high : ℕ
  pub reserved : ℕ

-- `idt` and `idtp`.
pub record Descriptors : Type 0 where
  pub idt : ℕ → Gate
  pub limit : ℕ
  pub base : ℕ

pub idt_set_gate : (ℕ → Gate) → ℕ → ℕ → ℕ → ℕ → ℕ → Gate
idt_set_gate idt num base sel flags = update idt (u8 num) (record {
  offset_low = u16 base;
  selector = u16 sel;
  ist = 0;
  type_attr = u8 flags;
  offset_mid = u16 (base / 2 ^ 16);
  offset_high = u32 (base / 2 ^ 32);
  reserved = 0;
})

-- `n` rounds of the loop that clears the table, from `i` on.
pub clear_gates : (n i : ℕ) → (ℕ → Gate) → ℕ → Gate
clear_gates zero i idt = idt
clear_gates (suc n) i idt = clear_gates n (i + 1) (idt_set_gate idt i 0 0 0)

-- `n` of the calls that install the stub of gate `i`, from `i` on.
pub install_gates : (ℕ → ℕ) → (n i : ℕ) → (ℕ → Gate) → ℕ → Gate
install_gates stub zero i idt = idt
install_gates stub (suc n) i idt =
    install_gates stub n (i + 1) (idt_set_gate idt i (stub i) 0x08 0x8E)

-- sizeof(struct idt_entry)
abbrev pub gate_size : ℕ
gate_size = 16

module _ (isr apic_isr : ℕ → ℕ) where
  -- `address` is that of `idt`. The processor then loads the table.
  pub setup_idt : ℕ → Descriptors → Descriptors
  setup_idt address d = record {
    idt = install_gates apic_isr 16 32 (install_gates isr 32 0 (clear_gates 256 0 d.idt));
    limit = u16 (gate_size * 256 - 1);
    base = address;
  }

-- The port writes of `setup_pic`, the latest first, on the masks that it reads.
pub setup_pic : ℕ → ℕ → List (ℕ × ℕ) → List (ℕ × ℕ)
setup_pic mask1 mask2 ports =
    (0xA1, 0xFF)
    ∷ (0x21, 0xFF)
    ∷ (0xA1, mask2)
    ∷ (0x21, mask1)
    ∷ (0xA1, 0x01)
    ∷ (0x21, 0x01)
    ∷ (0xA1, 0x02)
    ∷ (0x21, 0x04)
    ∷ (0xA1, 0x28)
    ∷ (0x21, 0x20)
    ∷ (0xA0, 0x11)
    ∷ (0x20, 0x11)
    ∷ ports
