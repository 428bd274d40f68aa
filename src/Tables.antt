-- ===== src/Tables.antt =====
-- hal/descriptor.c: the tables of segments and interrupts.
--
-- An entry is a record of its fields, of 8 and 16 bits. The addresses of the handlers and of the task
-- state are arguments. The programming of the interrupt controllers, the loading of the tables and the
-- task state itself are not modelled. An acknowledgement is the list of the ports that are written.
pub mod Segments
mod Tests
use bingos.Common.{
  ℕ, zero, suc, ◌+◌, ◌-◌, ◌*◌, ◌/◌, ◌%◌, ◌^◌, Bool, true, false, ◌||◌, Option, none, some, List, [],
  ◌∷◌, ◌++◌, ltb, ◌==◌, if◌then◌else◌,
}
use Prim.Native.Nat.{bit_or}

-- `gdt_t`
pub record Gdt : Type 0 where
  pub limit : ℕ
  pub base_low : ℕ
  pub base_mid : ℕ
  pub flags : ℕ
  pub grand : ℕ
  pub base_high : ℕ

-- The two halves of `grand` do not overlap, so that the or of them is their sum.
pub gdt_set_gate : ℕ → ℕ → ℕ → ℕ → Gdt
gdt_set_gate base limit access grand = record {
  limit = limit % 2 ^ 16;
  base_low = base % 2 ^ 16;
  base_mid = base / 2 ^ 16 % 2 ^ 8;
  flags = access;
  grand = limit / 2 ^ 16 % 16 + grand / 16 % 16 * 16;
  base_high = base / 2 ^ 24 % 2 ^ 8;
}

-- The size of `tss_entry_t`.
abbrev pub tss_size : ℕ
tss_size = 104

-- The segment of the task state at an address.
pub write_tss : ℕ → Gdt
unfolding gdt_set_gate
write_tss base = gdt_set_gate base ((base + tss_size) % 2 ^ 32) 0xe9 0

-- The table that `gdt_init` fills in.
pub gdt_init : ℕ → List Gdt
unfolding gdt_set_gate write_tss
gdt_init tss_entry =
    gdt_set_gate 0 0 0 0
    ∷ gdt_set_gate 0 0xffffffff 0x9a 0xcf
    ∷ gdt_set_gate 0 0xffffffff 0x92 0xcf
    ∷ gdt_set_gate 0 0xffffffff 0xfa 0xcf
    ∷ gdt_set_gate 0 0xffffffff 0xf2 0xcf
    ∷ write_tss tss_entry
    ∷ []

-- `idt_t`, with `idt_low` and `idt_high` for its `base_low` and `base_high` and `gate` for its `flags`.
pub record Idt : Type 0 where
  pub idt_low : ℕ
  pub selector : ℕ
  pub reserved : ℕ
  pub gate : ℕ
  pub idt_high : ℕ

pub idt_set_gate : ℕ → ℕ → ℕ → Idt
idt_set_gate base selector flags = record {
  idt_low = base % 2 ^ 16;
  selector = selector;
  reserved = 0;
  gate = bit_or flags 0x60;
  idt_high = base / 2 ^ 16 % 2 ^ 16;
}

-- The table that `idt_init` fills in: gates for the exceptions and the interrupts, 0 to 47, and for
-- the system calls, 128; the others stay zero, which is none.
pub idt_init : (ℕ → ℕ) → ℕ → Option Idt
unfolding idt_set_gate
idt_init handlers i =
    if ltb i 48 || i == 128 then some (idt_set_gate (handlers i) 0x08 0x8e) else none

pub irq_ack : ℕ → List ℕ
irq_ack irq_no = if ltb 8 irq_no then 0xa0 ∷ 0x20 ∷ [] else 0x20 ∷ []
