-- ===== src/Tables/Segments.antt =====
-- hal/descriptor.c: what the processor reads in the entries of the tables.
use bingos.Common.{ℕ, ◌+◌, ◌*◌, ◌/◌, ◌%◌, ◌^◌, ◌<◌, ◌≡◌, refl, true, ◌||◌, some, ltb, ◌==◌, arith}
use bingos.Tables.{Gdt, gdt_set_gate, Idt, idt_set_gate, idt_init}

-- The base and the limit of a segment, as the processor puts them together.
unfoldable pub segment_base : Gdt → ℕ
segment_base g = g.base_low + g.base_mid * 2 ^ 16 + g.base_high * 2 ^ 24

unfoldable pub segment_limit : Gdt → ℕ
segment_limit g = g.limit + g.grand % 16 * 2 ^ 16

-- The address of the handler of a gate.
unfoldable pub gate_offset : Idt → ℕ
gate_offset g = g.idt_low + g.idt_high * 2 ^ 16

-- The processor reads back the base of a segment, the low twenty bits of its limit, its access byte
-- and the high half of its flags.
pub gdt_set_gate-segment :
    (base limit access grand : ℕ)
    → base < 2 ^ 32
    → grand < 2 ^ 8
    → (segment_base (gdt_set_gate base limit access grand) ≡ base)
      × (segment_limit (gdt_set_gate base limit access grand) ≡ limit % 2 ^ 20)
      × ((gdt_set_gate base limit access grand).flags ≡ access)
      × ((gdt_set_gate base limit access grand).grand / 16 ≡ grand / 16)
unfolding gdt_set_gate segment_base segment_limit
gdt_set_gate-segment base limit access grand h k =
    (omega (arith, h), omega arith, refl, omega (arith, k))

-- Every gate that idt_init sets leads to its handler, in the code segment of the kernel.
pub idt_init-gate_offset :
    (handlers : ℕ → ℕ) (i : ℕ)
    → i < 48
    → handlers i < 2 ^ 32
    → (g : Idt) × (idt_init handlers i ≡ some g) × (gate_offset g ≡ handlers i) × (g.selector ≡ 8)
unfolding idt_init idt_set_gate gate_offset
idt_init-gate_offset handlers i in_range address =
    let e : (ltb i 48 || i == 128) ≡ true = ground arith in
    (idt_set_gate (handlers i) 0x08 0x8e, rw e refl, omega (arith, address), refl)
