-- ===== src/Tables/Tests.antt =====
-- hal/descriptor.c: entries at concrete addresses.
use bingos.Common.{◌+◌, ◌*◌, ◌/◌, ◌%◌, ◌^◌, ◌≡◌, refl, [], ◌∷◌, some, arith}
use bingos.Tables.{gdt_set_gate, write_tss, Idt, idt_init, irq_ack}
use bingos.Tables.Segments.{
  segment_base, segment_limit, gate_offset, gdt_set_gate-segment, idt_init-gate_offset,
}

-- The limit of the task state is its end and not its size.
write_tss-limit : segment_limit (write_tss 0x00123450) ≡ 0x234b8
unfolding segment_limit write_tss gdt_set_gate
write_tss-limit = refl

-- The first interrupt of the second controller is acknowledged at the first only.
irq_ack-second : irq_ack 8 ≡ 0x20 ∷ []
unfolding irq_ack
irq_ack-second = refl

gdt_set_gate-segment_example :
    (segment_base (gdt_set_gate 0x12345678 0xffffffff 0x9a 0xcf) ≡ 0x12345678)
    × (segment_limit (gdt_set_gate 0x12345678 0xffffffff 0x9a 0xcf) ≡ 0xffffffff % 2 ^ 20)
    × ((gdt_set_gate 0x12345678 0xffffffff 0x9a 0xcf).flags ≡ 0x9a)
    × ((gdt_set_gate 0x12345678 0xffffffff 0x9a 0xcf).grand / 16 ≡ 0xcf / 16)
gdt_set_gate-segment_example =
    gdt_set_gate-segment 0x12345678 0xffffffff 0x9a 0xcf (omega arith) (omega arith)

idt_init-gate_offset_example :
    (g : Idt) × (idt_init (λ i. 0x00100000 + i * 16) 33 ≡ some g)
    × (gate_offset g ≡ 0x00100000 + 33 * 16)
    × (g.selector ≡ 8)
idt_init-gate_offset_example =
    idt_init-gate_offset (λ i. 0x00100000 + i * 16) 33 (omega arith) (omega arith)
