-- ===== src/Idt/Examples.antt =====
-- The theorem on the interrupt descriptor table at a concrete table: the page-fault handler.
use barevisor.Base.{◌≡◌, some, arith, get_elem?, returns}
use barevisor.Idt.{InterruptDescriptorTableEntry, new_idt, idtr, IsGate, new_idt-IsGate}

new_idt-IsGate_example :
    (e : InterruptDescriptorTableEntry) × (get_elem? (new_idt 0xffff_8000_0000_1000 8) 14 ≡ some e)
    × IsGate 0xffff_8000_0000_10e0 8 e
    × (idtr 0x5000 (new_idt 0xffff_8000_0000_1000 8)
        ≡ returns (record { table_base = 0x5000; limit = 0xfff }))
new_idt-IsGate_example =
    new_idt-IsGate 0xffff_8000_0000_1000 8 0x5000 14 (omega arith) (omega arith)
