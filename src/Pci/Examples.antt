-- ===== src/Pci/Examples.antt =====
-- Runs of the PCI address register, and its theorems at concrete inputs.
use lvmm.Base.{◌≡◌, refl, true, [], ◌∷◌, arith, pos, le_bytes}
use lvmm.Pci.Defs.{Pci, config_addr_out}
use lvmm.Pci.Fields.{Decodes, config_address, config_addr_out-fields}

abbrev idle : Pci
idle = record { addr = 0 }

write_runs : (config_addr_out idle (0x10 ∷ 0x1A ∷ 2 ∷ 0x80 ∷ []) 4).0.addr ≡ 0x8002_1A10
unfolding config_addr_out
write_runs = refl

config_addr_out-fields_example :
    let (q, r) = config_addr_out idle (le_bytes 4 (config_address true 2 3 2 4)) 4 in
    (r ≡ pos 0) × Decodes q true 2 3 2 4
config_addr_out-fields_example =
    config_addr_out-fields idle true 2 3 2 4 (omega arith) (omega arith) (omega arith) (omega arith)
