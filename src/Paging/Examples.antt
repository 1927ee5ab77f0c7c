-- ===== src/Paging/Examples.antt =====
-- The tables at the address that the source names, over memory that holds no zeros.
use lvmm.Base.{◌≡◌, refl, some, arith, ◌+◌}
use lvmm.Paging.Defs.{Memory, create_page_table}
use lvmm.Paging.Identity.{walk-create_page_table}
use lvmm.Paging.Walk.{walk}

abbrev leftovers : Memory
leftovers a = a + 1

walk-create_page_table_example :
    walk (create_page_table 0x3_0000 leftovers) 0x3_0000 0xfee0_1234 ≡ some 0xfee0_1234
walk-create_page_table_example =
    walk-create_page_table 0x3_0000 leftovers (refl, omega arith) 0xfee0_1234 (omega arith)
