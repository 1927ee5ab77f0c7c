-- ===== src/Boot/E820.antt =====
-- The memory map that the guest is handed.
use lvmm.Base.{
  ℕ, ◌+◌, ◌-◌, ◌%◌, ◌^◌, ◌≤◌, ◌<◌, ◌≡◌, refl, List, [], ◌∷◌, ◌++◌, some, ◌&&◌, ltb, leb,
  if◌then◌else◌, take, replicate, arith,
}
use lvmm.Boot.Header.{SetupHeader}
use lvmm.Boot.Params.{E820entry, new_e820entry, BootParams, new_boot_params, add_e820_entry}
use lvmm.Boot.Load.{Config, add_e820_map, set_header, boot_params_of}

abbrev pub entries_for : Config → List E820entry
entries_for c =
    record { addr = 0; size = 0x9_fc00; kind = 1 }
    ∷ record { addr = 0x9_fc00; size = 0x400; kind = 2 }
    ∷ record { addr = 0xf_0000; size = 0xffff; kind = 2 }
    ∷ record { addr = 0x10_0000; size = (c.ram_size + 2 ^ 64 - 0x10_0000) % 2 ^ 64; kind = 1 }
    ∷ []

abbrev pub params_for : Config → ℕ → SetupHeader → BootParams
params_for c ramdisk_size h = record new_boot_params {
  e820_entries = 4;
  header = set_header ramdisk_size h;
  e820map = entries_for c ++ replicate 124 new_e820entry;
}

pub boot_params_of_lem :
    (c : Config) (n : ℕ) (h : SetupHeader) → boot_params_of c n h ≡ some (params_for c n h)
unfolding boot_params_of add_e820_map add_e820_entry
boot_params_of_lem c n h = refl

-- Where the boot parameters say that the initramfs and the command line are.
pub boot_params_of-pointers :
    (c : Config) (n : ℕ) (h : SetupHeader) (p : BootParams)
    → boot_params_of c n h ≡ some p
    → (p.header.ramdisk_image ≡ 0xf00_0000)
      × (p.header.ramdisk_size ≡ n % 2 ^ 32)
      × (p.header.cmd_line_ptr ≡ 0x2_0000)
unfolding set_header
boot_params_of-pointers c n h p e =
    let same : params_for c n h ≡ p = cc (boot_params_of_lem c n h) in rw⁻¹ same (refl, refl, refl)

-- The kinds of all entries that hold an address.
unfoldable pub kinds_at : List E820entry → ℕ → List ℕ
kinds_at [] a = []
kinds_at (e ∷ es) a =
    let others = kinds_at es a in
    if leb e.addr a && ltb a (e.addr + e.size) then e.kind ∷ others else others

-- What the map of a machine with so much memory says of an address.
abbrev pub kinds_expected : ℕ → ℕ → List ℕ
kinds_expected ram_size a =
    if ltb a 0x9_fc00
    then 1 ∷ []
    else if ltb a 0xa_0000
    then 2 ∷ []
    else if ltb a 0xf_0000
    then []
    else if ltb a 0xf_ffff
    then 2 ∷ []
    else if ltb a 0x10_0000
    then []
    else if ltb a ram_size
    then 1 ∷ []
    else []

kinds_at-entries_for :
    (c : Config) (a : ℕ)
    → 0x10_0000 ≤ c.ram_size
    → c.ram_size < 2 ^ 64
    → kinds_at (entries_for c) a ≡ kinds_expected c.ram_size a
unfolding kinds_at
kinds_at-entries_for c a h g = ground arith

-- With 1 MiB of memory or more, and less than 2^64 bytes, the map has 4 entries, and no address
-- lies in two of them: RAM below 0x9FC00 and from 1 MiB up to the memory's end, reserved from
-- 0x9FC00 to 0xA0000 and from 0xF0000 to 0xFFFFF, whose last byte 0xFFFFF is in no entry.
pub boot_params_of-kinds :
    (c : Config) (n : ℕ) (h : SetupHeader)
    → 0x10_0000 ≤ c.ram_size
    → c.ram_size < 2 ^ 64
    → (bp : BootParams) × (boot_params_of c n h ≡ some bp)
      × (bp.e820_entries ≡ 4)
      × ((a : ℕ) → kinds_at (take bp.e820_entries bp.e820map) a ≡ kinds_expected c.ram_size a)
boot_params_of-kinds c n h p q =
    (params_for c n h, boot_params_of_lem c n h, refl, λ a. kinds_at-entries_for c a p q)

-- With less than 1 MiB of memory the map says that every address from 1 MiB up to 2^63 is RAM.
pub boot_params_of-underflow :
    (c : Config) (n : ℕ) (h : SetupHeader) (a : ℕ)
    → c.ram_size < 0x10_0000
    → 0x10_0000 ≤ a
    → a < 2 ^ 63
    → (bp : BootParams) × (boot_params_of c n h ≡ some bp)
      × (kinds_at (take bp.e820_entries bp.e820map) a ≡ 1 ∷ [])
unfolding kinds_at
boot_params_of-underflow c n h a p q g = (params_for c n h, boot_params_of_lem c n h, ground arith)
