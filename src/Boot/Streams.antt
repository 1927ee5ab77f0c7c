-- ===== src/Boot/Streams.antt =====
-- The two files as the streams that `VM` keeps, with `get_ifs_size` (include/util.hpp) and the steps
-- of `initRAM` that seek and read.
use lvmm.Base.{
  ℕ, ◌+◌, ◌-◌, ◌*◌, List, [], Bool, true, false, ltb, leb, if◌then◌else◌, length, take, drop,
  is_nonzero,
}
use lvmm.Boot.Header.{SetupHeader, setup_header_size, read_header, is_valid, check_setup_sects}
use lvmm.Boot.Params.{boot_params_bytes}
use lvmm.Boot.Memory.{Ram, copy_to}
use lvmm.Boot.Load.{
  Config, Loading, ok, failed, ◌>>=◌, bounded, put_ebda, put_cmdline, boot_params_of,
  check_boot_mode, sect_size, setup_header_addr, highmem_base, initramfs_addr, boot_params_addr,
}

-- An opened `ifstream`: the file's bytes, the position and `failbit`. A read past the end sets
-- `failbit` together with `eofbit`, which is left out.
pub record Ifs : Type 0 where
  pub bytes : List ℕ
  pub pos : ℕ
  pub bad : Bool

abbrev pub opened : List ℕ → Ifs
opened bytes = record { bytes = bytes; pos = 0; bad = false }

-- A stream with `failbit` does not seek.
unfoldable pub seekg : ℕ → Ifs → Ifs
seekg p s = if s.bad then s else record s { pos = p }

-- The stream behind `read`, and the bytes that it gives where it succeeds.
unfoldable pub read_stream : ℕ → Ifs → Ifs × List ℕ
read_stream n s =
    if s.bad
    then (s, [])
    else if leb (s.pos + n) (length s.bytes)
    then (record s { pos = s.pos + n }, take n (drop s.pos s.bytes))
    else (record s { pos = length s.bytes; bad = true }, [])

-- `read` of a `streamsize` that is a difference; a negative one gives no bytes and sets `failbit`.
unfoldable pub read_difference : ℕ → ℕ → Ifs → Ifs × List ℕ
unfolding read_stream
read_difference a b s = if ltb a b then (record s { bad = true }, []) else read_stream (a - b) s

-- The size, and the stream at the position where it was. `return false` is 0.
unfoldable pub get_ifs_size : Ifs → ℕ × Ifs
unfolding seekg
get_ifs_size s =
    if s.bad
    then (0, s)
    else let at_end = seekg (length s.bytes) s in (at_end.pos, seekg s.pos at_end)

-- The stream that `is_kernel_elf` leaves.
unfoldable pub after_elf_test : Ifs → Ifs
unfolding seekg read_stream
after_elf_test s = if s.bad then s else seekg s.pos (read_stream 4 (seekg 0 s)).0

unfoldable pub stream_initramfs : Ifs → Ram → Loading (Ram × ℕ)
unfolding read_stream get_ifs_size
stream_initramfs s ram =
    let (size, s1) = get_ifs_size s in
    let (s2, bytes) = read_stream size s1 in
    if s2.bad then failed ram else bounded (copy_to ram initramfs_addr bytes) >>= λ r. ok (r, size)

unfoldable pub stream_header : Ifs → Ram → Loading (SetupHeader × Ifs)
unfolding seekg read_stream
stream_header s ram =
    let (s1, bytes) = read_stream setup_header_size (seekg setup_header_addr s) in
    let h = read_header bytes in
    if s1.bad
    then failed ram
    else if is_nonzero (is_valid h)
    then ok ((check_setup_sects h).0, seekg 0 s1)
    else failed ram

unfoldable pub stream_kernel : Ifs → SetupHeader → Ram → Loading Ram
unfolding seekg get_ifs_size read_difference
stream_kernel s h ram =
    let offset = (h.setup_sects + 1) * sect_size in
    let (size, s1) = get_ifs_size (seekg offset s) in
    let (s2, bytes) = read_difference size offset s1 in
    if s2.bad then failed ram else bounded (copy_to ram highmem_base bytes)

-- `initRAM` over the streams.
unfoldable pub init_ram_streams : Config → Ifs → Ifs → List ℕ → Ram → Loading Ram
init_ram_streams c initramfs kernel cmdline ram = do
  ram1 ← put_ebda c ram
  loaded ← stream_initramfs initramfs ram1
  ram2 ← put_cmdline cmdline loaded.0
  header ← stream_header kernel ram2
  bp ← bounded (boot_params_of c loaded.1 header.0)
  ram3 ← bounded (copy_to ram2 boot_params_addr (boot_params_bytes bp))
  _ ← check_boot_mode c
  stream_kernel header.1 bp.header ram3
