-- ===== src/Boot/Reads.antt =====
-- Each step of `initRAM` on a stream, by what it does on the file's bytes.
use lvmm.Base.{
  ℕ, ◌+◌, ◌-◌, ◌*◌, ◌≤◌, ◌<◌, ◌≡◌, refl, ap, sym, List, [], ◌∷◌, some, true, false, Bool-cases, inl,
  inr, ltb, leb_le, leb_gt, ltb_lt, ltb→lt, length, take, drop, length-drop, is_nonzero, arith,
}
use lvmm.Boot.Header.{SetupHeader, read_header, is_valid}
use lvmm.Boot.Memory.{Ram}
use lvmm.Boot.Load.{ok, failed, ◌>>=◌, load_initramfs, load_header, load_kernel, sect_size}
use lvmm.Boot.Streams.{
  Ifs, opened, seekg, read_stream, read_difference, get_ifs_size, after_elf_test, stream_initramfs,
  stream_header, stream_kernel,
}

take-length {ℓ} : {A : Type ℓ} (xs : List A) → take (length xs) xs ≡ xs
take-length [] = refl
take-length (x ∷ xs) = ap (λ ys. x ∷ ys) (take-length xs)

read_stream-inside :
    (n : ℕ) (s : Ifs)
    → s.bad ≡ false
    → s.pos + n ≤ length s.bytes
    → read_stream n s ≡ (record s { pos = s.pos + n }, take n (drop s.pos s.bytes))
unfolding read_stream
read_stream-inside n s fine h = rw (fine, leb_le (s.pos + n) (length s.bytes) h) refl

read_stream-outside :
    (n : ℕ) (s : Ifs)
    → s.bad ≡ false
    → length s.bytes < s.pos + n
    → read_stream n s ≡ (record s { pos = length s.bytes; bad = true }, [])
unfolding read_stream
read_stream-outside n s fine h = rw (fine, leb_gt (s.pos + n) (length s.bytes) h) refl

pub stream_initramfs-opened :
    (bytes : List ℕ) (ram : Ram)
    → stream_initramfs (opened bytes) ram ≡ load_initramfs (some bytes) ram
unfolding stream_initramfs load_initramfs get_ifs_size seekg
stream_initramfs-opened bytes ram =
    rw
      (
        read_stream-inside (length bytes) (opened bytes) refl (omega arith),
        stream_initramfs,
        take-length bytes,
      )
      refl

-- A stream of the kernel with `failbit` clear, at any position.
abbrev pub at : List ℕ → ℕ → Ifs
at bytes pos = record { bytes = bytes; pos = pos; bad = false }

pub stream_header-at :
    (bytes : List ℕ) (pos : ℕ) (ram : Ram)
    → stream_header (at bytes pos) ram ≡ (load_header (some bytes) ram >>= λ h. ok (h, at bytes 0))
unfolding stream_header load_header seekg
stream_header-at bytes pos ram = elim (Bool-cases (ltb (length bytes) (0x1f1 + 123))) [
  | inl short ↦
      rw
        (
          stream_header,
          load_header,
          short,
          read_stream-outside 123 (at bytes 0x1f1) refl (ltb→lt _ _ short),
        )
        refl
  | inr long ↦
      let fits : 0x1f1 + 123 ≤ length bytes = ground arith in
      let h = read_header (take 123 (drop 0x1f1 bytes)) in
      rw (stream_header, load_header, long, read_stream-inside 123 (at bytes 0x1f1) refl fits)
        (elim (Bool-cases (is_nonzero (is_valid h))) [
          | inl good ↦ rw good refl
          | inr not_good ↦ rw not_good refl
        ])
]

pub stream_kernel-at :
    (bytes : List ℕ) (pos : ℕ) (h : SetupHeader) (ram : Ram)
    → stream_kernel (at bytes pos) h ram ≡ load_kernel (some bytes) h ram
unfolding stream_kernel load_kernel get_ifs_size seekg read_difference
stream_kernel-at bytes pos h ram =
    let offset = (h.setup_sects + 1) * sect_size in
    elim (Bool-cases (ltb (length bytes) offset)) [
      | inl short ↦ rw (stream_kernel, load_kernel, short) refl
      | inr long ↦
          let fits : offset + (length bytes - offset) ≤ length bytes = ground arith in
          let size : length bytes - offset ≡ length (drop offset bytes) =
            sym (length-drop offset bytes) in
          rw
            (
              stream_kernel,
              load_kernel,
              long,
              read_stream-inside (length bytes - offset) (at bytes offset) refl fits,
              size,
              take-length (drop offset bytes),
            )
            refl
    ]

-- `is_kernel_elf` leaves the stream at its start, or, of a file of less than 4 bytes, with `failbit`.
pub after_elf_test-long :
    (bytes : List ℕ) → 4 ≤ length bytes → after_elf_test (opened bytes) ≡ at bytes 0
unfolding after_elf_test seekg
after_elf_test-long bytes h = rw (after_elf_test, read_stream-inside 4 (opened bytes) refl h) refl

pub after_elf_test-short :
    (bytes : List ℕ)
    → length bytes < 4
    → after_elf_test (opened bytes) ≡ record { bytes = bytes; pos = length bytes; bad = true }
unfolding after_elf_test seekg
after_elf_test-short bytes h = rw (after_elf_test, read_stream-outside 4 (opened bytes) refl h) refl

pub stream_header-bad :
    (bytes : List ℕ) (pos : ℕ) (ram : Ram)
    → stream_header (record { bytes = bytes; pos = pos; bad = true }) ram ≡ failed ram
unfolding stream_header seekg read_stream
stream_header-bad bytes pos ram = refl

pub load_header-short :
    (bytes : List ℕ) (ram : Ram) → length bytes < 4 → load_header (some bytes) ram ≡ failed ram
unfolding load_header
load_header-short bytes ram h =
    rw (load_header, ltb_lt (length bytes) (0x1f1 + 123) (omega arith)) refl
