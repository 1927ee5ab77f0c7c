-- ===== src/Vcpu/Iopl.antt =====
-- What DumpRegs shows of RIP and of the I/O privilege level.
use Prim.Native.String.{String}
use lvmm.Base.{
  ℕ, ◌^◌, ◌<◌, ◌≡◌, refl, sym, ap, ◌∙◌, List, ◌∷◌, ◌++◌, if◌then◌else◌, truthy, bit_and, take, drop,
  arith,
}
use lvmm.Base.Bits.{bit_and-ones}
use lvmm.Ioctl.{result}
use lvmm.Vcpu.Constants.{rf_iopl}
use lvmm.Vcpu.Defs.{Regs}
use lvmm.Vcpu.Stream.{text, number, Items, Stream, codes, padded, put, after, printed, left}
use lvmm.Vcpu.DumpRegs.{regs_items, dump_regs}
use lvmm.Vcpu.Shown.{printed-append, hexadecimal, value_of, value_of-padded}

-- The items in two parts.
printed-split :
    (s : Stream) (k : ℕ) (is : Items)
    → take k is ++ drop k is ≡ is
    → printed s is ≡ printed s (take k is) ++ printed (left s (take k is)) (drop k is)
printed-split s k is h = ap (printed s) (sym h) ∙ printed-append s (take k is) (drop k is)

printed-field :
    (s : Stream) (t : String) (width n : ℕ) (is : Items)
    → printed s (text t ∷ number width n ∷ is) ≡ codes t ++ (padded s width n ++ printed s is)
unfolding printed put after
printed-field s t width n is = refl

printed-texts :
    (s : Stream) (t u : String) (is : Items)
    → printed s (text t ∷ text u ∷ is) ≡ codes t ++ (codes u ++ printed s is)
unfolding printed put after
printed-texts s t u is = refl

no_iopl : (v : ℕ) → bit_and v rf_iopl ≡ 0
no_iopl v = omega (arith, bit_and-ones 0 v)

module _ (s : Stream) (cpu_id : ℕ) (regs : Regs) where
  abbrev items : Items
  items = regs_items cpu_id regs

  rip_part :
      printed s items
      ≡ printed s (take 54 items)
        ++ (codes "RIP: 0x"
            ++ (padded hexadecimal 16 regs.rip ++ printed hexadecimal (drop 56 items)))
  unfolding regs_items left after
  rip_part =
      printed-split s 54 items refl
      ∙ ap (λ t. printed s (take 54 items) ++ t)
          (printed-field hexadecimal "RIP: 0x" 16 regs.rip (drop 56 items))

  iopl_part :
      printed s items
      ≡ printed s (take 81 items)
        ++ (codes "IOPL: " ++ (codes "0 " ++ printed hexadecimal (drop 83 items)))
  unfolding regs_items left after
  iopl_part =
      printed-split s 81 items refl
      ∙ ap (λ t. printed s (take 81 items) ++ t)
          (printed-texts hexadecimal "IOPL: "
            (if truthy (bit_and regs.rflags rf_iopl) then "1 " else "0 ") (drop 83 items))
      ∙ ap
          (λ n.
            printed s (take 81 items)
            ++ (codes "IOPL: "
                ++ (codes (if truthy n then "1 " else "0 ")
                    ++ printed hexadecimal (drop 83 items))))
          (no_iopl regs.rflags)

-- Whatever the stream was set to before: where KVM_GET_REGS succeeds, DumpRegs puts RIP, of 64 bits,
-- out in hexadecimal digits behind the prefix 0x, and shows an IOPL of 0, whatever RFLAGS holds.
pub dump_regs-iopl :
    (s : Stream) (r cpu_id : ℕ) (regs : Regs)
    → regs.rip < 2 ^ 64
    → (front rest front' rest' : List ℕ) × (printed s (dump_regs (result r) cpu_id regs).0
        ≡ front ++ (codes "RIP: 0x" ++ (padded hexadecimal 16 regs.rip ++ rest)))
      × (value_of 16 0 (padded hexadecimal 16 regs.rip) ≡ regs.rip)
      × (printed s (dump_regs (result r) cpu_id regs).0
          ≡ front' ++ (codes "IOPL: " ++ (codes "0 " ++ rest')))
unfolding dump_regs
dump_regs-iopl s r cpu_id regs h = (
  printed s (take 54 (items s cpu_id regs)),
  printed hexadecimal (drop 56 (items s cpu_id regs)),
  printed s (take 81 (items s cpu_id regs)),
  printed hexadecimal (drop 83 (items s cpu_id regs)),
  rip_part s cpu_id regs,
  value_of-padded 16 (omega arith) (omega arith) 16 regs.rip (omega arith),
  iopl_part s cpu_id regs,
)
