-- ===== src/Vcpu/DumpRegs.antt =====
-- `DumpRegs` with what it prints.
use lvmm.Base.{ℕ, [], ◌∷◌, ℤ, pos}
use lvmm.Ioctl.{Answer, result, errno, zero_or_errno}
use lvmm.Vcpu.Constants.{
  rf_ac, rf_aes, rf_af, rf_ai, rf_cf, rf_df, rf_id, rf_if, rf_init, rf_iopl, rf_md, rf_nt, rf_of,
  rf_pf, rf_rf, rf_sf, rf_tf, rf_vif, rf_vip, rf_vm, rf_zf,
}
use lvmm.Vcpu.Defs.{Regs}
use lvmm.Vcpu.Stream.{Items, text, number, base, fill, eol, flag, flag_end}

unfoldable pub regs_items : ℕ → Regs → Items
regs_items cpu_id regs =
    base 16
    ∷ text "vCPU "
    ∷ number 0 cpu_id
    ∷ text ": vcpu_regs"
    ∷ eol
    ∷ fill b'0'
    ∷ text "RAX: 0x"
    ∷ number 16 regs.rax
    ∷ text " "
    ∷ text "RBX: 0x"
    ∷ number 16 regs.rbx
    ∷ text " "
    ∷ text "RCX: 0x"
    ∷ number 16 regs.rcx
    ∷ text " "
    ∷ text "RDX: 0x"
    ∷ number 16 regs.rdx
    ∷ eol
    ∷ text "RSI: 0x"
    ∷ number 16 regs.rsi
    ∷ text " "
    ∷ text "RDI: 0x"
    ∷ number 16 regs.rdi
    ∷ text " "
    ∷ text "RSP: 0x"
    ∷ number 16 regs.rsp
    ∷ text " "
    ∷ text "RBP: 0x"
    ∷ number 16 regs.rbp
    ∷ eol
    ∷ text "R8:  0x"
    ∷ number 16 regs.r8
    ∷ text " "
    ∷ text "R9:  0x"
    ∷ number 16 regs.r9
    ∷ text " "
    ∷ text "R10: 0x"
    ∷ number 16 regs.r10
    ∷ text " "
    ∷ text "R11: 0x"
    ∷ number 16 regs.r11
    ∷ eol
    ∷ text "R12: 0x"
    ∷ number 16 regs.r12
    ∷ text " "
    ∷ text "R13: 0x"
    ∷ number 16 regs.r13
    ∷ text " "
    ∷ text "R14: 0x"
    ∷ number 16 regs.r14
    ∷ text " "
    ∷ text "R15: 0x"
    ∷ number 16 regs.r15
    ∷ eol
    ∷ text "RIP: 0x"
    ∷ number 16 regs.rip
    ∷ eol
    ∷ text "RFLAGS: 0x"
    ∷ number 16 regs.rflags
    ∷ eol
    ∷ text "CF:   "
    ∷ flag regs.rflags rf_cf
    ∷ text "INIT: "
    ∷ flag regs.rflags rf_init
    ∷ text "PF:   "
    ∷ flag regs.rflags rf_pf
    ∷ text "AF:   "
    ∷ flag regs.rflags rf_af
    ∷ text "ZF:   "
    ∷ flag regs.rflags rf_zf
    ∷ text "SF:   "
    ∷ flag regs.rflags rf_sf
    ∷ text "TF:   "
    ∷ flag_end regs.rflags rf_tf
    ∷ eol
    ∷ text "IF:   "
    ∷ flag regs.rflags rf_if
    ∷ text "DF:   "
    ∷ flag regs.rflags rf_df
    ∷ text "OF:   "
    ∷ flag regs.rflags rf_of
    ∷ text "IOPL: "
    ∷ flag regs.rflags rf_iopl
    ∷ text "NT:   "
    ∷ flag regs.rflags rf_nt
    ∷ text "MD:   "
    ∷ flag regs.rflags rf_md
    ∷ text "RF:   "
    ∷ flag_end regs.rflags rf_rf
    ∷ eol
    ∷ text "VM:   "
    ∷ flag regs.rflags rf_vm
    ∷ text "AC:   "
    ∷ flag regs.rflags rf_ac
    ∷ text "VIF:  "
    ∷ flag regs.rflags rf_vif
    ∷ text "VIP:  "
    ∷ flag regs.rflags rf_vip
    ∷ text "ID:   "
    ∷ flag regs.rflags rf_id
    ∷ text "AES:  "
    ∷ flag regs.rflags rf_aes
    ∷ text "AI:   "
    ∷ flag_end regs.rflags rf_ai
    ∷ eol
    ∷ base 10
    ∷ []

-- What is printed of the registers that KVM_GET_REGS gives, and the result.
unfoldable pub dump_regs : Answer → ℕ → Regs → Items × ℤ
unfolding regs_items
dump_regs (errno e) cpu_id regs = ([], zero_or_errno (errno e))
dump_regs (result r) cpu_id regs = (regs_items cpu_id regs, pos 0)
