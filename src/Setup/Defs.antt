-- ===== src/Setup/Defs.antt =====
-- `VM::initMachine` and its ten steps, over what the system calls answer.
use lvmm.Base.{
  ℕ, zero, suc, ◌+◌, List, [], ◌∷◌, ◌++◌, Option, none, some, if◌then◌else◌, ℤ, pos, is_neg,
  is_nonzero,
}
use lvmm.Ioctl.{Answer, result, errno, kvm_ioctl, Attempt, made, thrown, fault, ◌>>=◌}
use lvmm.Boot.{Config, Ram, highmem_base, boot_params_addr}
use lvmm.Pio.{Table, init_pio_handler, machine_devices}
use lvmm.Vcpu.{Regs, Sregs, CpuidEntry, CpuidBuffer, construct_vcpu, init_regs, init_sregs}

-- The addresses, in the guest's, of three pages and of one that KVM needs for itself.
abbrev pub tss_base : ℕ
tss_base = 0xf800_0000

abbrev pub identity_map_base : ℕ
identity_map_base = 0xf800_3000

-- `user_memory_region`; its `userspace_addr` is the mapping of the guest's memory.
pub record Region : Type 0 where
  pub slot : ℕ
  pub flags : ℕ
  pub guest_phys_addr : ℕ
  pub memory_size : ℕ

unfoldable pub region_of : Config → Region
region_of c = record { slot = 0; flags = 0; guest_phys_addr = 0; memory_size = c.ram_size }

-- The system calls with what they hand over, those on a vCPU with its number.
pub data Call : Type 0 where
  set_tss_addr set_identity_map_addr : ℕ → Call
  create_irqchip create_pit2 mmap : Call
  set_user_memory_region : Region → Call
  create_vcpu set_cpuid2 map_run get_regs set_regs get_sregs set_sregs : ℕ → Call

-- The host: what each call answers, the registers of a new vCPU, and the CPUID entries that
-- getSupportedCPUID leaves.
pub record Kernel : Type 0 where
  pub answers : Call → Answer
  pub reset_regs : ℕ → Regs
  pub reset_sregs : ℕ → Sregs
  pub supported : CpuidBuffer

-- What KVM holds of a vCPU.
pub record VcpuState : Type 0 where
  pub regs : Regs
  pub sregs : Sregs
  pub cpuid : List CpuidEntry

-- The handler table, the guest's memory once it is mapped, and the vCPUs that were created.
pub record Setup : Type 0 where
  pub table : Table
  pub ram : Option Ram
  pub vcpus : List VcpuState

-- What a step leaves and returns.
abbrev pub SetupStep : Type 0
SetupStep = Setup → Attempt (Setup × ℤ)

-- A step that makes one ioctl and returns its result.
abbrev pub ioctl : Kernel → Call → SetupStep
ioctl k c s = made (s, kvm_ioctl (k.answers c))

-- KVM's new vCPU, with the CPUID entries that the constructor hands over.
abbrev pub new_vcpu : Kernel → ℕ → List CpuidEntry → VcpuState
new_vcpu k i given = record { regs = k.reset_regs i; sregs = k.reset_sregs i; cpuid = given }

-- `createVcpu` from vCPU `i` on.
unfoldable pub create_vcpus : Kernel → ℕ → ℕ → SetupStep
create_vcpus k zero i s = made (s, pos 0)
create_vcpus k (suc n) i s = elim (k.answers (create_vcpu i)) [
  | errno e ↦ made (s, kvm_ioctl (errno e))
  | result r ↦ do
    given ← construct_vcpu k.supported (k.answers (set_cpuid2 i)) (k.answers (map_run i))
    create_vcpus k n (i + 1) (record s { vcpus = s.vcpus ++ new_vcpu k i given ∷ [] })
]

-- `allocGuestRAM`: anonymous memory holds zeros.
unfoldable pub alloc_guest_ram : Config → Kernel → SetupStep
alloc_guest_ram c k s = elim (k.answers mmap) [
  | errno e ↦ made (s, kvm_ioctl (errno e))
  | result r ↦ made (record s { ram = some (record { size = c.ram_size; byte = λ a. 0 }) }, pos 0)
]

-- `InitRegs(HIGHMEM_BASE, BOOT_PARAMS_ADDR)` and `InitSregs` on vCPU `i`.
abbrev pub Init : Type 0
Init = ℕ → VcpuState → VcpuState × ℤ

unfoldable pub set_regs_of : Kernel → Init
unfolding init_regs
set_regs_of k i v =
    let (regs, r) =
      init_regs (k.answers (get_regs i)) (k.answers (set_regs i)) highmem_base boot_params_addr
        v.regs in
    (record v { regs = regs }, r)

unfoldable pub set_sregs_of : Config → Kernel → Init
unfolding init_sregs
set_sregs_of c k i v =
    let (sregs, r) =
      init_sregs (k.answers (get_sregs i)) (k.answers (set_sregs i)) c.is_64bit_boot v.sregs in
    (record v { sregs = sregs }, r)

-- The loop of `initVcpuRegs` and of `initVcpuSregs` from vCPU `i` on, over the vCPUs from it on;
-- `none` reads behind the array.
unfoldable pub init_vcpus : Init → ℕ → ℕ → List VcpuState → Option (List VcpuState × ℤ)
init_vcpus init zero i vs = some (vs, pos 0)
init_vcpus init (suc n) i [] = none
init_vcpus init (suc n) i (v ∷ vs) =
    let (v', r) = init i v in
    let rest : Option (List VcpuState × ℤ) = elim (init_vcpus init n (i + 1) vs) [
      | none ↦ none
      | some (vs', code) ↦ some (v' ∷ vs', code)
    ] in
    if is_nonzero r then some (v' ∷ vs, pos 1) else rest

unfoldable pub init_each : Config → Init → SetupStep
init_each c init s = elim (init_vcpus init c.vcpu_num 0 s.vcpus) [
  | none ↦ fault
  | some (vs, code) ↦ made (record s { vcpus = vs }, code)
]

unfoldable pub init_pio : SetupStep
init_pio s = elim (init_pio_handler machine_devices s.table) [
  | none ↦ fault
  | some t ↦ made (record s { table = t }, pos 0)
]

unfoldable pub init_vcpu_sregs : Config → Kernel → SetupStep
unfolding init_each
init_vcpu_sregs c k s = if c.is_64bit_boot then fault else init_each c (set_sregs_of c k) s

-- `initmachine_func`.
unfoldable pub initmachine_func : Config → Kernel → List SetupStep
initmachine_func c k =
    ioctl k (set_tss_addr tss_base)
    ∷ ioctl k (set_identity_map_addr identity_map_base)
    ∷ ioctl k create_irqchip
    ∷ ioctl k create_pit2
    ∷ create_vcpus k c.vcpu_num 0
    ∷ alloc_guest_ram c k
    ∷ ioctl k (set_user_memory_region (region_of c))
    ∷ init_pio
    ∷ init_each c (set_regs_of k)
    ∷ init_vcpu_sregs c k
    ∷ []

-- The loop of `initMachine`.
unfoldable pub run_steps : List SetupStep → SetupStep
run_steps [] s = made (s, pos 0)
run_steps (f ∷ fs) s = elim (f s) [
  | thrown ↦ thrown
  | fault ↦ fault
  | made (s', r) ↦ let rest = run_steps fs s' in if is_neg r then made (s', r) else rest
]

unfoldable pub init_machine : Config → Kernel → SetupStep
unfolding initmachine_func
init_machine c k s = run_steps (initmachine_func c k) s
