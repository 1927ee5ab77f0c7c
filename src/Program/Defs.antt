-- ===== src/Program/Defs.antt =====
-- `main` up to the call of `VM::Boot`, over what the host answers.
use lvmm.Base.{
  ℕ, ◌^◌, ◌*◌, List, [], ◌∷◌, ◌++◌, Option, none, some, Bool, false, if◌then◌else◌, ℤ, is_neg,
  is_nonzero, neg, same_bytes, length, take, drop,
}
use lvmm.Ioctl.{Answer, kvm_ioctl, Attempt, made, thrown}
use lvmm.Cpufeat.{Cpuid, cpu_supports_vm}
use lvmm.Kvm.{Capability, Kvm, construct_kvm, kvm_create_vm}
use lvmm.Boot.{Config, File, Ram, Loading, init_ram}
use lvmm.Pio.{Table}
use lvmm.Setup.{Kernel, Setup, init_machine, start}

abbrev pub elf_magic_size : ℕ
elf_magic_size = 4

abbrev pub elf_magic : List ℕ
elf_magic = 0x7f ∷ b'E' ∷ b'L' ∷ b'F' ∷ []

-- `is_kernel_elf` of an opened file: `read` overwrites as much of the array, which held `buf`, as the
-- file has.
unfoldable pub is_kernel_elf : List ℕ → List ℕ → Bool
is_kernel_elf buf bytes =
    let got = take elf_magic_size bytes in same_bytes (got ++ drop (length got) buf) elf_magic

-- `vm_conf` of `main`, but for the paths.
abbrev pub vm_conf : Config
vm_conf = record { vcpu_num = 1; ram_size = 1 * 2 ^ 30; is_64bit_boot = false }

-- The command line of `main`.
abbrev pub main_cmdline : List ℕ
main_cmdline =
    b'c' ∷ b'o' ∷ b'n' ∷ b's' ∷ b'o' ∷ b'l' ∷ b'e' ∷ b'=' ∷ b't' ∷ b't' ∷ b'y' ∷ b'S' ∷ b'0' ∷ b' '
    ∷ b'e' ∷ b'a' ∷ b'r' ∷ b'l' ∷ b'y' ∷ b'p' ∷ b'r' ∷ b'i' ∷ b'n' ∷ b't' ∷ b'k' ∷ b'=' ∷ b's'
    ∷ b'e' ∷ b'r' ∷ b'i' ∷ b'a' ∷ b'l' ∷ b' ' ∷ b'n' ∷ b'o' ∷ b'a' ∷ b'p' ∷ b'i' ∷ b'c' ∷ b' '
    ∷ b'n' ∷ b'o' ∷ b'a' ∷ b'c' ∷ b'p' ∷ b'i' ∷ b' ' ∷ b'n' ∷ b'o' ∷ b'w' ∷ b'a' ∷ b't' ∷ b'c'
    ∷ b'h' ∷ b'd' ∷ b'o' ∷ b'g' ∷ b' ' ∷ b'n' ∷ b'm' ∷ b'i' ∷ b'_' ∷ b'w' ∷ b'a' ∷ b't' ∷ b'c'
    ∷ b'h' ∷ b'd' ∷ b'o' ∷ b'g' ∷ b'=' ∷ b'0' ∷ b' ' ∷ b'd' ∷ b'e' ∷ b'b' ∷ b'u' ∷ b'g' ∷ b' '
    ∷ b'a' ∷ b'p' ∷ b'i' ∷ b'c' ∷ b'=' ∷ b'd' ∷ b'e' ∷ b'b' ∷ b'u' ∷ b'g' ∷ b' ' ∷ b's' ∷ b'h'
    ∷ b'o' ∷ b'w' ∷ b'_' ∷ b'l' ∷ b'a' ∷ b'p' ∷ b'i' ∷ b'c' ∷ b'=' ∷ b'a' ∷ b'l' ∷ b'l' ∷ b' '
    ∷ b'm' ∷ b'i' ∷ b't' ∷ b'i' ∷ b'g' ∷ b'a' ∷ b't' ∷ b'i' ∷ b'o' ∷ b'n' ∷ b's' ∷ b'=' ∷ b'o'
    ∷ b'f' ∷ b'f' ∷ b' ' ∷ b'l' ∷ b'a' ∷ b'p' ∷ b'i' ∷ b'c' ∷ b' ' ∷ b'r' ∷ b'd' ∷ b'i' ∷ b'n'
    ∷ b'i' ∷ b't' ∷ b'=' ∷ b'/' ∷ b'i' ∷ b'n' ∷ b'i' ∷ b't' ∷ b' ' ∷ b'i' ∷ b'n' ∷ b'i' ∷ b't'
    ∷ b'=' ∷ b'/' ∷ b'i' ∷ b'n' ∷ b'i' ∷ b't' ∷ []

-- What the host answers: the CPUID instruction, the calls on /dev/kvm and on the machine, the two
-- files; and what the array of `is_kernel_elf` and the handler table hold before they are filled.
pub record Host : Type 0 where
  pub open_kvm : Answer
  pub cpuid : Cpuid
  pub api_version : Answer
  pub caps : Capability → Answer
  pub mmap_size : Answer
  pub create_vm : Answer
  pub kernel_file : File
  pub initramfs_file : File
  pub buf : List ℕ
  pub table : Table
  pub kernel : Kernel

-- How `main` goes on: with a value, by returning, by an exception that nothing catches, or with a
-- step that leaves an array or fails an assertion.
pub data Progress {ℓ} (A : Type ℓ) : Type ℓ where
  reaches : A → Progress A
  exits : ℤ → Progress A
  uncaught fault : Progress A

infixl 5 ◌>>=◌
abbrev pub ◌>>=◌ {ℓ κ} : {A : Type ℓ} {B : Type κ} → Progress A → (A → Progress B) → Progress B
reaches a >>= f = f a
exits r >>= f = exits r
uncaught >>= f = uncaught
fault >>= f = fault

-- Code that may throw, called from `main`.
abbrev pub attempted {ℓ} : {A : Type ℓ} → Attempt A → Progress A
attempted (made a) = reaches a
attempted thrown = uncaught
attempted Attempt.fault = fault

-- `getKVMFD`: the result of `open`, or `-errno`.
abbrev pub get_kvm_fd : Answer → ℤ
get_kvm_fd opened = kvm_ioctl opened

-- `if (c) return -1;`
abbrev pub return_if : Bool → Progress {0} Unit
return_if c = if c then exits (neg 1) else reaches tt

-- The constructor `VM::VM`, which gives the contents of the kernel and of the initramfs.
unfoldable pub construct_vm : List ℕ → File → File → Progress (List ℕ × List ℕ)
unfolding is_kernel_elf
construct_vm buf none initramfs = uncaught
construct_vm buf (some kernel) none = uncaught
construct_vm buf (some kernel) (some initramfs) =
    if is_kernel_elf buf kernel then uncaught else reaches (kernel, initramfs)

-- Behind the call of `kvmCreateVM`: a machine was made, or the pointer is not set.
unfoldable pub vm_made : Host → Option ℕ → ℤ → Progress (List ℕ × List ℕ)
vm_made h none r = if is_neg r then exits (neg 1) else fault
vm_made h (some fd) r = do
  files ← construct_vm h.buf h.kernel_file h.initramfs_file
  _ ← return_if (is_neg r)
  reaches files

unfoldable pub create_vm_of : Host → Kvm → Progress (List ℕ × List ℕ)
unfolding vm_made
create_vm_of h kvm =
    let made_vm = kvm_create_vm kvm.cap vm_conf.vcpu_num h.create_vm in
    vm_made h made_vm.0 made_vm.1

-- `initRAM`, called from `main`, which returns -1 behind any code but 0.
abbrev pub loading : Loading Ram → Progress Ram
loading (Loading.ok loaded) = reaches loaded
loading (Loading.failed left) = exits (neg 1)
loading Loading.fault = fault

-- Behind a call of `mmap` that succeeded there is memory.
unfoldable pub init_ram_of : List ℕ → List ℕ → Option Ram → Progress Ram
init_ram_of kernel initramfs none = fault
init_ram_of kernel initramfs (some ram) =
    loading (init_ram vm_conf (some initramfs) (some kernel) main_cmdline ram)

-- `main` up to `vm->Boot()`: the machine and its memory.
unfoldable pub start_machine : Host → Progress (Setup × Ram)
unfolding create_vm_of init_ram_of
start_machine h = do
  _ ← return_if (is_neg (get_kvm_fd h.open_kvm))
  kvm ← attempted (construct_kvm (cpu_supports_vm h.cpuid) h.api_version h.caps h.mmap_size)
  files ← create_vm_of h kvm
  machine ← attempted (init_machine vm_conf h.kernel (start h.table))
  _ ← return_if (is_nonzero machine.1)
  ram ← init_ram_of files.0 files.1 machine.0.ram
  reaches (machine.0, ram)
