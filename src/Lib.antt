-- ===== src/Lib.antt =====
-- lvmm is a small virtual machine monitor on Linux KVM. It sets up a machine, puts a Linux image
-- into guest memory, runs each vCPU in a loop, and serves the guest's port accesses with its own
-- devices. This library models that logic and proves what the program promises of it. Paths are
-- those of the repository.
--
-- The parts and how they interact:
-- - Pci: the register CONFIG_ADDRESS with its getters and handlers (include/pci.hpp, src/pci.cpp).
-- - IoDev: what Read and Write of a device give back (include/iodev.hpp). A device gets the port,
--   the bytes at the data pointer and the size; it leaves a device, those bytes and an `int`. Where
--   the code can read outside an array the reply is an Option, and `none` is that fault.
-- - Cmos: the real-time clock (include/cmos.hpp, src/cmos.cpp). `cmos_read` and `cmos_write` are
--   CMOS::Read and CMOS::Write; the host's local time is an argument of a read. Cmos/Threads takes
--   them apart at each use of `index` and `data`, for any number of vCPUs that access the device at
--   once; an access has at most four such points.
-- - Irq: VM::irqLine and VM::flapIRQLine (src/vm.cpp). The outcome of each KVM_IRQ_LINE is an
--   argument, and the host records the levels that were set.
-- - Com1: the serial port (include/com1.hpp, src/com1.cpp). Com1/Defs has COM1::Read and
--   COM1::Write, Com1/Loop a round of COM1::readerLoop and sequences of events, Com1/Threads the
--   same code taken apart where the reader's and the guest's thread touch shared state, as a step
--   relation, Com1/Vcpus the accesses of several vCPUs taken apart, with the bytes that they hand over
--   and are given, Com1/Terminal the settings of the terminal. It raises its interrupt through Irq.
-- - Pio: the handler table, VM::registerPIOHandler and VM::initPIOHandler (include/pio.hpp,
--   src/vm.cpp). The counter of the loop is a uint16_t: 65536 rounds of fuel are enough, because it
--   counts from a bound up to one that is at most 65535.
-- - Exit: Vcpu::RunOnce and Vcpu::RunLoop (src/vcpu.cpp), over the table of Pio, whose handlers are
--   the three functions of src/pio.cpp and the devices above with POST (src/post.cpp). Exit/Loop
--   takes the exits as given; Exit/Enter has Vcpu::Run and the run page, which a failed KVM_RUN may
--   leave as it was, so that the exits are what the page then holds. Exit/Console is the serial
--   console that the guest sees behind its accesses, which an exit of several elements gives its
--   first byte each time.
-- - Debug: what a build with GUEST_DEBUG adds, SetGuestDebug, the first loop of VM::Boot and the
--   debug exits of RunLoop (src/vcpu.cpp, src/vm.cpp).
-- - Mp: the MultiProcessor tables, their bytes and checksums, processor_entry_init and gen_ebda
--   (include/boot.hpp, src/boot.cpp).
-- - Boot: the setup header and the boot parameters (include/boot.hpp, src/boot.cpp), and
--   VM::initRAM (src/vm.cpp), which puts them, the tables of Mp, the initramfs, the command line
--   and the kernel into guest memory. Memory is a function from addresses to bytes with a size; a
--   copy that leaves it is a fault. The two files are their bytes, or none where they do not open;
--   Boot/Streams has them as streams with a position, and get_ifs_size (include/util.hpp).
-- - Paging: VM::createPageTable (src/vm.cpp, include/paging.hpp), with the processor's walk over
--   such tables as the reference.
-- - Ioctl: BaseClass::_kvmIoctl (include/baseclass.hpp). A system call answers a result or an
--   `errno`; code that may throw ends with a value, by an exception or with a fault.
-- - Cpufeat: cpuSupportsVM (include/cpufeat.hpp), over the CPUID instruction.
-- - Kvm: the constructor of KVM, kvmCapCheck with its defaults and kvmCreateVM (include/kvm.hpp,
--   src/kvm.cpp), over what the ioctls answer.
-- - Vcpu: the registers and their flags (include/vcpu.hpp), InitRegs, InitSregs and the constructor
--   of Vcpu (src/vcpu.cpp). What KVM_GET_REGS gives is what KVM holds, and a set that fails leaves
--   it. Vcpu/Supported has KVM::getSupportedCPUID (src/kvm.cpp). DumpRegs and DumpSregs are lists
--   of what they put into the stream; Vcpu/Stream makes them a text. A number below 2^64 has at
--   most 20 digits, which is the fuel of its digits.
-- - Setup: VM::initMachine with its ten steps in order (src/vm.cpp), over what the system calls
--   answer: the vCPUs that it makes through Vcpu, the guest's memory and the table of Pio.
--   Setup/Trace lists the calls of each step, with the KVM_GET_SUPPORTED_CPUID of each vCPU whose
--   answer the code throws away, and Setup/Protocol is the state machine that knows which call is next.
-- - Run: VM::Boot (src/vm.cpp), one thread for each vCPU, over a schedule that says whose exit comes
--   next. Each exit is handled by Exit as a whole. Run/Calls is one vCPU over its calls of KVM_RUN.
-- - Program: main (src/main.cpp) with the constructor of VM (src/vm.cpp) and is_kernel_elf
--   (include/util.hpp): Kvm, Setup, Boot and Run one after another. The host is a record of what
--   its calls answer and of the two files. Program/Calls goes on to the calls of KVM_RUN,
--   Program/Endings follows the terminal to the end of the process. A kernel file of less than
--   4 bytes is read as one that has no valid header, with either state of its stream.
-- - Base: lists, bytes, bits and tests over native numbers, which the parts share.
--
-- Machine integers are natural numbers; where the code can wrap around, the remainder is written
-- out. The `int` that handlers return is a ℤ of its own.
--
-- Not modelled: output for people but for the register dumps; the interrupts that several vCPUs at
-- the serial port raise, whose two ioctls may interleave, since main makes one vCPU; memory orders
-- weaker than sequential consistency, which C++ leaves open for the devices' plain members; the
-- list of PCI devices, which no compiled code uses; the tests and scripts. What the host's calls
-- answer is an argument of the definitions.
pub mod Base
pub mod Pci
pub mod IoDev
pub mod Cmos
pub mod Irq
pub mod Com1
pub mod Pio
pub mod Exit
pub mod Mp
pub mod Paging
pub mod Boot
pub mod Kvm
pub mod Setup
pub mod Ioctl
pub mod Vcpu
pub mod Cpufeat
pub mod Program
pub mod Run
pub mod Debug
