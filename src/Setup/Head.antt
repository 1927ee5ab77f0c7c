-- ===== src/Setup/Head.antt =====
-- The steps of `initMachine` up to the vCPUs' registers, where every call succeeds.
use lvmm.Base.{ℕ, ◌<◌, ◌≡◌, refl, ◌∙◌, List, [], ◌∷◌, none, some, false, if_false, ℤ, pos, is_neg}
use lvmm.Ioctl.{result, made, fault}
use lvmm.Boot.{Config, Ram}
use lvmm.Pio.{Table, pio_port_num, find_slot, port_map, init_pio_handler-port_map}
use lvmm.Setup.Defs.{
  Call, tss_base, identity_map_base, region_of, set_tss_addr, set_identity_map_addr, create_irqchip,
  create_pit2, mmap, set_user_memory_region, Kernel, Setup, SetupStep, ioctl, create_vcpus,
  alloc_guest_ram, init_pio, init_each, init_vcpu_sregs, set_regs_of, set_sregs_of,
  initmachine_func, run_steps, init_machine,
}
use lvmm.Setup.Vcpus.{Works, created, create_vcpus_lem}

-- A machine as the constructor leaves it, with whatever the table's memory holds.
abbrev pub start : Table → Setup
start t = record { table = t; ram = none; vcpus = [] }

abbrev pub zeros : Config → Ram
zeros c = record { size = c.ram_size; byte = λ a. 0 }

pub filled_table : Table → Table
filled_table t = (init_pio_handler-port_map t).0

pub filled_table-port_map :
    (t : Table) (p : ℕ) → p < pio_port_num → filled_table t p ≡ find_slot port_map p
unfolding filled_table
filled_table-port_map t = (init_pio_handler-port_map t).2

-- The machine before its registers are set.
abbrev pub prepared : Config → Kernel → Table → Setup
prepared c k t = record {
  table = filled_table t;
  ram = some (zeros c);
  vcpus = created k c.vcpu_num 0;
}

run_steps-next :
    (f : SetupStep) (fs : List SetupStep) (s s' : Setup) (r : ℤ)
    → f s ≡ made (s', r)
    → is_neg r ≡ false
    → run_steps (f ∷ fs) s ≡ run_steps fs s'
unfolding run_steps
run_steps-next f fs s s' r e n = rw (e, run_steps, n) refl

pub ioctl-next :
    (k : Kernel) (call : Call) (fs : List SetupStep) (s : Setup)
    → (r : ℕ) × (k.answers call ≡ result r)
    → run_steps (ioctl k call ∷ fs) s ≡ run_steps fs s
ioctl-next k call fs s (r, e) = run_steps-next (ioctl k call) fs s s (pos r) (rw e refl) refl

alloc_guest_ram_lem :
    (c : Config) (k : Kernel) (s : Setup)
    → (r : ℕ) × (k.answers mmap ≡ result r)
    → alloc_guest_ram c k s ≡ made (record s { ram = some (zeros c) }, pos 0)
unfolding alloc_guest_ram
alloc_guest_ram_lem c k s (r, e) = rw (e, alloc_guest_ram) refl

init_pio_lem : (s : Setup) → init_pio s ≡ made (record s { table = filled_table s.table }, pos 0)
unfolding init_pio filled_table
init_pio_lem s = rw ((init_pio_handler-port_map s.table).1, init_pio) refl

pub init_vcpu_sregs_lem :
    (c : Config) (k : Kernel) (s : Setup)
    → c.is_64bit_boot ≡ false
    → init_vcpu_sregs c k s ≡ init_each c (set_sregs_of c k) s
unfolding init_vcpu_sregs
init_vcpu_sregs_lem c k s h = if_false c.is_64bit_boot fault (init_each c (set_sregs_of c k) s) h

module _ (c : Config) (k : Kernel) (t : Table) (w : Works k) where
  abbrev last_steps : List SetupStep
  last_steps = init_each c (set_regs_of k) ∷ init_vcpu_sregs c k ∷ []

  pub init_machine-prepared : init_machine c k (start t) ≡ run_steps last_steps (prepared c k t)
  unfolding init_machine initmachine_func
  init_machine-prepared =
      let s1 : Setup = record (start t) { vcpus = created k c.vcpu_num 0 } in
      let s2 : Setup = record s1 { ram = some (zeros c) } in
      ioctl-next k (set_tss_addr tss_base) _ (start t) (w.answered _ refl)
      ∙ ioctl-next k (set_identity_map_addr identity_map_base) _ (start t) (w.answered _ refl)
      ∙ ioctl-next k create_irqchip _ (start t) (w.answered _ refl)
      ∙ ioctl-next k create_pit2 _ (start t) (w.answered _ refl)
      ∙ run_steps-next (create_vcpus k c.vcpu_num 0) _ (start t) s1 (pos 0)
          (create_vcpus_lem k c.vcpu_num 0 (start t) w) refl
      ∙ run_steps-next (alloc_guest_ram c k) _ s1 s2 (pos 0)
          (alloc_guest_ram_lem c k s1 (w.answered mmap refl)) refl
      ∙ ioctl-next k (set_user_memory_region (region_of c)) _ s2 (w.answered _ refl)
      ∙ run_steps-next init_pio last_steps s2 (prepared c k t) (pos 0) (init_pio_lem s2) refl

  -- The last two steps, from what each of them gives.
  pub init_machine-last :
      (s1 s2 : Setup) (r1 r2 : ℤ)
      → init_each c (set_regs_of k) (prepared c k t) ≡ made (s1, r1)
      → is_neg r1 ≡ false
      → init_vcpu_sregs c k s1 ≡ made (s2, r2)
      → is_neg r2 ≡ false
      → init_machine c k (start t) ≡ made (s2, pos 0)
  unfolding run_steps
  init_machine-last s1 s2 r1 r2 e1 n1 e2 n2 =
      init_machine-prepared
      ∙ run_steps-next (init_each c (set_regs_of k)) (init_vcpu_sregs c k ∷ []) (prepared c k t) s1
          r1 e1 n1
      ∙ run_steps-next (init_vcpu_sregs c k) [] s1 s2 r2 e2 n2
