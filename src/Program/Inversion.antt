-- ===== src/Program/Inversion.antt =====
-- What each step of `main` has found when the program goes on behind it.
use lvmm.Base.{
  ℕ, ◌≤◌, ◌≡◌, refl, sym, ap, ◌∙◌, List, none, some, Option, false, true, Bool, if◌then◌else◌,
  is_neg, ℤ, neg, arith,
}
use lvmm.Ioctl.{Answer, result, errno, Attempt, made, thrown, or_throw, IsSound}
use lvmm.Kvm.{
  KvmCap, Capability, cap_immediate_exit, cap_nr_memslots, cap_multi_address_space, cap_nr_vcpus,
  cap_max_vcpus, cap_coalesced_mmio, Kvm, asked, construct_kvm, kvm_cap_check, ask_caps,
  kvm_create_vm, or_thrown,
}
use lvmm.Boot.{File, Ram, Loading, ok, failed, init_ram}
use lvmm.Program.Defs.{
  Host, Progress, reaches, exits, uncaught, attempted, get_kvm_fd, return_if, is_kernel_elf,
  vm_conf, main_cmdline, construct_vm, create_vm_of, vm_made, loading, init_ram_of, start_machine,
}

-- A chain that ends with a value has been through each of its steps.
pub reaches-bind {ℓ κ μ} :
    {P : Type ℓ} {A : Type κ} {B : Type μ} (o : Progress A) {f : A → Progress B} {b : B}
    → lvmm.Program.Defs.◌>>=◌ o f ≡ reaches b
    → ((a : A) → o ≡ reaches a → f a ≡ reaches b → P)
    → P
reaches-bind (reaches a) h k = k a refl h
reaches-bind (exits r) h k = cc h
reaches-bind uncaught h k = cc h
reaches-bind Progress.fault h k = cc h

made-bind {ℓ κ μ} :
    {P : Type ℓ} {A : Type κ} {B : Type μ} (o : Attempt A) {f : A → Attempt B} {b : B}
    → lvmm.Ioctl.◌>>=◌ o f ≡ made b
    → ((a : A) → o ≡ made a → f a ≡ made b → P)
    → P
made-bind (made a) h k = k a refl h
made-bind thrown h k = cc h
made-bind Attempt.fault h k = cc h

pub attempted-reaches {ℓ} :
    {A : Type ℓ} (o : Attempt A) (a : A) → attempted o ≡ reaches a → o ≡ made a
attempted-reaches (made x) a h = cc h
attempted-reaches thrown a h = cc h
attempted-reaches Attempt.fault a h = cc h

made-injective {ℓ} : {A : Type ℓ} {x y : A} → made x ≡ made y → x ≡ y
made-injective h = cc h

or_throw-made : (a : Answer) (r : ℕ) → or_throw a ≡ made r → a ≡ result r
or_throw-made (result x) r h = cc h
or_throw-made (errno e) r h = cc h

or_thrown-made : (o : Option Bool) (b : Bool) → or_thrown o ≡ made b → o ≡ some b
or_thrown-made none b h = cc h
or_thrown-made (some x) b h = cc h

-- The limit of the vCPUs that a chain of questions has found.
asked-limit :
    (ask : Capability → Answer) (caps : Capability → ℕ)
    → asked ask ≡ made caps
    → ask cap_max_vcpus ≡ result (caps cap_max_vcpus)
unfolding asked
asked-limit ask caps h = made-bind (or_throw (ask cap_immediate_exit)) h (λ a e1 h1.
    made-bind (or_throw (ask cap_nr_memslots)) h1 (λ b e2 h2.
      made-bind (or_throw (ask cap_multi_address_space)) h2 (λ c e3 h3.
        made-bind (or_throw (ask cap_nr_vcpus)) h3 (λ d e4 h4.
          made-bind (or_throw (ask cap_max_vcpus)) h4 (λ n e5 h5.
            made-bind (or_throw (ask cap_coalesced_mmio)) h5 (λ f e6 h6.
              or_throw-made (ask cap_max_vcpus) n e5
              ∙ ap (λ (g : Capability → ℕ). result (g cap_max_vcpus)) (made-injective h6)))))))

pub construct_kvm-made :
    (supports : Option Bool) (version : Answer) (ask : Capability → Answer) (size : Answer)
    (kvm : Kvm)
    → construct_kvm supports version ask size ≡ made kvm
    → ((b : Bool) × (supports ≡ some b)) × (ask cap_max_vcpus ≡ result kvm.cap.hard_vcpus_limit)
unfolding construct_kvm kvm_cap_check ask_caps
construct_kvm-made supports version ask size kvm h = made-bind (or_thrown supports) h (λ b e1 h1.
    made-bind (or_throw version) h1 (λ v e2 h2. made-bind (asked ask) h2 (λ caps e3 h3.
      made-bind (or_throw size) h3 (λ n e4 h4. (
        (b, or_thrown-made supports b e1),
        asked-limit ask caps e3
            ∙ ap (λ (k : Kvm). result k.cap.hard_vcpus_limit) (made-injective h4),
      )))))

pub return_if-reaches : (c : Bool) (u : Unit) → return_if c ≡ reaches u → c ≡ false
return_if-reaches true u h = cc h
return_if-reaches false u h = refl

pub get_kvm_fd-opened :
    (a : Answer) → IsSound a → is_neg (get_kvm_fd a) ≡ false → (fd : ℕ) × (a ≡ result fd)
get_kvm_fd-opened (result fd) s h = (fd, refl)
get_kvm_fd-opened (errno e) s h = absurd (ground arith)

unless-elf :
    (c : Bool) (x files : List ℕ × List ℕ)
    → (if c then uncaught else reaches x) ≡ reaches files
    → (c ≡ false) × (x ≡ files)
unless-elf true x files h = cc h
unless-elf false x files h = (refl, cc h)

pub construct_vm-reaches :
    (buf : List ℕ) (kernel_file initramfs_file : File) (files : List ℕ × List ℕ)
    → construct_vm buf kernel_file initramfs_file ≡ reaches files
    → (kernel_file ≡ some files.0)
      × (initramfs_file ≡ some files.1)
      × (is_kernel_elf buf files.0 ≡ false)
unfolding construct_vm
construct_vm-reaches buf none i files h = cc h
construct_vm-reaches buf (some k) none files h = cc h
construct_vm-reaches buf (some k) (some i) files h =
    let (plain, same) = unless-elf (is_kernel_elf buf k) (k, i) files h in
    let kernel : k ≡ files.0 = ap (λ (f : List ℕ × List ℕ). f.0) same in
    let initramfs : i ≡ files.1 = ap (λ (f : List ℕ × List ℕ). f.1) same in
    (ap some kernel, ap some initramfs, ap (is_kernel_elf buf) (sym kernel) ∙ plain)

no_machine :
    (c : Bool) (files : List ℕ × List ℕ)
    → (if c then exits (neg 1) else Progress.fault) ≡ reaches files
    → ⊥
no_machine true files h = cc h
no_machine false files h = cc h

pub vm_made-reaches :
    (h : Host) (o : Option ℕ) (r : ℤ) (files : List ℕ × List ℕ)
    → vm_made h o r ≡ reaches files
    → ((fd : ℕ) × (o ≡ some fd))
      × (construct_vm h.buf h.kernel_file h.initramfs_file ≡ reaches files)
unfolding vm_made
vm_made-reaches h none r files e = absurd (no_machine (is_neg r) files e)
vm_made-reaches h (some fd) r files e =
    reaches-bind (construct_vm h.buf h.kernel_file h.initramfs_file) e
      (λ found e1 h1. reaches-bind (return_if (is_neg r)) h1 (λ u e2 h2. ((fd, refl), e1 ∙ h2)))

pub kvm_create_vm-some :
    (cap : KvmCap) (n : ℕ) (a : Answer) (fd : ℕ)
    → (kvm_create_vm cap n a).0 ≡ some fd
    → (a ≡ result fd) × (n ≤ cap.hard_vcpus_limit)
unfolding kvm_create_vm
kvm_create_vm-some cap n (result x) fd h = ground arith
kvm_create_vm-some cap n (errno e) fd h = ground arith

loading-reaches : (o : Loading Ram) (r : Ram) → loading o ≡ reaches r → o ≡ ok r
loading-reaches (ok x) r h = cc h
loading-reaches (failed x) r h = cc h
loading-reaches Loading.fault r h = cc h

pub init_ram_of-reaches :
    (kernel initramfs : List ℕ) (o : Option Ram) (r : Ram)
    → init_ram_of kernel initramfs o ≡ reaches r
    → (ram : Ram) × (init_ram vm_conf (some initramfs) (some kernel) main_cmdline ram ≡ ok r)
unfolding init_ram_of
init_ram_of-reaches kernel initramfs none r e = cc e
init_ram_of-reaches kernel initramfs (some ram) r e = (ram, loading-reaches _ r e)
