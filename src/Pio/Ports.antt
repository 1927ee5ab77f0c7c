-- ===== src/Pio/Ports.antt =====
-- Which handlers each port has when the machine is set up.
use lvmm.Base.{
  ℕ, ◌≤◌, ◌<◌, ◌≡◌, refl, true, ◌&&◌, List, [], ◌∷◌, some, ltb, leb, ltb→lt, if◌then◌else◌, arith,
  ◌∙◌, sym, ◌||◌,
}
use native.Mathlib.Decide.{dec_lt}
use lvmm.Pio.Defs.{
  Table, Slot, Handler, slot, default_pio, do_nothing_pio, reset_generator_out, read, write, Device,
  post, cmos, com1, register_pio_handler, register_devices, init_pio_handler, machine_devices,
  pio_port_num,
}
use lvmm.Pio.Register.{fill, register_pio_handler_lem}

-- A run of ports with the same two handlers: from `lo` up to `hi`.
pub record Range : Type 0 where
  pub lo : ℕ
  pub hi : ℕ
  pub on_in : Handler
  pub on_out : Handler

abbrev pub range : ℕ → ℕ → Handler → Handler → Range
range lo hi i o = record { lo = lo; hi = hi; on_in = i; on_out = o }

abbrev pub ignored : ℕ → ℕ → Range
ignored lo hi = range lo hi do_nothing_pio do_nothing_pio

abbrev pub device_at : ℕ → ℕ → Device → Range
device_at lo hi d = range lo hi (read d) (write d)

-- The ports of the machine that are not left to `default_pio_handler`, in ascending order.
abbrev pub port_map : List Range
port_map =
    ignored 0x60 0x70
    ∷ device_at 0x70 0x72 cmos
    ∷ device_at 0x80 0x120 post
    ∷ ignored 0x2E8 0x2F0
    ∷ ignored 0x2F8 0x300
    ∷ ignored 0x3B0 0x3BC
    ∷ ignored 0x3C0 0x3E0
    ∷ ignored 0x3E8 0x3F0
    ∷ device_at 0x3F8 0x400 com1
    ∷ ignored 0xCF8 0xCF9
    ∷ range 0xCF9 0xCFA default_pio reset_generator_out
    ∷ ignored 0xCFA 0xCFD
    ∷ ignored 0xCFE 0xCFF
    ∷ ignored 0xC000 0xD000
    ∷ []

-- The ranges do not overlap: each ends before the next begins, and all lie below `bound`.
abbrev pub Ascending : ℕ → List Range → ℕ → Type 0
Ascending from [] bound = from ≤ bound
Ascending from (r ∷ rs) bound = (from ≤ r.lo) × (r.lo < r.hi) × Ascending r.hi rs bound

port_map-Ascending : Ascending 0 port_map pio_port_num
port_map-Ascending = omega arith

abbrev pub find_slot : List Range → ℕ → Slot
find_slot [] p = slot default_pio default_pio
find_slot (r ∷ rs) p = if leb r.lo p && ltb p r.hi then slot r.on_in r.on_out else find_slot rs p

register :
    (lo hi : ℕ) (i o : Handler) (t : Table)
    → ltb lo 65536 ≡ true
    → ltb hi 65536 ≡ true
    → register_pio_handler lo hi i o t ≡ some (fill lo hi (slot i o) t)
register lo hi i o t h k = register_pio_handler_lem lo hi i o t (ltb→lt _ _ h) (ltb→lt _ _ k)

abbrev nothing_slot : Slot
nothing_slot = slot do_nothing_pio do_nothing_pio

abbrev filled : Table → Table
filled t₀ =
    let t₁ = fill 0 pio_port_num (slot default_pio default_pio) t₀ in
    let t₂ = fill 0xED 0xEE nothing_slot t₁ in
    let t₃ = fill 0x2E8 0x2F0 nothing_slot t₂ in
    let t₄ = fill 0x2F8 0x300 nothing_slot t₃ in
    let t₅ = fill 0x3B0 0x3BC nothing_slot t₄ in
    let t₆ = fill 0x3C0 0x3E0 nothing_slot t₅ in
    let t₇ = fill 0x3E8 0x3F0 nothing_slot t₆ in
    let t₈ = fill 0xCFA 0xCFC nothing_slot t₇ in
    let t₉ = fill 0xCF9 0xCFA (slot default_pio reset_generator_out) t₈ in
    let t = fill 0xCF8 0xCF9 nothing_slot t₉ in
    let t = fill 0xCFE 0xCFF nothing_slot t in
    let t = fill 0xCFC 0xCFD nothing_slot t in
    let t = fill 0xC000 0xD000 nothing_slot t in
    let t = fill 0x60 0x70 nothing_slot t in
    let t = fill 0x80 0x120 (slot (read post) (write post)) t in
    let t = fill 0x70 0x72 (slot (read cmos) (write cmos)) t in
    fill 0x3F8 0x400 (slot (read com1) (write com1)) t

init_filled : (t : Table) → init_pio_handler machine_devices t ≡ some (filled t)
unfolding init_pio_handler register_devices
init_filled t = simp register

-- The registrations after the first, the latest one first.
abbrev registered : List Range
registered =
    device_at 0x3F8 0x400 com1
    ∷ device_at 0x70 0x72 cmos
    ∷ device_at 0x80 0x120 post
    ∷ ignored 0x60 0x70
    ∷ ignored 0xC000 0xD000
    ∷ ignored 0xCFC 0xCFD
    ∷ ignored 0xCFE 0xCFF
    ∷ ignored 0xCF8 0xCF9
    ∷ range 0xCF9 0xCFA default_pio reset_generator_out
    ∷ ignored 0xCFA 0xCFC
    ∷ ignored 0x3E8 0x3F0
    ∷ ignored 0x3C0 0x3E0
    ∷ ignored 0x3B0 0x3BC
    ∷ ignored 0x2F8 0x300
    ∷ ignored 0x2E8 0x2F0
    ∷ ignored 0xED 0xEE
    ∷ []

filled-registered : (t : Table) (p : ℕ) → p < pio_port_num → filled t p ≡ find_slot registered p
filled-registered t p h =
    let inside : (leb 0 p && ltb p pio_port_num) ≡ true = ground arith in rw inside refl

-- Where only the ports from `lo` up to `hi` matter, the ranges that miss them can be left out.
abbrev within : ℕ → ℕ → List Range → List Range
within lo hi [] = []
within lo hi (r ∷ rs) = if leb r.hi lo || leb hi r.lo then within lo hi rs else r ∷ within lo hi rs

find_slot-within :
    (lo hi : ℕ) (rs : List Range) (p : ℕ)
    → lo ≤ p
    → p < hi
    → find_slot rs p ≡ find_slot (within lo hi rs) p
find_slot-within lo hi [] p h k = refl
find_slot-within lo hi (r ∷ rs) p h k = ground (arith, find_slot-within lo hi rs p h k)

same_within :
    (lo hi p : ℕ)
    → find_slot (within lo hi registered) p ≡ find_slot (within lo hi port_map) p
    → lo ≤ p
    → p < hi
    → find_slot registered p ≡ find_slot port_map p
same_within lo hi p e h k =
    find_slot-within lo hi registered p h k ∙ e ∙ sym (find_slot-within lo hi port_map p h k)

registered-port_map : (p : ℕ) → p < pio_port_num → find_slot registered p ≡ find_slot port_map p
registered-port_map p h = elim (dec_lt p 0x120) [
  | yes a ↦ same_within 0 0x120 p (ground arith) (omega arith) a
  | no a ↦ elim (dec_lt p 0x3B0) [
    | yes b ↦ same_within 0x120 0x3B0 p (ground arith) (omega arith) b
    | no b ↦ elim (dec_lt p 0x400) [
      | yes c ↦ same_within 0x3B0 0x400 p (ground arith) (omega arith) c
      | no c ↦ elim (dec_lt p 0xC000) [
        | yes d ↦ same_within 0x400 0xC000 p (ground arith) (omega arith) d
        | no d ↦ same_within 0xC000 pio_port_num p (ground arith) (omega arith) h
      ]
    ]
  ]
]

filled-port_map : (t : Table) (p : ℕ) → p < pio_port_num → filled t p ≡ find_slot port_map p
filled-port_map t p h = filled-registered t p h ∙ registered-port_map p h

-- With the machine's devices, `initPIOHandler` ends, never writes outside the array, and gives each
-- of
-- its 65535 ports the handlers of the port map, whatever the table held.
pub init_pio_handler-port_map :
    (t₀ : Table)
    → (t : Table) × (init_pio_handler machine_devices t₀ ≡ some t)
      × ((p : ℕ) → p < pio_port_num → t p ≡ find_slot port_map p)
init_pio_handler-port_map t₀ = (filled t₀, init_filled t₀, filled-port_map t₀)
