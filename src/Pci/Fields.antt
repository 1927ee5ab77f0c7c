-- ===== src/Pci/Fields.antt =====
-- What the getters read out of the address register, and what its port handlers do.
use lvmm.Base.{
  ℕ, ◌+◌, ◌*◌, ◌/◌, ◌%◌, ◌^◌, ◌≤◌, ◌<◌, ◌≡◌, refl, Bool, List, [], ◌∷◌, ◌==◌, if◌then◌else◌, arith,
  pos, length, IsBytes, le_bytes, le_word-le_bytes,
}
use lvmm.Base.Bits.{bit_and-ones, bit_and-field}
use lvmm.Pci.Defs.{
  Pci, is_addr_enable, get_offset, get_func, get_dev, get_bus, config_addr_in, config_addr_out,
  word_at,
}

-- The CONFIG_ADDRESS word of configuration mechanism 1: enable, bus, device, function, register.
abbrev pub config_address : Bool → ℕ → ℕ → ℕ → ℕ → ℕ
config_address enable bus dev func reg =
    (if enable then 2 ^ 31 else 0) + bus * 2 ^ 16 + dev * 2 ^ 11 + func * 2 ^ 8 + reg * 4

get_offset_lem : (p : Pci) → get_offset p ≡ p.addr / 4 % 64 * 4
unfolding get_offset
get_offset_lem p = bit_and-field 2 6 p.addr

get_func_lem : (p : Pci) → get_func p ≡ p.addr / 256 % 8
unfolding get_func
get_func_lem p = omega (arith, bit_and-field 8 3 p.addr)

get_dev_lem : (p : Pci) → get_dev p ≡ p.addr / 2048 % 32
unfolding get_dev
get_dev_lem p = omega (arith, bit_and-field 11 5 p.addr)

get_bus_lem : (p : Pci) → get_bus p ≡ p.addr / 65536 % 256
unfolding get_bus
get_bus_lem p = omega (arith, bit_and-field 16 8 p.addr)

is_addr_enable_lem : (p : Pci) → is_addr_enable p ≡ (p.addr / 2 ^ 31 % 2 == 1)
unfolding is_addr_enable
is_addr_enable_lem p = ground (arith, bit_and-ones 1 (p.addr / 2 ^ 31))

-- The getters give these fields.
abbrev pub Decodes : Pci → Bool → ℕ → ℕ → ℕ → ℕ → Type 0
Decodes q enable bus dev func reg =
    (is_addr_enable q ≡ enable)
    × (get_bus q ≡ bus)
    × (get_dev q ≡ dev)
    × (get_func q ≡ func)
    × (get_offset q ≡ reg * 4)

decode :
    (enable : Bool) (bus dev func reg : ℕ)
    → bus < 256
    → dev < 32
    → func < 8
    → reg < 64
    → (q : Pci) → q.addr ≡ config_address enable bus dev func reg
    → Decodes q enable bus dev func reg
decode enable bus dev func reg hb hd hf hr q e = (
  ground (arith, is_addr_enable_lem q),
  ground (arith, get_bus_lem q),
  ground (arith, get_dev_lem q),
  ground (arith, get_func_lem q),
  ground (arith, get_offset_lem q),
)

-- A CONFIG_ADDRESS word that the guest writes in one 4-byte access is taken apart by the getters
-- into the enable bit, bus, device, function and register that it was put together from.
pub config_addr_out-fields :
    (p : Pci) (enable : Bool) (bus dev func reg : ℕ)
    → bus < 256
    → dev < 32
    → func < 8
    → reg < 64
    → let (q, r) = config_addr_out p (le_bytes 4 (config_address enable bus dev func reg)) 4 in
      (r ≡ pos 0) × Decodes q enable bus dev func reg
unfolding config_addr_out
config_addr_out-fields p enable bus dev func reg hb hd hf hr =
    (refl, decode enable bus dev func reg hb hd hf hr _ whole)
  where
    address : ℕ
    address = config_address enable bus dev func reg

    whole : word_at (le_bytes 4 address) ≡ address
    whole = le_word-le_bytes 4 address (ground arith)

-- On a buffer of at least 4 bytes `config_addr_in` changes no byte and never looks at the address
-- register: an access of 4 bytes is reported as done, any other as failed.
pub config_addr_in_inert :
    (p : Pci) (bytes : List ℕ) (size : ℕ)
    → 4 ≤ length bytes
    → IsBytes bytes
    → config_addr_in p bytes size ≡ (bytes, if size == 4 then pos 0 else pos 1)
unfolding config_addr_in
config_addr_in_inert p [] size h ok = absurd (omega arith)
config_addr_in_inert p (a ∷ []) size h ok = absurd (omega arith)
config_addr_in_inert p (a ∷ b ∷ []) size h ok = absurd (omega arith)
config_addr_in_inert p (a ∷ b ∷ c ∷ []) size h ok = absurd (omega arith)
config_addr_in_inert p (a ∷ b ∷ c ∷ d ∷ bytes) size h ok = ground arith
