-- ===== src/IoDev.antt =====
-- The interface of the port devices (include/iodev.hpp): `Read` and `Write` take a port, a buffer
-- and the size of the access.
use lvmm.Base.{ℕ, List, Option, ℤ, set, get_or}

-- What an access leaves: the device, the buffer at `data_ptr`, and the returned `int`.
pub record Reply (S : Type 0) : Type 0 where
  pub dev : S
  pub buf : List ℕ
  pub ret : ℤ

-- `none` is an access outside an array of the device, which C++ leaves undefined.
abbrev pub Outcome : Type 0 → Type 0
Outcome S = Option (Reply S)

-- `*data_ptr` and `*data_ptr = v`.
abbrev pub first : List ℕ → ℕ
first buf = get_or buf 0 0

abbrev pub put_first : List ℕ → ℕ → List ℕ
put_first buf v = set buf 0 v
