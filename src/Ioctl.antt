-- ===== src/Ioctl.antt =====
-- The wrapper of the ioctls, `BaseClass::_kvmIoctl` of include/baseclass.hpp, and the way its
-- callers turn what it gives into their own result.
use lvmm.Base.{
  true, false, ◌≡◌, ◌↔◌, refl, ℕ, ◌<◌, Bool, Option, none, some, if◌then◌else◌, ℤ, pos, neg, ◌⊎◌,
  inl, inr,
}

-- What a system call answers: a result that is not negative, or a negative one with an `errno`.
pub data Answer : Type 0 where
  result errno : ℕ → Answer

-- `none`: an exception is thrown.
unfoldable pub raw_kvm_ioctl : Bool → Answer → Option ℤ
raw_kvm_ioctl raise_exception (result r) = some (pos r)
raw_kvm_ioctl raise_exception (errno e) = if raise_exception then none else some (neg e)

abbrev pub kvm_ioctl : Answer → ℤ
kvm_ioctl (result r) = pos r
kvm_ioctl (errno e) = neg e

-- `if (r < 0) return -errno; return 0;`
abbrev pub zero_or_errno : Answer → ℤ
zero_or_errno (result r) = pos 0
zero_or_errno (errno e) = neg e

-- A failed call has a positive `errno`.
abbrev pub IsSound : Answer → Type 0
IsSound (result r) = Unit
IsSound (errno e) = 0 < e

-- How code ends that may throw: with a value, by an exception, or with a step that leaves an array or
-- fails an assertion.
pub data Attempt {ℓ} (A : Type ℓ) : Type ℓ where
  made : A → Attempt A
  thrown fault : Attempt A

pub Answer-cases : (a : Answer) → ((r : ℕ) × (a ≡ result r)) ⊎ ((e : ℕ) × (a ≡ errno e))
Answer-cases (result r) = inl (r, refl)
Answer-cases (errno e) = inr (e, refl)

-- Code that ends with a value, or not.
pub Attempt-cases {ℓ} :
    {A : Type ℓ} (o : Attempt A) → ((a : A) × (o ≡ made a)) ⊎ ((o ≡ thrown) ⊎ (o ≡ fault))
Attempt-cases (made a) = inl (a, refl)
Attempt-cases thrown = inr (inl refl)
Attempt-cases fault = inr (inr refl)

infixl 5 ◌>>=◌
abbrev pub ◌>>=◌ {ℓ κ} : {A : Type ℓ} {B : Type κ} → Attempt A → (A → Attempt B) → Attempt B
made a >>= f = f a
thrown >>= f = thrown
fault >>= f = fault

-- A call that throws where it fails.
abbrev pub or_throw : Answer → Attempt ℕ
or_throw (result r) = made r
or_throw (errno e) = thrown

-- kvmIoctl and kvmIoctlCtor are the two ways to call the wrapper.
raw_kvm_ioctl-kvm_ioctl : (a : Answer) → raw_kvm_ioctl false a ≡ some (kvm_ioctl a)
unfolding raw_kvm_ioctl
raw_kvm_ioctl-kvm_ioctl (result r) = refl
raw_kvm_ioctl-kvm_ioctl (errno e) = refl

raw_kvm_ioctl-or_throw : (a : Answer) → (or_throw a ≡ thrown) ↔ (raw_kvm_ioctl true a ≡ none)
unfolding raw_kvm_ioctl
raw_kvm_ioctl-or_throw (result r) = (λ h. cc h, λ h. cc h)
raw_kvm_ioctl-or_throw (errno e) = (λ h. refl, λ h. refl)
