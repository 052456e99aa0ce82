-- ===== src/Base/Results.antt =====
-- Results of kernel calls: `ok a`, or `err e` for a negative return value, with the names of the
-- error codes that the kernel returns.
use Prim.Native.Nat.{ℕ}
use mathlib.Core.Path.{◌≡◌}

pub data Errno : Type 0 where
  einval ebusy enotsup enodev eio ebadfmt enoent eexist eaccess ebadfd emfile emproc : Errno
  emthr echild enomem epipe enodatablks enoinodeblks : Errno
  -- a code without a name
  other : ℕ → Errno

pub data Result {ℓ} (A : Type ℓ) : Type ℓ where
  ok : A → Result A
  err : Errno → Result A

abbrev pub Succeeds {ℓ} : {A : Type ℓ} → Result A → Type 0
Succeeds (ok _) = Unit
Succeeds (err _) = ⊥

abbrev pub IsOk {ℓ} : {A : Type ℓ} → Result A → Type ℓ
IsOk {A} r = (a : A) × (r ≡ ok a)
