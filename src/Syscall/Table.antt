-- ===== src/Syscall/Table.antt =====
-- The choice of a descriptor in src/modified/sys/syscall.c.
use unix_like_operating_syst.Base.{
  ℕ, zero, suc, ◌≡◌, ◌<◌, refl, sym, ap, ◌∙◌, inl, inr, true, Option, none, some, arith, leb,
  Bool-cases, get_or,
}
use unix_like_operating_syst.Base.Results.{Errno, ok, emfile, ebadfd, ebusy}
use unix_like_operating_syst.Process.{UioTab}
use unix_like_operating_syst.Syscall.{
  ℤ, pos, negsuc, is_null, minus_one, find_null, vacant, found_or, open_fd, dup_fd, pipe_fd,
}

-- A descriptor in range whose entry is null.
abbrev pub Vacant : UioTab → ℕ → Type 0
Vacant tab i = (i < 16) × (get_or tab i none ≡ none)

is_null-none : (o : Option ℕ) → is_null o ≡ true → o ≡ none
is_null-none none e = refl
is_null-none (some u) e = cc e

pub vacant-Vacant :
    (x : Errno) (tab : UioTab) (fd i : ℕ) → vacant x tab fd ≡ ok i → (fd ≡ i) × Vacant tab i
unfolding vacant
vacant-Vacant x tab fd i e = elim (Bool-cases (leb 16 fd)) [
  | inl y ↦ cc (rw y at e)
  | inr n ↦ elim (Bool-cases (is_null (get_or tab fd none))) [
    | inl t ↦
        let same : fd ≡ i = cc (rw t at (rw n at e)) in
        let low : fd < 16 = ground (arith, n) in
        (
          same,
          (
            omega (arith, same, low),
            ap (λ (k : ℕ). get_or tab k none) (sym same) ∙ is_null-none (get_or tab fd none) t,
          ),
        )
    | inr f ↦ cc (rw f at (rw n at e))
  ]
]

found_or-Vacant :
    (x y : Errno) (tab : UioTab) (o : Option ℕ) (i : ℕ)
    → found_or x o (vacant y tab) ≡ ok i
    → Vacant tab i
unfolding found_or
found_or-Vacant x y tab none i e = cc e
found_or-Vacant x y tab (some j) i e = (vacant-Vacant y tab j i e).1

pub open_fd-Vacant : (tab : UioTab) (fd : ℤ) (i : ℕ) → open_fd tab fd ≡ ok i → Vacant tab i
unfolding open_fd
open_fd-Vacant tab (pos fd) i e = (vacant-Vacant ebadfd tab fd i e).1
open_fd-Vacant tab (negsuc zero) i e =
    found_or-Vacant emfile ebadfd tab (find_null minus_one 0 tab) i e
open_fd-Vacant tab (negsuc (suc n)) i e = cc e

pub dup_fd-Vacant : (tab : UioTab) (fd : ℤ) (i : ℕ) → dup_fd tab fd ≡ ok i → Vacant tab i
unfolding dup_fd
dup_fd-Vacant tab (pos fd) i e = (vacant-Vacant ebadfd tab fd i e).1
dup_fd-Vacant tab (negsuc n) i e = found_or-Vacant emfile ebadfd tab (find_null minus_one 0 tab) i e

pub pipe_fd-Vacant :
    (tab : UioTab) (other fd : ℤ) (i : ℕ) → pipe_fd tab other fd ≡ ok i → Vacant tab i
unfolding pipe_fd
pipe_fd-Vacant tab other (pos fd) i e = (vacant-Vacant ebusy tab fd i e).1
pipe_fd-Vacant tab other (negsuc n) i e =
    found_or-Vacant ebadfd ebusy tab (find_null other 0 tab) i e
