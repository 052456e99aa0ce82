-- ===== src/Thread/Queue.antt =====
-- Thread lists of src/modified/sys/thread.c: singly linked through each thread's `list_next`, with
-- a head and a tail pointer.
--
-- A thread's address is a number, `none` is a null pointer. The assertions of `tlinsert` and
-- `tlappend` hold on every list that `Holds` describes.
pub mod Fifo
use unix_like_operating_syst.Base.{ℕ, Option, none, some, put}

-- The `list_next` member of every thread.
abbrev pub Links : Type 0
Links = ℕ → Option ℕ

pub record ThreadList : Type 0 where
  pub head : Option ℕ
  pub tail : Option ℕ

pub tlclear : ThreadList
tlclear = record { head = none; tail = none }

pub tlinsert : ThreadList → ℕ → Links → ThreadList × Links
tlinsert l t next = elim l.tail [
  | some last ↦ (record l { tail = some t }, put (put next t none) last (some t))
  | none ↦ (record { head = some t; tail = some t }, put next t none)
]

pub unlinked : ThreadList → ℕ → Links → Option ℕ → ThreadList
unlinked l t next none = record { head = none; tail = none }
unlinked l t next (some u) = record l { head = some u }

-- The list after `tlremove`, the thread, and the links; `none` where the list is empty.
pub tlremove : ThreadList → Links → Option (ℕ × ThreadList × Links)
tlremove l next = elim l.head [
  | none ↦ none
  | some t ↦ some (t, unlinked l t next (next t), put next t none)
]

-- `tlappend l0 l1`: the first list after it, and the links; the second is then empty.
pub tlappend : ThreadList → ThreadList → Links → ThreadList × Links
tlappend l0 l1 next = elim l0.tail [
  | some last ↦ elim l1.head [
    | some t ↦ (record l0 { tail = l1.tail }, put next last (some t))
    | none ↦ (l0, next)
  ]
  | none ↦ (l1, next)
]
