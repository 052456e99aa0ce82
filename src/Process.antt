-- ===== src/Process.antt =====
-- The processes of src/modified/sys/process.c as far as their open files go: the tables of open
-- files, fork and exit, and the endpoints' reference counts that they share.
--
-- An endpoint is a number that stands for its pointer. A process is its table of open files; memory
-- spaces, trap frames and the start of the child's thread are left out.
pub mod Counts
pub mod Balance
pub mod Stack
mod Tests
use unix_like_operating_syst.Base.{
  ℕ, zero, suc, ◌+◌, ◌-◌, ◌%◌, ◌^◌, Bool, true, false, Option, none, some, List, [], ◌∷◌, ◌++◌,
  ◌==◌, if◌then◌else◌, put, set, get_or, replicate,
}
use unix_like_operating_syst.Base.Results.{Result, ok, err, enomem}

-- `PROCESS_UIOMAX`
abbrev pub max_files : ℕ
max_files = 16

-- `uiotab`
abbrev pub UioTab : Type 0
UioTab = List (Option ℕ)

-- The processes, the reference count of each endpoint, and the endpoints whose close function has
-- been called, from the last to the first.
pub record World : Type 0 where
  pub procs : List UioTab
  pub refs : ℕ → ℕ
  pub closed : List ℕ

abbrev pub tab_of : ℕ → World → UioTab
tab_of p w = get_or w.procs p []

abbrev pub with_tab : ℕ → UioTab → World → World
with_tab p tab w = record w { procs = set w.procs p tab }

-- `uio_addref`, on an entry of a table that may be null
unfoldable pub addref : Option ℕ → (ℕ → ℕ) → ℕ → ℕ
addref none refs = refs
addref (some u) refs = put refs u ((refs u + 1) % 2 ^ 64)

abbrev pub closed_if : ℕ → ℕ → List ℕ → List ℕ
closed_if zero u us = u ∷ us
closed_if (suc n) u us = us

-- `uio_close`, on an entry of a table that may be null
unfoldable pub close_entry : Option ℕ → World → World
close_entry none w = w
close_entry (some u) w = record w {
  refs = put w.refs u (w.refs u - 1);
  closed = closed_if (w.refs u - 1) u w.closed;
}

-- The loop of `process_fork` that takes a reference for each entry.
unfoldable pub addref_all : UioTab → (ℕ → ℕ) → ℕ → ℕ
addref_all [] refs = refs
addref_all (o ∷ tab) refs = addref_all tab (addref o refs)

-- The loops that close each entry.
unfoldable pub close_all : UioTab → World → World
close_all [] w = w
close_all (o ∷ tab) w = close_all tab (close_entry o w)

-- The end of `process_fork`: whether its memory and thread could be had decides what becomes of the
-- references taken.
unfoldable pub forked : UioTab → Result ℕ → World → Result ℕ × World
forked tab (ok tid) w = (ok tid, record w { procs = w.procs ++ (tab ∷ []) })
forked tab (err e) w = (err e, close_all tab w)

-- `process_fork` of process `p`, with or without memory for the new process, and with what the
-- later allocations and the thread's start give.
unfoldable pub process_fork : ℕ → Bool → Result ℕ → World → Result ℕ × World
process_fork p false spawned w = (err enomem, w)
process_fork p true spawned w =
    let tab = tab_of p w in forked tab spawned (record w { refs = addref_all tab w.refs })

-- The table that is left: each entry is set to null.
abbrev pub cleared : UioTab → UioTab
cleared [] = []
cleared (o ∷ tab) = none ∷ cleared tab

-- The loop of `process_exit`.
unfoldable pub process_exit : ℕ → World → World
process_exit p w = with_tab p (cleared (tab_of p w)) (close_all (tab_of p w) w)
