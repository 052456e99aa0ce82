-- ===== src/Syscall/Tests.antt =====
-- The system calls of src/modified/sys/syscall.c on two processes that share an endpoint.
use unix_like_operating_syst.Base.{
  ℕ, ◌+◌, ◌≡◌, refl, true, none, some, List, [], ◌∷◌, arith, ◌==◌, if◌then◌else◌, set,
}
use unix_like_operating_syst.Base.Results.{ok}
use unix_like_operating_syst.Process.{
  World, UioTab, tab_of, addref, addref_all, forked, process_fork, close_entry,
}
use unix_like_operating_syst.Process.Counts.{total}
use unix_like_operating_syst.Process.Balance.{Sound}
use unix_like_operating_syst.Syscall.{
  pos, minus_one, entry, sysclose, sysexec, loaded_all, jumped, sysopen, open_fd, vacant, found_or,
  find_null, sysuiodup, dup_fd, syspipe, pipe_fd,
}
use unix_like_operating_syst.Syscall.Balance.{
  Event, opens, closes, dups, pipes, forks, exits, run_all, run_all-Sound,
}
use unix_like_operating_syst.Syscall.Close.{sysclose-last}
use unix_like_operating_syst.Syscall.Exec.{sysexec-entry}

-- The endpoint 7 as console and in a fourth descriptor, and once in another process.
abbrev first_tab : UioTab
first_tab =
    some 7
    ∷ some 7
    ∷ some 7
    ∷ some 8
    ∷ none
    ∷ none
    ∷ none
    ∷ none
    ∷ none
    ∷ none
    ∷ none
    ∷ none
    ∷ none
    ∷ none
    ∷ none
    ∷ none
    ∷ []

abbrev second_tab : UioTab
second_tab =
    some 7
    ∷ none
    ∷ none
    ∷ none
    ∷ none
    ∷ none
    ∷ none
    ∷ none
    ∷ none
    ∷ none
    ∷ none
    ∷ none
    ∷ none
    ∷ none
    ∷ none
    ∷ none
    ∷ []

abbrev two_procs : World
two_procs = record {
  procs = first_tab ∷ second_tab ∷ [];
  refs = λ u. total u (first_tab ∷ second_tab ∷ []);
  closed = [];
}

two_procs-Sound : Sound two_procs
two_procs-Sound = record { sized = (refl, (refl, tt)); balanced = λ u. refl }

abbrev calls : List (ℕ × Event)
calls =
    (0, opens (ok tt) minus_one (99 ∷ 47 ∷ 97 ∷ []) (λ path. ok 9))
    ∷ (0, dups (pos 4) minus_one)
    ∷ (1, pipes (ok tt) (ok tt) minus_one minus_one 10 11)
    ∷ (0, forks true (ok 2))
    ∷ (0, closes (pos 4))
    ∷ (1, exits)
    ∷ []

run_all-Sound_example : Sound (run_all calls two_procs)
unfolding sysopen open_fd vacant found_or find_null entry sysuiodup dup_fd syspipe pipe_fd addref
    addref_all forked process_fork sysclose close_entry
run_all-Sound_example =
    run_all-Sound calls two_procs
      (
        refl,
        omega arith,
        (
          omega arith,
          omega arith,
          (
            (refl, refl, ground arith),
            omega arith,
            (omega arith, omega arith, (tt, omega arith, (tt, omega arith, tt))),
          ),
        ),
      )
      two_procs-Sound

sysclose-last_example :
    let (r, w') = sysclose 0 (pos 3) two_procs in
    (r ≡ ok 0)
    × (w'.procs ≡ set two_procs.procs 0 (set (tab_of 0 two_procs) 3 none))
    × (w'.closed
        ≡ (if total 8 two_procs.procs == 1 then 8 ∷ two_procs.closed else two_procs.closed))
unfolding entry
sysclose-last_example = sysclose-last 0 (pos 3) 8 two_procs two_procs-Sound refl

sysexec-entry_example :
    let (r, w') = sysexec 0 (pos 3) (pos 0) (ok tt) (ok 12) loaded_all two_procs in
    (r ≡ jumped) × (entry (tab_of 0 w') (pos 3) ≡ some 8) × (w'.refs 8 + 1 ≡ total 8 w'.procs)
unfolding entry
sysexec-entry_example =
    sysexec-entry 0 (pos 3) (pos 0) (ok 12) 8 7 two_procs two_procs-Sound refl refl refl
