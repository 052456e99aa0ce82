-- ===== src/Syscall/Exec.antt =====
-- What a successful `sysexec` of src/modified/sys/syscall.c leaves behind.
use unix_like_operating_syst.Base.{
  ℕ, ◌+◌, ◌≡◌, refl, sym, ap, ◌∙◌, true, none, some, [], arith, get_or,
}
use unix_like_operating_syst.Base.Results.{Result, ok}
use unix_like_operating_syst.Process.{World, tab_of, close_entry}
use unix_like_operating_syst.Process.Counts.{
  one, total, close_entry-one, close_entry-procs, count-le-total, count-get,
}
use unix_like_operating_syst.Process.Balance.{Sound}
use unix_like_operating_syst.Syscall.{
  ℤ, entry, abs, argc_fits, loaded_all, jumped, process_exec, sysexec,
}
use unix_like_operating_syst.Syscall.Balance.{entry-get}

-- Where the counts are those of the descriptors, a descriptor holds an endpoint, and all of `sysexec`
-- succeeds for a process with a console: it jumps into the program with the descriptor still there,
-- and the endpoint's count is one too small.
pub sysexec-entry :
    (p : ℕ) (fd argc : ℤ) (opened : Result ℕ) (u c : ℕ) (w : World)
    → Sound w
    → entry (tab_of p w) fd ≡ some u
    → argc_fits argc ≡ true
    → get_or (tab_of p w) 2 none ≡ some c
    → let (r, w') = sysexec p fd argc (ok tt) opened loaded_all w in
      (r ≡ jumped) × (entry (tab_of p w') fd ≡ some u) × (w'.refs u + 1 ≡ total u w'.procs)
unfolding sysexec process_exec
sysexec-entry p fd argc opened u c w s e fits con =
    let w' = close_entry (some u) w in
    let same = close_entry-procs (some u) w in
    let here = count-get (tab_of p w) (abs fd) u (entry-get (tab_of p w) fd u e).1 in
    let self : one u (some u) ≡ 1 = ground arith in
    rw e (
      rw fits (
        rw con (
          refl,
          ap (λ ps. entry (get_or ps p []) fd) same ∙ e,
          omega (
            arith,
            close_entry-one (some u) w u,
            self,
            here,
            s.balanced u,
            count-le-total u w.procs p,
          )
              ∙ ap (total u) (sym same),
        )))
