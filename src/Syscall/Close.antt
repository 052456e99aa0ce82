-- ===== src/Syscall/Close.antt =====
-- Closing a descriptor in src/modified/sys/syscall.c.
use unix_like_operating_syst.Base.{
  ℕ, ◌≡◌, ◌≤◌, refl, ap, ◌∙◌, none, some, ◌∷◌, arith, ◌==◌, if◌then◌else◌, leb, set,
}
use unix_like_operating_syst.Base.Results.{ok}
use unix_like_operating_syst.Process.{World, tab_of}
use unix_like_operating_syst.Process.Counts.{
  total, close_entry-closed, close_entry-procs, count-get, count-le-total,
}
use unix_like_operating_syst.Process.Balance.{Sound}
use unix_like_operating_syst.Syscall.Balance.{entry-get}
use unix_like_operating_syst.Syscall.{ℤ, entry, abs, sysclose}

-- Where the counts are those of the descriptors, closing a descriptor that holds an endpoint
-- succeeds, and calls the endpoint's close function just if no other descriptor of any process holds
-- it.
pub sysclose-last :
    (p : ℕ) (fd : ℤ) (u : ℕ) (w : World)
    → Sound w
    → entry (tab_of p w) fd ≡ some u
    → let (r, w') = sysclose p fd w in
      (r ≡ ok 0)
      × (w'.procs ≡ set w.procs p (set (tab_of p w) (abs fd) none))
      × (w'.closed ≡ (if total u w.procs == 1 then u ∷ w.closed else w.closed))
unfolding sysclose
sysclose-last p fd u w s e =
    let some_left : 1 ≤ total u w.procs = omega (
      arith,
      count-get (tab_of p w) (abs fd) u (entry-get (tab_of p w) fd u e).1,
      count-le-total u w.procs p,
    ) in
    let test : leb (w.refs u) 1 ≡ (total u w.procs == 1) =
      ground (arith, s.balanced u, some_left) in
    rw e (
      refl,
      ap (λ ps. set ps p (set (tab_of p w) (abs fd) none)) (close_entry-procs (some u) w),
      close_entry-closed u w ∙ rw test refl,
    )
