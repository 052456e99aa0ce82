-- ===== src/Pipe/Tests.antt =====
-- The pipes of src/modified/sys/uio.c on a ring whose bytes go round the end of the page.
use unix_like_operating_syst.Base.{
  ℕ, ◌≡◌, refl, true, false, List, [], ◌∷◌, ◌++◌, arith, replicate, length-replicate,
}
use unix_like_operating_syst.Pipe.{Pipe, page_size}
use unix_like_operating_syst.Pipe.Ring.{contents, IsValid}
use unix_like_operating_syst.Pipe.Queue.{}
use unix_like_operating_syst.Pipe.Stream.{
  Call, read_call, write_call, close_read_call, close_write_call, run, run-conserves,
}

-- Two bytes in the ring, one at its last place and one at its first.
abbrev wrapped : Pipe
wrapped = record {
  hpos = 4095;
  tpos = 1;
  page = replicate page_size 0;
  bytecnt = 2;
  read_open = true;
  write_open = true;
  freed = false;
}

wrapped-IsValid : IsValid wrapped
wrapped-IsValid = record {
  sized = length-replicate {A = ℕ} page_size 0;
  head_in = omega arith;
  tail_here = refl;
  fits = omega arith;
}

abbrev calls : List Call
calls =
    write_call (7 ∷ 8 ∷ []) ∷ read_call 3 ∷ close_write_call ∷ read_call 5 ∷ close_read_call ∷ []

run-conserves_example :
    let (i, o, p') = run calls wrapped in IsValid p' × (contents wrapped ++ i ≡ o ++ contents p')
run-conserves_example = run-conserves calls wrapped wrapped-IsValid
