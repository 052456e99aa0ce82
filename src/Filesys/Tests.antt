-- ===== src/Filesys/Tests.antt =====
-- The mount points of src/modified/sys/filesys.c on short names.
use unix_like_operating_syst.Base.{none, List, [], ◌∷◌}
use unix_like_operating_syst.Filesys.{Filesystem, Mountpoint}

-- A file system that offers nothing, over no state.
abbrev empty_fs : Filesystem (Unit {0})
empty_fs = record { open_op = none; create_op = none; delete_op = none; flush_op = none }

abbrev two_mounts : List (Mountpoint (Unit {0}))
two_mounts =
    record { name = 99 ∷ []; fs = empty_fs }
    ∷ record { name = 100 ∷ 101 ∷ 118 ∷ []; fs = empty_fs }
    ∷ []
