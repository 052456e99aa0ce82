-- ===== src/Uio/Tests.antt =====
-- The reference counts of src/modified/sys/uio.c on an endpoint that counts its closes.
use unix_like_operating_syst.Base.{ℕ, suc, none, some}
use unix_like_operating_syst.Uio.{Interface}

abbrev counting : Interface ℕ
counting = record { close_op = some suc; read_op = none; write_op = none; cntl_op = none }
