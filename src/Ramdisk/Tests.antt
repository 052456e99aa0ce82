-- ===== src/Ramdisk/Tests.antt =====
-- The RAM disk of src/modified/sys/dev/ramdisk.c with five bytes.
use unix_like_operating_syst.Base.{ℕ, ◌≡◌, refl, true, some, List, [], ◌∷◌, arith}
use unix_like_operating_syst.Ramdisk.{Ramdisk}
use unix_like_operating_syst.Ramdisk.Reads.{Holds, read_on, read_on-all}

abbrev five : List ℕ
five = 1 ∷ 2 ∷ 3 ∷ 4 ∷ 5 ∷ []

abbrev opened_disk : Ramdisk
opened_disk = record { buf = some five; size = 5; opened = true }

opened_disk-Holds : Holds opened_disk five
opened_disk-Holds = record { is_open = refl; memory = refl; sized = refl }

read_on-all_example : read_on 6 2 0 opened_disk ≡ five
read_on-all_example = read_on-all 2 opened_disk five (omega arith) opened_disk-Holds
