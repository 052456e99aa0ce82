-- ===== src/Memory/Table/Tests.antt =====
-- The page tables of src/modified/sys/memory.c on a table with one page mapped.
use unix_like_operating_syst.Base.{false, ◌==◌, if◌then◌else◌, arith}
use unix_like_operating_syst.Memory.Table.{
  Mem, user_data, leaf_pte, ptab_pte, null_pte, validate_vptr,
}
use unix_like_operating_syst.Memory.Table.Text.{Bytes, validate_vstr}
use unix_like_operating_syst.Memory.Table.Text.Answers.{StringAnswers, validate_vstr-Answers}
use unix_like_operating_syst.Memory.Table.Validate.{Answers, validate_vptr-Answers}

-- The root is page 1, its entries point to page 2, that page's to page 3, and that page's to page 9.
abbrev small_table : Mem
small_table page i =
    if page == 1
    then ptab_pte 2 false
    else if page == 2
    then ptab_pte 3 false
    else if page == 3
    then leaf_pte 9 user_data
    else null_pte

validate_vptr-Answers_example :
    Answers small_table 1 user_data 0xc000_0ff0 100
      (validate_vptr 3 small_table 1 0xc000_0ff0 100 user_data)
validate_vptr-Answers_example =
    validate_vptr-Answers small_table 1 user_data 0xc000_0ff0 100 1 (omega arith) (omega arith)
      (omega arith)

-- The page 9 holds a zero at the offset 3 and no other.
abbrev one_zero : Bytes
one_zero page i = if i == 3 then 0 else 1

validate_vstr-Answers_example :
    StringAnswers small_table one_zero 1 user_data 0xc000_0ff0
      (validate_vstr 0x400_0000 small_table one_zero 1 0xc000_0ff0 user_data)
validate_vstr-Answers_example =
    validate_vstr-Answers small_table one_zero 1 user_data 0x400_0000 0xc000_0ff0 (omega arith)
      (omega arith)
