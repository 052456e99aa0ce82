-- ===== src/Memory/Table.antt =====
-- The Sv39 page tables of src/modified/sys/memory.c.
--
-- The memory that holds page tables is a function from a page number and an index to an entry; an
-- entry has one Boolean for each flag bit. The root is the page number that `satp` names. A pointer
-- is its address, a number below 2 ^ 64. `none` is a panic of the page allocator.
pub mod Validate
pub mod Text
mod Tests
use unix_like_operating_syst.Base.{
  ℕ, zero, suc, ◌+◌, ◌-◌, ◌*◌, ◌/◌, ◌%◌, ◌^◌, Bool, true, false, not, ◌&&◌, ◌||◌, Option, none,
  some, ltb, leb, ◌==◌, if◌then◌else◌, List,
}
use unix_like_operating_syst.Base.Results.{Result, ok, err, einval, ebadfmt, enomem}
use unix_like_operating_syst.Memory.Pages.{Chunk, alloc_page, free_page}

-- The flag bits PTE_V .. PTE_D.
pub record Flags : Type 0 where
  pub v : Bool
  pub r : Bool
  pub w : Bool
  pub x : Bool
  pub u : Bool
  pub g : Bool
  pub a : Bool
  pub d : Bool

-- `struct pte`
pub record Pte : Type 0 where
  pub flags : Flags
  pub ppn : ℕ

abbrev pub page_size : ℕ
page_size = 4096

abbrev pub vpn : ℕ → ℕ
vpn vma = vma / page_size

-- `VPN2`, `VPN1` and `VPN0`, of a virtual page number
abbrev pub vpn2 : ℕ → ℕ
vpn2 n = n / 2 ^ 18 % 512

abbrev pub vpn1 : ℕ → ℕ
vpn1 n = n / 2 ^ 9 % 512

abbrev pub vpn0 : ℕ → ℕ
vpn0 n = n % 512

-- `PTE_LEAF`
abbrev pub is_leaf : Pte → Bool
is_leaf e = e.flags.r || (e.flags.w || e.flags.x)

-- `PTE_VALID(e) && !PTE_LEAF(e)`
abbrev pub is_table : Pte → Bool
is_table e = e.flags.v && not (is_leaf e)

-- `leaf_pte`
abbrev pub leaf_pte : ℕ → Flags → Pte
leaf_pte pp f = record { flags = record f { v = true; a = true; d = true }; ppn = pp }

abbrev pub no_flags : Flags
no_flags = record {
  v = false;
  r = false;
  w = false;
  x = false;
  u = false;
  g = false;
  a = false;
  d = false;
}

-- `ptab_pte`, with the global flag or none
abbrev pub ptab_pte : ℕ → Bool → Pte
ptab_pte pt g = record { flags = record no_flags { v = true; g = g }; ppn = pt }

-- `null_pte`
abbrev pub null_pte : Pte
null_pte = record { flags = no_flags; ppn = 0 }

-- `wellformed`: an arithmetic shift by 38 leaves all zeros or all ones.
abbrev pub sign_bits : ℕ → ℕ
sign_bits vma = if ltb vma (2 ^ 63) then vma / 2 ^ 38 else vma / 2 ^ 38 + (2 ^ 64 - 2 ^ 26)

pub wellformed : ℕ → Bool
wellformed vma = sign_bits vma == 0 || (sign_bits vma + 1) % 2 ^ 64 == 0

abbrev pub Mem : Type 0
Mem = ℕ → ℕ → Pte

abbrev pub write : Mem → ℕ → ℕ → Pte → Mem
write mem page i e page' i' = if page' == page && i' == i then e else mem page' i'

-- `memset(pp, 0, PAGE_SIZE)`
abbrev pub clear : Mem → ℕ → Mem
clear mem page page' i = if page' == page then null_pte else mem page' i

pub record Space : Type 0 where
  pub mem : Mem
  pub chunks : List Chunk

-- The walk that the range functions share: the page of the last-level table for a virtual page.
pub slot : Mem → ℕ → ℕ → Option ℕ
slot mem root n =
    let e2 = mem root (vpn2 n) in
    let e1 = mem e2.ppn (vpn1 n) in
    if is_table e2 then (if is_table e1 then some e1.ppn else none) else none

-- One level of `ptab_insert`: the table below an entry, made if there is none.
pub subtable : Space → ℕ → ℕ → Option (ℕ × Space)
subtable s page i =
    if (s.mem page i).flags.v then some ((s.mem page i).ppn, s) else elim (alloc_page s.chunks) [
      | none ↦ none
      | some (new, chunks) ↦ some (
        new,
        record { mem = write (clear s.mem new) page i (ptab_pte new false); chunks = chunks },
      )
    ]

-- `ptab_insert`
pub insert_leaf : ℕ → ℕ → Flags → Option (ℕ × Space) → Option Space
insert_leaf n pp f none = none
insert_leaf n pp f (some (t0, s)) =
    some (record s { mem = write s.mem t0 (vpn0 n) (leaf_pte pp f) })

pub insert_mid : ℕ → ℕ → Flags → Option (ℕ × Space) → Option Space
insert_mid n pp f none = none
insert_mid n pp f (some (t1, s)) = insert_leaf n pp f (subtable s t1 (vpn1 n))

pub insert : Space → ℕ → ℕ → ℕ → Flags → Option Space
insert s root n pp f = insert_mid n pp f (subtable s root (vpn2 n))

-- `map_page`
pub map_page : Space → ℕ → ℕ → ℕ → Flags → Option Space
map_page s root vma pp f = insert s root (vpn vma) pp f

-- The loop of `map_range`, over the pages left; physical addresses are page numbers.
pub map_range : ℕ → Space → ℕ → ℕ → ℕ → Flags → Option Space
map_range zero s root vma pp f = some s
map_range (suc k) s root vma pp f = elim (map_page s root vma pp f) [
  | none ↦ none
  | some s' ↦ map_range k s' root (vma + page_size) (pp + 1) f
]

-- A step of the loop of `set_range_flags`: a mapped page gets other flags.
pub set_page_flags : Mem → ℕ → ℕ → Flags → Mem
set_page_flags mem root vma f = elim (slot mem root (vpn vma)) [
  | none ↦ mem
  | some t0 ↦
      if (mem t0 (vpn0 (vpn vma))).flags.v
      then write mem t0 (vpn0 (vpn vma)) (leaf_pte (mem t0 (vpn0 (vpn vma))).ppn f)
      else mem
]

-- The loop itself, over the pages left, from an aligned address: any other is a panic.
pub set_range_flags : ℕ → Mem → ℕ → ℕ → Flags → Mem
set_range_flags zero mem root vma f = mem
set_range_flags (suc k) mem root vma f =
    set_range_flags k (set_page_flags mem root vma f) root (vma + page_size) f

-- A step of the loop of `unmap_and_free_range`: a mapped page is unmapped and given back.
pub unmap_page : Space → ℕ → ℕ → Space
unmap_page s root vma = elim (slot s.mem root (vpn vma)) [
  | none ↦ s
  | some t0 ↦
      if (s.mem t0 (vpn0 (vpn vma))).flags.v
      then record {
        mem = write s.mem t0 (vpn0 (vpn vma)) null_pte;
        chunks = free_page (s.mem t0 (vpn0 (vpn vma))).ppn s.chunks;
      }
      else s
]

-- The loop of `unmap_and_free_range`, over the pages left.
pub unmap_range : ℕ → Space → ℕ → ℕ → Space
unmap_range zero s root vma = s
unmap_range (suc k) s root vma = unmap_range k (unmap_page s root vma) root (vma + page_size)

-- `(have & want) == want`
abbrev pub implies : Bool → Bool → Bool
implies want have = not want || have

abbrev pub has_flags : Flags → Flags → Bool
has_flags have want =
    implies want.v have.v
    && (implies want.r have.r
        && (implies want.w have.w
            && (implies want.x have.x
                && (implies want.u have.u
                    && (implies want.g have.g
                        && (implies want.a have.a && implies want.d have.d))))))

abbrev pub check_entry : Flags → Pte → Result (Unit {0})
check_entry want e =
    if e.flags.v && is_leaf e
    then (if has_flags e.flags want then ok tt else err einval)
    else err ebadfmt

abbrev pub check_slot : Mem → ℕ → Flags → Option ℕ → Result (Unit {0})
check_slot mem n want none = err ebadfmt
check_slot mem n want (some t0) = check_entry want (mem t0 (vpn0 n))

-- The body of the loop of `validate_vptr`.
pub validate_page : Mem → ℕ → Flags → ℕ → Result (Unit {0})
validate_page mem root want curr =
    if wellformed curr
    then check_slot mem (vpn curr) want (slot mem root (vpn curr))
    else err ebadfmt

-- The loop itself, on fuel; `none` means that the fuel ran out. The address wraps.
pub validate_loop : ℕ → Mem → ℕ → Flags → ℕ → ℕ → Option (Result (Unit {0}))
validate_loop zero mem root want curr end = none
validate_loop (suc fuel) mem root want curr end =
    let rest = validate_loop fuel mem root want ((curr + page_size) % 2 ^ 64) end in
    if ltb curr end
    then elim (validate_page mem root want curr) [ ok x ↦ rest | err e ↦ some (err e) ]
    else some (ok tt)

-- `validate_vptr`
pub validate_vptr : ℕ → Mem → ℕ → ℕ → ℕ → Flags → Option (Result (Unit {0}))
validate_vptr fuel mem root vp len want =
    if ltb ((vp + len) % 2 ^ 64) vp
    then some (err enomem)
    else validate_loop fuel mem root want (vp / page_size * page_size) ((vp + len) % 2 ^ 64)

abbrev pub umem_start : ℕ
umem_start = 0xc000_0000

abbrev pub umem_end : ℕ
umem_end = 0x1_0000_0000

-- `PTE_U | PTE_R | PTE_W`
abbrev pub user_data : Flags
user_data = record no_flags { r = true; w = true; u = true }

abbrev pub map_cleared : ℕ → ℕ → Space → Option (ℕ × List Chunk) → Option (Bool × Space)
map_cleared root vma s none = none
map_cleared root vma s (some (pp, chunks)) =
    elim (map_page (record { mem = clear s.mem pp; chunks = chunks }) root vma pp user_data) [
      | none ↦ none
      | some s' ↦ some (true, s')
    ]

-- `handle_umode_page_fault`: whether the fault was handled. `none` is a panic.
pub page_fault : Space → ℕ → ℕ → Option (Bool × Space)
page_fault s root vma =
    if not (wellformed vma)
    then some (false, s)
    else if ltb vma umem_start || leb umem_end vma
    then some (false, s)
    else map_cleared root vma s (alloc_page s.chunks)
