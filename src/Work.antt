-- ===== src/Work.antt =====
-- The kinds of work of an event: `enum WorkType` and `printWorkType` of include/wfey.h, `work_translate`, `choose_work`
-- and `choose_ep` of wfey.c. What `rand()` returns is an argument. A C enum holds any `int`.
pub mod Choose
pub mod Calls
pub mod Transfer
pub mod Mem
pub mod Io
pub mod Comp
use Prim.Native.String.{String}
use wfey.Prelude.{ℕ, suc, ◌%◌, Bool, Option, none, some, if◌then◌else◌}
use wfey.Prelude.Int.{ℤ, pos, negsuc, ltb_ℤ, eqb_ℤ}

abbrev pub comp_work : ℤ
comp_work = pos 1

abbrev pub mem_work : ℤ
mem_work = pos 2

abbrev pub io_work : ℤ
io_work = pos 3

abbrev pub null_work : ℤ
null_work = negsuc 0

unfoldable pub print_work_type : ℤ → String
print_work_type wt =
    if eqb_ℤ wt (pos 1)
    then "comp work"
    else if eqb_ℤ wt (pos 2)
    then "mem work"
    else if eqb_ℤ wt (pos 3)
    then "io work"
    else if eqb_ℤ wt (negsuc 0)
    then "null work"
    else "ERROR"

-- The work functions of wfey.c, to which a `work_func` may point.
pub data WorkFunc : Type 0 where
  compwork memwork iowork nullwork : WorkFunc

-- `none`: the program exits.
unfoldable pub work_translate : ℤ → Option WorkFunc
work_translate wt =
    if eqb_ℤ wt (pos 1)
    then some compwork
    else if eqb_ℤ wt (pos 2)
    then some memwork
    else if eqb_ℤ wt (pos 3)
    then some iowork
    else if eqb_ℤ wt (negsuc 0)
    then some nullwork
    else none

unfoldable pub choose_work : ℤ → ℕ → ℤ
choose_work work_perc rand =
    if eqb_ℤ work_perc (negsuc 0)
    then null_work
    else if ltb_ℤ (pos (rand % 100)) work_perc
    then mem_work
    else comp_work

-- The index in `proc_list`; `num_processors` is positive where it is called.
unfoldable pub choose_ep : ℕ → ℕ → ℕ
choose_ep num_processors rand = rand % num_processors
