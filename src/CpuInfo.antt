-- ===== src/CpuInfo.antt =====
-- `getCPUInfo` of include/wfey.h, and the number of cores that `main` of wfey.c makes of it. What the two scripts print is an
-- argument, and so is whether a pipe fails.
pub mod Reads
use wfey.Prelude.{ℕ, ◌*◌, ◌%◌, Bool, true, false, Option, none, some, List, [], ◌∷◌, if◌then◌else◌}
use wfey.Prelude.Int.{ℤ, pos, to_u64}
use wfey.Prelude.Text.{Bytes, skip_space, first_line, scan_signed}
use wfey.Clock.{word}

-- A script behind `popen`: `output` is none where `popen` fails.
pub record Pipe : Type 0 where
  pub output : Option Bytes
  pub close_fails : Bool

pub data CpuInfo : Type 0 where
  exited : CpuInfo
  counted : ℕ → ℕ → CpuInfo  -- cores per socket, sockets

-- `fgets(temp, 255, pipe)`, none at the end of the output.
unfoldable pub read_line : Bytes → Option Bytes
unfolding first_line
read_line [] = none
read_line (c ∷ output) = some (first_line 254 (c ∷ output))

-- `atoi`, for a number that an int holds.
unfoldable pub atoi : Bytes → ℤ
unfolding skip_space scan_signed
atoi text = elim (scan_signed (skip_space text)) [ none ↦ pos 0 | some n ↦ n ]

-- Both pipes are opened before the first is read, and closed behind both reads.
unfoldable pub read_counts : Bytes → Bytes → Bool → CpuInfo
unfolding read_line atoi
read_counts cps_output socks_output close_fails = elim (read_line cps_output) [
  | none ↦ exited
  | some cps ↦ elim (read_line socks_output) [
    | none ↦ exited
    | some socks ↦ if close_fails then exited else counted (to_u64 (atoi cps)) (to_u64 (atoi socks))
  ]
]

unfoldable pub get_cpu_info : Pipe → Pipe → CpuInfo
unfolding read_counts
get_cpu_info cps_pipe socks_pipe = elim cps_pipe.output [
  | none ↦ exited
  | some cps ↦ elim socks_pipe.output [
    | none ↦ exited
    | some socks ↦
        read_counts cps socks (if cps_pipe.close_fails then true else socks_pipe.close_fails)
  ]
]

-- `total_cpu = cores_per_socket * sockets`
unfoldable pub total_cpu : CpuInfo → Option ℕ
total_cpu exited = none
total_cpu (counted cores_per_socket sockets) = some (cores_per_socket * sockets % word)
