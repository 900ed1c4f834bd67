-- ===== src/Wasi/Tests.antt =====
-- Runs of the shim on a small state, and the theorems about it at concrete inputs.
use pglite_ios.Common.{
  ℕ, ◌+◌, ◌≡◌, refl, true, false, some, List, [], ◌∷◌, ◌==◌, if◌then◌else◌, arith, length, ℤ, pos,
  minus_one, codes,
}
use pglite_ios.Common.{none, inl, inr, ◌⊎◌, ◌≤◌}
use pglite_ios.Common.{◌↔◌, ◌<◌}
use pglite_ios.Wasi.Errno.{enoent, e_none, wasi_errno}
use pglite_ios.Wasi.Errno.Laws.{wasi_errno_iff}
use pglite_ios.Wasi.Args.{args_get, environ_get}
use pglite_ios.Wasi.Args.Layout.{Filled, args_get-Filled, environ_get-Filled}
use pglite_ios.Wasi.Init.{wasi_shim_dispose}
use pglite_ios.Wasi.Init.Dispose.{IsDisposed, wasi_shim_dispose-IsDisposed}
use pglite_ios.Wasi.Iovec.{iovs_to_host}
use pglite_ios.Wasi.Iovec.Bounds.{Converted, iovs_to_host-Converted, byte_at}
use pglite_ios.Wasi.Files.{fd_read, fd_pread}
use pglite_ios.Wasi.Files.Reads.{MissedBy, fd_read-byte_at}
use pglite_ios.Wasi.Readdir.{fd_readdir}
use pglite_ios.Wasi.Readdir.Closes.{closed_dirs, closed_dirs-fd_readdir}
use pglite_ios.Wasi.Host.{Os, Stat, Timespec, got, is_reg}
use pglite_ios.Common.{le_value}
use pglite_ios.Wasi.State.{gread_u32, gptr, load}
use pglite_ios.Wasi.Memory.{Memory, peek}
use pglite_ios.Wasi.State.{FdEntry, Shim, ok, max_fds}
use pglite_ios.Wasi.FdTable.{fd_get, fd_alloc}
use pglite_ios.Wasi.FdTable.Laws.{Lowest, fd_alloc-Lowest}
use pglite_ios.Wasi.Files.{fd_renumber}
use pglite_ios.Wasi.Files.Laws.{IsDistinct, Closes, IsClosed, fd_close-Closes, fd_renumber_self}
use pglite_ios.Wasi.Paths.Cases.{PathOpened}
use pglite_ios.Wasi.Paths.Opens.{path_open-PathOpened}
use pglite_ios.Wasi.Requests.{Request, serve}
use pglite_ios.Wasi.Requests.Framed.{Framed, serve-Framed}
use pglite_ios.Wasi.Requests.Distinct.{RunsFresh, serve-IsDistinct}

abbrev epoch : Timespec
epoch = record { sec = 1; nsec = 5 }

abbrev plain_file : Stat
plain_file = record {
  dev = 1;
  ino = 2;
  mode = is_reg;
  nlink = 1;
  size = 10;
  atim = epoch;
  mtim = epoch;
  ctim = epoch;
}

-- Each call gives a descriptor of its own: 100 and the number of calls before.
abbrev pub obliging : Os
obliging = record {
  unit_of = λ h c. got tt;
  fd_of = λ h c. got (100 + length h);
  count_of = λ h c. got 3;
  bytes_of = λ h c. got (1 ∷ 2 ∷ 3 ∷ []);
  time_of = λ h c. got epoch;
  stat_of = λ h c. got plain_file;
  random_of = λ h i. 7;
  entries_of = λ h c. got [];
}

abbrev entry : ℤ → ℕ → ℤ → FdEntry
entry fd ft p = record { host_fd = fd; filetype = ft; fdflags = 0; preopen = p }

-- Slot 1 has the log, slot 3 a preopened directory, slots 0 and 5 files.
abbrev pub small_fds : ℕ → FdEntry
small_fds i =
    if i == 0
    then entry (pos 10) 4 minus_one
    else if i == 1
    then entry (pos 11) 2 minus_one
    else if i == 3
    then entry (pos 12) 3 (pos 0)
    else if i == 5
    then entry (pos 13) 4 minus_one
    else entry minus_one 0 (pos 0)

abbrev pub blank : Memory
blank = record { size = 4096; byte = λ i. 0 }

abbrev pub small : Shim
small = record {
  mem = some blank;
  argv = codes "a" ∷ codes "bc" ∷ [];
  envp = codes "K=V" ∷ [];
  preopens =
      λ i. record { guest_path = codes "/tmp"; host_path = codes "/r/tmp"; host_fd = pos 12 };
  n_preopens = 1;
  fds = small_fds;
  log_fd = pos 11;
  exit_jmp_armed = true;
  exit_code = 0;
  exited = false;
  os = obliging;
  calls = [];
}

small-IsDistinct : IsDistinct small
small-IsDistinct = record { apart = λ i j ne p q. ground arith }

fd_alloc-Lowest_example : Lowest small 0 max_fds (fd_alloc small)
fd_alloc-Lowest_example = fd_alloc-Lowest small

fd_close-Closes_example : Closes small 5 (fd_get small 5)
fd_close-Closes_example = fd_close-Closes small 5

fd_renumber_self_example :
    ((fd_renumber 5 5 small).0 ≡ ok tt) × IsClosed small 5 (small.fds 5) (fd_renumber 5 5 small).1
unfolding fd_get
fd_renumber_self_example = fd_renumber_self small 5 refl

path_open-PathOpened_example : PathOpened small blank 3 1 64 2 1 66 0 0 128
path_open-PathOpened_example = path_open-PathOpened small blank 3 1 64 2 1 66 0 0 128 refl

abbrev busy : List Request
busy =
    Request.fd_close 5
    ∷ Request.path_open 3 1 64 2 1 66 0 0 128
    ∷ Request.fd_renumber 0 7
    ∷ Request.args_get 256 512
    ∷ []

serve-Framed_example : Framed small (serve busy small)
serve-Framed_example = serve-Framed busy small

abbrev short_run : List Request
short_run = Request.path_open 3 1 64 2 1 66 0 0 128 ∷ []

short_run-RunsFresh : RunsFresh short_run small
short_run-RunsFresh = (λ c n e j used. ground arith, tt)

serve-IsDistinct_example : IsDistinct (serve short_run small)
serve-IsDistinct_example = serve-IsDistinct short_run small short_run-RunsFresh small-IsDistinct

args_get-Filled_example : Filled small blank 256 512 (small.argv) (args_get 256 512 small)
args_get-Filled_example =
    args_get-Filled small blank 256 512 refl
      (omega arith, omega arith, omega arith, inl (omega arith))

environ_get-Filled_example : Filled small blank 256 64 (small.envp) (environ_get 256 64 small)
environ_get-Filled_example =
    environ_get-Filled small blank 256 64 refl
      (omega arith, omega arith, omega arith, inr (omega arith))

wasi_shim_dispose-IsDisposed_example : IsDisposed small (wasi_shim_dispose small)
wasi_shim_dispose-IsDisposed_example = wasi_shim_dispose-IsDisposed small

-- At address 8, a buffer of three bytes at 1024.
abbrev with_buffer : Shim
with_buffer = record small {
  mem = some (record { size = 4096; byte = λ i. if i == 9 then 4 else if i == 12 then 3 else 0 });
}

iovs_to_host-Converted_example :
    Converted with_buffer 1 (iovs_to_host with_buffer 8 1 64)
    × ((iovs_to_host with_buffer 8 1 64 ≡ none) ⊎ (1 ≤ 64))
iovs_to_host-Converted_example = iovs_to_host-Converted with_buffer 8 1 64

beyond_buffer : MissedBy 1027 (iovs_to_host with_buffer 8 1 64)
unfolding iovs_to_host gread_u32 gptr load peek le_value
beyond_buffer = (inr (omega arith), tt)

fd_read-byte_at_example :
    (byte_at (fd_read 5 8 1 40 with_buffer).1 1027 ≡ 0)
    × (byte_at (fd_pread 5 8 1 0 40 with_buffer).1 1027 ≡ 0)
fd_read-byte_at_example =
    fd_read-byte_at with_buffer 5 8 1 0 40 1027 beyond_buffer (inr (omega arith))

closed_dirs-fd_readdir_example : closed_dirs (pos 100) (fd_readdir 3 256 64 0 40 small).1.calls ≡ 1
unfolding closed_dirs fd_get
closed_dirs-fd_readdir_example = closed_dirs-fd_readdir small 3 256 64 0 40 100 refl refl refl

wasi_errno_iff_example : ((wasi_errno enoent ≡ 0) ↔ (enoent ≡ e_none)) × (wasi_errno enoent < 77)
wasi_errno_iff_example = wasi_errno_iff enoent
