-- ===== src/Wasi/Requests.antt =====
-- The 36 imports of the guest module that native/shim/wasi_shim.c implements, as one dispatch.
pub mod Stable
pub mod Calls
pub mod Framed
pub mod Distinct
use pglite_ios.Common.{ℕ, List, [], ◌∷◌}
use pglite_ios.Wasi.State.{Shim, Handler}
use pglite_ios.Wasi.Args
use pglite_ios.Wasi.Clocks
use pglite_ios.Wasi.Files
use pglite_ios.Wasi.Stats
use pglite_ios.Wasi.Readdir
use pglite_ios.Wasi.Paths
use pglite_ios.Wasi.Poll

pub data Request : Type 0 where
  args_sizes_get args_get environ_sizes_get environ_get : ℕ → ℕ → Request
  clock_time_get : ℕ → ℕ → ℕ → Request
  random_get : ℕ → ℕ → Request
  sched_yield : Request
  proc_exit fd_close : ℕ → Request
  fd_renumber : ℕ → ℕ → Request
  fd_read fd_write : ℕ → ℕ → ℕ → ℕ → Request
  fd_pread fd_pwrite : ℕ → ℕ → ℕ → ℕ → ℕ → Request
  fd_seek : ℕ → ℕ → ℕ → ℕ → Request
  fd_tell : ℕ → ℕ → Request
  fd_sync fd_datasync : ℕ → Request
  fd_advise : ℕ → ℕ → ℕ → ℕ → Request
  fd_allocate : ℕ → ℕ → ℕ → Request
  fd_fdstat_get fd_fdstat_set_flags fd_filestat_get fd_filestat_set_size : ℕ → ℕ → Request
  fd_prestat_get : ℕ → ℕ → Request
  fd_prestat_dir_name : ℕ → ℕ → ℕ → Request
  fd_readdir : ℕ → ℕ → ℕ → ℕ → ℕ → Request
  path_open : ℕ → ℕ → ℕ → ℕ → ℕ → ℕ → ℕ → ℕ → ℕ → Request
  path_filestat_get : ℕ → ℕ → ℕ → ℕ → ℕ → Request
  path_create_directory path_remove_directory path_unlink_file : ℕ → ℕ → ℕ → Request
  path_rename : ℕ → ℕ → ℕ → ℕ → ℕ → ℕ → Request
  path_symlink : ℕ → ℕ → ℕ → ℕ → ℕ → Request
  path_readlink : ℕ → ℕ → ℕ → ℕ → ℕ → ℕ → Request
  poll_oneoff : ℕ → ℕ → ℕ → ℕ → Request

unfoldable pub handle : Request → Handler
handle (args_sizes_get count_p size_p) = Args.args_sizes_get count_p size_p
handle (args_get argv_p buf_p) = Args.args_get argv_p buf_p
handle (environ_sizes_get count_p size_p) = Args.environ_sizes_get count_p size_p
handle (environ_get env_p buf_p) = Args.environ_get env_p buf_p
handle (clock_time_get id precision time_p) = Clocks.clock_time_get id precision time_p
handle (random_get buf_p len) = Clocks.random_get buf_p len
handle sched_yield = Clocks.yield_processor
handle (proc_exit code) = Clocks.proc_exit code
handle (fd_close fd) = Files.fd_close fd
handle (fd_renumber from to) = Files.fd_renumber from to
handle (fd_read fd iovs_p n nread_p) = Files.fd_read fd iovs_p n nread_p
handle (fd_write fd iovs_p n nwritten_p) = Files.fd_write fd iovs_p n nwritten_p
handle (fd_pread fd iovs_p n off nread_p) = Files.fd_pread fd iovs_p n off nread_p
handle (fd_pwrite fd iovs_p n off nwritten_p) = Files.fd_pwrite fd iovs_p n off nwritten_p
handle (fd_seek fd offset whence newoff_p) = Files.fd_seek fd offset whence newoff_p
handle (fd_tell fd off_p) = Files.fd_tell fd off_p
handle (fd_sync fd) = Files.fd_sync fd
handle (fd_datasync fd) = Files.fd_datasync fd
handle (fd_advise fd off len advice) = Files.fd_advise fd off len advice
handle (fd_allocate fd off len) = Files.fd_allocate fd off len
handle (fd_fdstat_get fd stat_p) = Files.fd_fdstat_get fd stat_p
handle (fd_fdstat_set_flags fd flags) = Files.fd_fdstat_set_flags fd flags
handle (fd_filestat_get fd stat_p) = Stats.fd_filestat_get fd stat_p
handle (fd_filestat_set_size fd size) = Files.fd_filestat_set_size fd size
handle (fd_prestat_get fd prestat_p) = Stats.fd_prestat_get fd prestat_p
handle (fd_prestat_dir_name fd path_p path_len) = Stats.fd_prestat_dir_name fd path_p path_len
handle (fd_readdir fd buf_p buf_len cookie used_p) =
    Readdir.fd_readdir fd buf_p buf_len cookie used_p
handle (path_open dirfd lookupflags path_p path_len oflags base inherit fdflags fd_p) =
    Paths.path_open dirfd lookupflags path_p path_len oflags base inherit fdflags fd_p
handle (path_filestat_get dirfd lookupflags path_p path_len stat_p) =
    Paths.path_filestat_get dirfd lookupflags path_p path_len stat_p
handle (path_create_directory dirfd path_p path_len) =
    Paths.path_create_directory dirfd path_p path_len
handle (path_remove_directory dirfd path_p path_len) =
    Paths.path_remove_directory dirfd path_p path_len
handle (path_unlink_file dirfd path_p path_len) = Paths.path_unlink_file dirfd path_p path_len
handle (path_rename old_dirfd old_p old_len new_dirfd new_p new_len) =
    Paths.path_rename old_dirfd old_p old_len new_dirfd new_p new_len
handle (path_symlink target_p target_len dirfd link_p link_len) =
    Paths.path_symlink target_p target_len dirfd link_p link_len
handle (path_readlink dirfd path_p path_len buf_p buf_len used_p) =
    Paths.path_readlink dirfd path_p path_len buf_p buf_len used_p
handle (poll_oneoff in_p out_p nsubs nevents_p) = Poll.poll_oneoff in_p out_p nsubs nevents_p

-- A run of the guest: its imports in order. An error code goes back to the guest, which goes on.
unfoldable pub serve : List Request → Shim → Shim
unfolding handle
serve [] w = w
serve (r ∷ rs) w = serve rs (handle r w).1
