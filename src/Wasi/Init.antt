-- ===== src/Wasi/Init.antt =====
-- `wasi_shim_init` and `wasi_shim_dispose` of native/shim/wasi_shim.c.
pub mod Dispose
use Prim.Native.String.{String}
use pglite_ios.Common.{
  ℕ, zero, suc, ◌+◌, Bool, true, false, ◌||◌, none, List, ◌++◌, ◌∷◌, ◌==◌, if◌then◌else◌, take,
  tabulate_from, Bytes, ℤ, pos, minus_one, is_neg, int_eq, codes,
}
use pglite_ios.Wasi.Filetype
use pglite_ios.Wasi.Host.{
  Access, OpenFlags, Sys, got, failed, rdonly, wronly, mkdir, open_path, write_seed, close,
  arc4random,
}
use pglite_ios.Wasi.State.{
  FdEntry, Preopen, Shim, Op, Handler, pure, fail, gets, modify, ask, tell_os, max_fds, ◌>>=◌, ◌>>◌,
}
use pglite_ios.Wasi.FdTable.{set_fd, fd_set_entry, fd_or_minus_one}

abbrev pub no_flags : Access → OpenFlags
no_flags a = record {
  access = a;
  creat = false;
  directory = false;
  excl = false;
  trunc = false;
  append = false;
  nonblock = false;
  sync = false;
  dsync = false;
  nofollow = false;
}

-- `snprintf(path, 1024, "%s<suffix>", root)`.
unfoldable pub path_under : Bytes → String → Bytes
path_under root suffix = take 1023 (root ++ codes suffix)

abbrev pub free_entry : FdEntry
free_entry = record { host_fd = minus_one; filetype = 0; fdflags = 0; preopen = pos 0 }

abbrev pub zero_preopen : Preopen
zero_preopen = record { guest_path = List.[]; host_path = List.[]; host_fd = pos 0 }

-- The `memset` and the assignments before the first call.
unfoldable pub cleared : List Bytes → List Bytes → Shim → Shim
cleared argv envp w = record {
  mem = none;
  argv = argv;
  envp = envp;
  preopens = λ _. zero_preopen;
  n_preopens = 0;
  fds = λ _. free_entry;
  log_fd = minus_one;
  exit_jmp_armed = false;
  exit_code = 0;
  exited = false;
  os = w.os;
  calls = w.calls;
}

-- `return -1`, where the C function returns an `int` and no WASI code.
abbrev pub init_failure : ℕ
init_failure = 1

abbrev pub open_or_stop : Sys ℕ → Op ℕ
open_or_stop (got n) = pure n
open_or_stop (failed _) = fail init_failure

abbrev pub must_open : Bytes → OpenFlags → Op ℕ
must_open path flags = ask (λ os. os.fd_of) (open_path path flags) >>= open_or_stop

-- `<root>/dev/urandom` with 128 random bytes.
unfoldable pub seed_urandom : Bytes → Handler
unfolding path_under
seed_urandom root = do
  tell_os (mkdir (path_under root "/dev") 0o755)
  ur ←
      must_open (path_under root "/dev/urandom")
        (record (no_flags wronly) { creat = true; trunc = true })
  seed ← gets (λ w. tabulate_from 0 128 (w.os.random_of w.calls))
  tell_os (arc4random 128)
  tell_os (write_seed (pos ur) seed)
  tell_os (close (pos ur))

-- Guest stdio: `/dev/null` and the log.
unfoldable pub init_stdio : Bytes → Handler
unfolding path_under fd_set_entry
init_stdio root = do
  log ←
      must_open (path_under root "/pg.log")
        (record (no_flags wronly) { creat = true; append = true })
  modify (λ w. record w { log_fd = pos log })
  null ← ask (λ os. os.fd_of) (open_path (codes "/dev/null") (no_flags rdonly))
  modify (fd_set_entry 0 (fd_or_minus_one null) Filetype.char 0 minus_one)
  modify (fd_set_entry 1 (pos log) Filetype.char 1 minus_one)
  modify (fd_set_entry 2 (pos log) Filetype.char 1 minus_one)

-- `w->preopens[i] = p`.
abbrev pub set_preopen : ℕ → Preopen → Shim → Shim
set_preopen i p w = record w { preopens = λ j. if i == j then p else w.preopens j }

-- One round of the loop over the two preopened directories.
unfoldable pub init_preopen : Bytes → ℕ → String → String → Handler
unfolding path_under fd_set_entry
init_preopen root i guest subdir = do
  k ← gets (λ w. w.n_preopens)
  dir ←
      ask (λ os. os.fd_of)
        (open_path (path_under root subdir) (record (no_flags rdonly) { directory = true }))
  modify (
      set_preopen k (record {
        guest_path = codes guest;
        host_path = path_under root subdir;
        host_fd = fd_or_minus_one dir;
      }))
  hfd ← open_or_stop dir
  modify (fd_set_entry (3 + i) (pos hfd) Filetype.dir 0 (pos k))
  modify (λ w. record w { n_preopens = w.n_preopens + 1 })

unfoldable pub wasi_shim_init : Bytes → List Bytes → List Bytes → Handler
unfolding cleared seed_urandom init_stdio init_preopen
wasi_shim_init root argv envp = do
  modify (cleared argv envp)
  seed_urandom root
  init_stdio root
  init_preopen root 0 "/tmp" "/tmp"
  init_preopen root 1 "/dev" "/dev"

abbrev pub close_fd : ℤ → Shim → Shim
close_fd fd w = record w { calls = close fd ∷ w.calls }

-- Does one of the first `n` preopens hold this descriptor?
unfoldable pub is_preopen_fd : Shim → ℕ → ℤ → Bool
is_preopen_fd w zero hfd = false
is_preopen_fd w (suc n) hfd = int_eq (w.preopens n).host_fd hfd || is_preopen_fd w n hfd

-- The body of the loop over the slots.
unfoldable pub dispose_slot : ℕ → Shim → Shim
unfolding is_preopen_fd
dispose_slot i w =
    let hfd = (w.fds i).host_fd in
    let freed = set_fd i (record (w.fds i) { host_fd = minus_one }) w in
    if is_neg hfd
    then w
    else if int_eq hfd w.log_fd || is_preopen_fd w w.n_preopens hfd
    then freed
    else close_fd hfd freed

unfoldable pub dispose_slots : ℕ → ℕ → Shim → Shim
unfolding dispose_slot
dispose_slots zero i w = w
dispose_slots (suc n) i w = dispose_slots n (i + 1) (dispose_slot i w)

unfoldable pub dispose_preopens : ℕ → ℕ → Shim → Shim
dispose_preopens zero j w = w
dispose_preopens (suc n) j w = dispose_preopens n (j + 1) (close_fd (w.preopens j).host_fd w)

-- `if (w->log_fd >= 0) close(w->log_fd);` and the two resets.
unfoldable pub dispose_log : Shim → Shim
dispose_log w =
    let closed = if is_neg w.log_fd then w else close_fd w.log_fd w in
    record closed { log_fd = minus_one; n_preopens = 0 }

unfoldable pub wasi_shim_dispose : Shim → Shim
unfolding dispose_slots dispose_preopens dispose_log
wasi_shim_dispose w =
    let w' = dispose_slots max_fds 0 w in dispose_log (dispose_preopens w'.n_preopens 0 w')
