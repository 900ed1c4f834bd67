-- ===== src/Wasi/Host.antt =====
-- The POSIX calls that native/shim/wasi_shim.c and native/bridge/pglite_bridge.c make. The operating system is a parameter: an
-- `Os` answers each call by what was called before it (the newest call first) and the arguments.
use pglite_ios.Common.{ℕ, Bool, List, Bytes, ℤ}
use pglite_ios.Wasi.Errno.{Errno}

-- A return value, or -1 with `errno`.
pub data Sys (A : Type 0) : Type 0 where
  got : A → Sys A
  failed : Errno → Sys A

pub data Access : Type 0 where
  rdonly wronly rdwr : Access

-- The flags of `open` and `openat`.
pub record OpenFlags : Type 0 where
  pub access : Access
  pub creat : Bool
  pub directory : Bool
  pub excl : Bool
  pub trunc : Bool
  pub append : Bool
  pub nonblock : Bool
  pub sync : Bool
  pub dsync : Bool
  pub nofollow : Bool

pub data Clock : Type 0 where
  realtime monotonic process_cputime thread_cputime : Clock

pub record Timespec : Type 0 where
  pub sec : ℕ
  pub nsec : ℕ

-- What the macros `S_ISDIR` to `S_ISBLK` say of a mode, and `d_type` of a directory entry.
pub data Kind : Type 0 where
  is_dir is_reg is_lnk is_chr is_blk is_none : Kind

pub record Stat : Type 0 where
  pub dev : ℕ
  pub ino : ℕ
  pub mode : Kind
  pub nlink : ℕ
  pub size : ℕ
  pub atim : Timespec
  pub mtim : Timespec
  pub ctim : Timespec

pub record Dirent : Type 0 where
  pub name : Bytes
  pub ino : ℕ
  pub kind : Kind

pub data Whence : Type 0 where
  seek_set seek_cur seek_end : Whence

pub data Call : Type 0 where
  mkdir : Bytes → ℕ → Call
  open_path : Bytes → OpenFlags → Call
  write_seed : ℤ → Bytes → Call
  close : ℤ → Call
  arc4random : ℕ → Call
  clock_gettime : Clock → Call
  sched_yield : Call
  readv : ℤ → List ℕ → Call
  writev : ℤ → List Bytes → Call
  preadv : ℤ → List ℕ → ℤ → Call
  pwritev : ℤ → List Bytes → ℤ → Call
  lseek : ℤ → ℤ → Whence → Call
  fsync : ℤ → Call
  fstat : ℤ → Call
  ftruncate : ℤ → ℤ → Call
  fcntl_setfl : ℤ → Bool → Bool → Call
  dup : ℤ → Call
  fdopendir : ℤ → Call
  closedir : ℤ → Call
  openat : ℤ → Bytes → OpenFlags → Call
  fstatat : ℤ → Bytes → Bool → Call
  mkdirat : ℤ → Bytes → ℕ → Call
  unlinkat : ℤ → Bytes → Bool → Call
  renameat : ℤ → Bytes → ℤ → Bytes → Call
  symlinkat : Bytes → ℤ → Bytes → Call
  readlinkat : ℤ → Bytes → ℕ → Call
  nanosleep : ℕ → ℕ → Call
  read_fd : ℤ → ℕ → Call
  unlink : Bytes → Call

abbrev pub History : Type 0
History = List Call

-- The answers, one field for each type of answer. Descriptors are natural numbers, `readlinkat`
-- and the reads give the bytes that they put into the buffer, a directory gives its entries.
pub record Os : Type 0 where
  pub unit_of : History → Call → Sys (Unit {0})
  pub fd_of : History → Call → Sys ℕ
  pub count_of : History → Call → Sys ℕ
  pub bytes_of : History → Call → Sys Bytes
  pub time_of : History → Call → Sys Timespec
  pub stat_of : History → Call → Sys Stat
  -- The bytes that `arc4random_buf` puts at each position.
  pub random_of : History → ℕ → ℕ
  pub entries_of : History → Call → Sys (List Dirent)
