-- ===== src/Wasi/Paths/Flags.antt =====
-- The flags that `path_open` of native/shim/wasi_shim.c hands to `openat`.
use pglite_ios.Common.{ℕ, ◌*◌, ◌%◌, ◌≤◌, ◌<◌, ◌≡◌, ◌⊎◌, Bool, true, false, not, arith}
use pglite_ios.Wasi.Host.{OpenFlags, rdonly, wronly, rdwr}
use pglite_ios.Wasi.Paths.{access_of, open_flags}

-- The flag of the value `d`, a power of two, is set in `n`, or is not.
abbrev pub IsOn : ℕ → ℕ → Type 0
IsOn d n = d ≤ n % (2 * d)

abbrev pub IsOff : ℕ → ℕ → Type 0
IsOff d n = n % (2 * d) < d

abbrev pub IsFlag : ℕ → ℕ → Bool → Type 0
IsFlag d n b = ((b ≡ true) × IsOn d n) ⊎ ((b ≡ false) × IsOff d n)

-- What the flags of `openat` are, by the values of WASI's constants.
pub record AreFlags (lookupflags oflags base fdflags : ℕ) (f : OpenFlags) : Type 0 where
  pub access :
      ((f.access ≡ rdwr) × IsOn 2 base × IsOn 64 base)
      ⊎ ((f.access ≡ wronly) × IsOff 2 base × IsOn 64 base)
      ⊎ ((f.access ≡ rdonly) × IsOff 64 base)
  pub creat : IsFlag 1 oflags f.creat
  pub directory : IsFlag 2 oflags f.directory
  pub excl : IsFlag 4 oflags f.excl
  pub trunc : IsFlag 8 oflags f.trunc
  pub append : IsFlag 1 fdflags f.append
  pub dsync : IsFlag 2 fdflags f.dsync
  pub nonblock : IsFlag 4 fdflags f.nonblock
  pub sync :
      ((f.sync ≡ true) × (IsOn 8 fdflags ⊎ IsOn 16 fdflags))
      ⊎ ((f.sync ≡ false) × IsOff 8 fdflags × IsOff 16 fdflags)
  pub nofollow : IsFlag 1 lookupflags (not f.nofollow)

pub open_flags-AreFlags :
    (lookupflags oflags base fdflags : ℕ)
    → AreFlags lookupflags oflags base fdflags (open_flags lookupflags oflags base fdflags)
unfolding open_flags access_of
open_flags-AreFlags lookupflags oflags base fdflags = record {
  access = ground arith;
  creat = ground arith;
  directory = ground arith;
  excl = ground arith;
  trunc = ground arith;
  append = ground arith;
  dsync = ground arith;
  nonblock = ground arith;
  sync = ground arith;
  nofollow = ground arith;
}
