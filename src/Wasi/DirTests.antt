-- ===== src/Wasi/DirTests.antt =====
-- A directory of two files, and the theorem on `fd_readdir` at a concrete input.
use pglite_ios.Common.{◌≡◌, refl, pos, List, [], ◌∷◌, arith, length, take, codes, le_bytes}
use pglite_ios.Wasi.Host.{Dirent, is_reg, is_dir, got, dup, fdopendir, closedir}
use pglite_ios.Wasi.State.{Shim, ok, store}
use pglite_ios.Wasi.State.Steps.{called}
use pglite_ios.Wasi.FdTable.{fd_get}
use pglite_ios.Wasi.Readdir.{fd_readdir}
use pglite_ios.Wasi.Readdir.Records.{records}
use pglite_ios.Wasi.Readdir.Written.{fd_readdir-records}
use pglite_ios.Wasi.Tests.{small, obliging, blank}

abbrev entries : List Dirent
entries =
    record { name = codes "abc"; ino = 7; kind = is_reg }
    ∷ record { name = codes "defg"; ino = 8; kind = is_dir }
    ∷ []

abbrev two_files : Shim
two_files = record small { os = record obliging { entries_of = λ h c. got entries } }

-- The buffer ends within the second record.
fd_readdir-records_example : fd_readdir 3 256 40 0 40 two_files ≡ (
  ok tt,
  store 40 (le_bytes 4 (length (take 40 (records 0 entries)))) (
      called (closedir (pos 100)) (
        store 256
          (take 40 (records 0 entries))
          (called (fdopendir (pos 100)) (called (dup (pos 12)) two_files)))),
)
unfolding fd_get
fd_readdir-records_example =
    fd_readdir-records two_files blank 3 256 40 0 40 100 refl refl refl refl (omega arith)
      (omega arith) (omega arith) (omega arith, (omega arith, tt))
