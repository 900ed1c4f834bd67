-- ===== src/Wasi/StatsTests.antt =====
-- The discovery of a preopened directory at concrete inputs.
use pglite_ios.Common.{refl, arith, some, codes, pos}
use pglite_ios.Wasi.Memory.{Memory}
use pglite_ios.Wasi.State.{Shim}
use pglite_ios.Wasi.FdTable.{fd_get}
use pglite_ios.Wasi.Stats.Prestat.{IsPreopened, Discovers, fd_prestat_get-Discovers}
use pglite_ios.Wasi.Tests.{small}

abbrev page : Memory
page = record { size = 4096; byte = λ i. 9 }

-- Slot 3 is the directory `/tmp`.
abbrev with_tmp : Shim
with_tmp = record small {
  mem = some page;
  preopens =
      λ i. record { guest_path = codes "/tmp"; host_path = codes "/r/tmp"; host_fd = pos 100 };
  n_preopens = 1;
  fds = λ i. record { host_fd = pos 100; filetype = 3; fdflags = 0; preopen = pos 0 };
}

tmp-IsPreopened : IsPreopened with_tmp 3 (codes "/tmp")
unfolding fd_get
tmp-IsPreopened = record { entry = with_tmp.fds 3; found = refl; marked = refl; path = refl }

fd_prestat_get-Discovers_example : Discovers 3 64 128 (codes "/tmp") with_tmp
fd_prestat_get-Discovers_example =
    fd_prestat_get-Discovers with_tmp page 3 64 128 (codes "/tmp") refl tmp-IsPreopened
      (omega arith) (omega arith) (omega arith)
