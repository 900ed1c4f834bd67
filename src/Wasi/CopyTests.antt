-- ===== src/Wasi/CopyTests.antt =====
-- A read and a write with the same two buffers, at concrete inputs.
use pglite_ios.Common.{
  ◌≡◌, refl, arith, some, List, [], ◌∷◌, ◌++◌, get_or, pos, minus_one, Bytes, le_bytes, le_value,
  inr,
}
use pglite_ios.Wasi.Host.{got, writev}
use pglite_ios.Wasi.Memory.{Memory, peek}
use pglite_ios.Wasi.State.{Shim, FdEntry, ok, gptr, gread_u32, load}
use pglite_ios.Wasi.FdTable.{fd_get}
use pglite_ios.Wasi.Iovec.{Iovec, iov_base, iovs_loop, iovs_to_host}
use pglite_ios.Wasi.Iovec.RoundTrip.{joined, room}
use pglite_ios.Wasi.Files.{fd_read, fd_write}
use pglite_ios.Wasi.Files.Copies.{fd_write-fd_read}
use pglite_ios.Wasi.Tests.{small, obliging}

abbrev table : Bytes
table = le_bytes 4 64 ++ le_bytes 4 2 ++ le_bytes 4 80 ++ le_bytes 4 1

abbrev page : Memory
page = record { size = 4096; byte = λ i. get_or table i 0 }

abbrev file : FdEntry
file = record { host_fd = pos 100; filetype = 4; fdflags = 0; preopen = minus_one }

abbrev buffers : List Iovec
buffers = record { base = some 64; len = 2 } ∷ record { base = some 80; len = 1 } ∷ []

abbrev text : Bytes
text = 65 ∷ 66 ∷ 67 ∷ []

abbrev reading : Shim
reading = record small {
  mem = some page;
  fds = λ i. file;
  os = record obliging { bytes_of = λ h c. got text };
}

fd_write-fd_read_example :
    ((fd_read 5 0 2 32 reading).0 ≡ ok tt)
    × (bufs : List Bytes) × (joined bufs ≡ text)
    × ((fd_write 6 0 2 32 (fd_read 5 0 2 32 reading).1).1.calls
        ≡ writev (pos 100) bufs ∷ (fd_read 5 0 2 32 reading).1.calls)
unfolding fd_get iovs_to_host iovs_loop iov_base gread_u32 gptr load peek le_bytes le_value room
fd_write-fd_read_example =
    fd_write-fd_read reading page 5 6 0 2 32 file file buffers text refl (omega arith) (omega arith)
      (omega arith) refl refl refl ((inr (omega arith), tt), (tt, tt))
      (inr (omega arith), (inr (omega arith), tt)) (inr (omega arith), (inr (omega arith), tt))
      (inr (omega arith)) refl refl
