-- ===== src/Wasi/Errno.antt =====
-- `wasi_errno` of native/shim/wasi_shim.c.
pub mod Laws
use pglite_ios.Common.{ℕ}
use pglite_ios.Wasi.Code

-- The names of <errno.h> that `wasi_errno` tells apart; `other` is any further one.
pub data Errno : Type 0 where
  e_none e2big eacces eagain ebadf ebusy edeadlk edquot eexist efault efbig eintr einval : Errno
  eio eisdir eloop emfile emlink enametoolong enfile enodev enoent enolck enomem enospc : Errno
  enosys enotdir enotempty enotsup enotty enxio eoverflow eperm epipe erange erofs espipe : Errno
  esrch estale etimedout etxtbsy exdev : Errno
  other : ℕ → Errno

unfoldable pub wasi_errno : Errno → ℕ
wasi_errno e_none = 0
wasi_errno e2big = 1
wasi_errno eacces = 2
wasi_errno eagain = 6
wasi_errno ebadf = 8
wasi_errno ebusy = 10
wasi_errno edeadlk = 16
wasi_errno edquot = 19
wasi_errno eexist = 20
wasi_errno efault = 21
wasi_errno efbig = 22
wasi_errno eintr = 27
wasi_errno einval = 28
wasi_errno eio = 29
wasi_errno eisdir = 31
wasi_errno eloop = 32
wasi_errno emfile = 33
wasi_errno emlink = 34
wasi_errno enametoolong = 37
wasi_errno enfile = 41
wasi_errno enodev = 43
wasi_errno enoent = 44
wasi_errno enolck = 46
wasi_errno enomem = 48
wasi_errno enospc = 51
wasi_errno enosys = 52
wasi_errno enotdir = 54
wasi_errno enotempty = 55
wasi_errno enotsup = 58
wasi_errno enotty = 59
wasi_errno enxio = 60
wasi_errno eoverflow = 61
wasi_errno eperm = 63
wasi_errno epipe = 64
wasi_errno erange = 68
wasi_errno erofs = 69
wasi_errno espipe = 70
wasi_errno esrch = 71
wasi_errno estale = 72
wasi_errno etimedout = 73
wasi_errno etxtbsy = 74
wasi_errno exdev = 75
wasi_errno (other _) = Code.io
