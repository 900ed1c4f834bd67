-- ===== src/Wasi/Ledger/Runs.antt =====
-- Whatever imports of native/shim/wasi_shim.c the guest calls, the books on descriptors stay right.
use pglite_ios.Common.{sym, List, [], ◌∷◌}
use mathlib.Core.Path.{subst}
use pglite_ios.Wasi.State.{Shim}
use pglite_ios.Wasi.Ledger.Sound.{Sound, Sound-IsNeutral, GivesClosed}
use pglite_ios.Wasi.Ledger.Slots.{fd_close-Sound, fd_renumber-Sound}
use pglite_ios.Wasi.Ledger.Opens.{path_open-Sound}
use pglite_ios.Wasi.Ledger.Flags.{fd_fdstat_set_flags-Sound}
use pglite_ios.Wasi.Ledger.Listing.{fd_readdir-Sound}
use pglite_ios.Wasi.Requests.{Request, handle, serve}
use pglite_ios.Wasi.Requests.Stable.{handle-Keeps}
use pglite_ios.Wasi.Requests.Framed.{handle-Framed}

pub handle-Sound : (r : Request) (w : Shim) → GivesClosed w.os → Sound w → Sound (handle r w).1
unfolding handle
handle-Sound (Request.fd_close fd) w fresh s = fd_close-Sound w fd s
handle-Sound (Request.fd_renumber from to) w fresh s = fd_renumber-Sound w from to s
handle-Sound (Request.fd_fdstat_set_flags fd flags) w fresh s =
    fd_fdstat_set_flags-Sound w fd flags s
handle-Sound (Request.path_open a b c d e f g h i) w fresh s =
    path_open-Sound w a b c d e f g h i fresh s
handle-Sound (Request.fd_readdir a b c d e) w fresh s = fd_readdir-Sound w a b c d e s
handle-Sound r w fresh s = (handle-Keeps Sound-IsNeutral r (λ h. h)).at w s

pub serve-Sound : (rs : List Request) (w : Shim) → GivesClosed w.os → Sound w → Sound (serve rs w)
unfolding serve
serve-Sound [] w fresh s = s
serve-Sound (r ∷ rs) w fresh s =
    let same = (handle-Framed r w).os in
    serve-Sound rs (handle r w).1 (subst GivesClosed (sym same) fresh) (handle-Sound r w fresh s)
