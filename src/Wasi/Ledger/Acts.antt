-- ===== src/Wasi/Ledger/Acts.antt =====
-- What the code of the guest can do to the shim of native/shim/wasi_shim.c: it computes on its
-- memory and calls imports.
use pglite_ios.Common.{sym, Option}
use mathlib.Core.Path.{subst}
use pglite_ios.Wasi.Memory.{Memory}
use pglite_ios.Wasi.State.{Shim}
use pglite_ios.Wasi.Requests.{Request, handle}
use pglite_ios.Wasi.Requests.Framed.{handle-Framed}
use pglite_ios.Wasi.Ledger.Sound.{GivesClosed}
use pglite_ios.Wasi.Ledger.Leads.{Settles}
use pglite_ios.Wasi.Ledger.Runs.{handle-Sound}

-- `Acts w w'`: a run of the guest takes the shim from `w` to `w'`.
pub data Acts : Shim → Shim → Type 0 where
  rests : (w : Shim) → Acts w w
  computes : (w w' : Shim) (m : Option Memory) → Acts (record w { mem = m }) w' → Acts w w'
  calls : (w w' : Shim) (r : Request) → Acts (handle r w).1 w' → Acts w w'

pub handle-Settles : (r : Request) (w : Shim) → Settles w → Settles (handle r w).1
handle-Settles r w (s, fresh) =
    (handle-Sound r w fresh s, subst GivesClosed (sym (handle-Framed r w).os) fresh)

pub memory-Settles : (w : Shim) (m : Option Memory) → Settles w → Settles (record w { mem = m })
memory-Settles w m (s, fresh) = (record { balance = s.balance; entries = s.entries }, fresh)

-- The guest cannot make the books on descriptors wrong.
pub Acts-Settles : (w w' : Shim) → Acts w w' → Settles w → Settles w'
Acts-Settles w w' (rests w1) s = s
Acts-Settles w w' (computes w1 w2 m a) s =
    Acts-Settles (record w { mem = m }) w' a (memory-Settles w m s)
Acts-Settles w w' (calls w1 w2 r a) s = Acts-Settles (handle r w).1 w' a (handle-Settles r w s)
