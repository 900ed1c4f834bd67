-- ===== src/Bridge/OpenTests.antt =====
-- A database that is opened, asked and closed, at concrete inputs.
use pglite_ios.Common.{◌-◌, some, [], ◌∷◌, codes, map, length, get_or, Bytes}
use pglite_ios.Wasi.Memory.{Memory}
use pglite_ios.Wasi.Requests.{Request, handle}
use pglite_ios.Wasi.Ledger.Acts.{Acts}
use pglite_ios.Wasi.Ledger.Boot.{NoneOpen}
use pglite_ios.Wasi.Tests.{small}
use pglite_ios.Wasi.LedgerTests.{obliging-GivesClosed, small-NoneOpen}
use pglite_ios.Bridge.Frames.Laws.{encode_all}
use pglite_ios.Bridge.Db.{Db, Guest, Export, Outcome, returned, interactive_read, get_channel}
use pglite_ios.Bridge.Exec.Messages.{Message, frame_of}
use pglite_ios.Bridge.Open.{pgl_open}
use pglite_ios.Bridge.Open.Books.{ActsOnly}
use pglite_ios.Bridge.Open.Balanced.{Eventually, pgl_open-NoneOpen}
use pglite_ios.Bridge.Tests.{with_guest}

abbrev reply : Bytes
reply = encode_all (map frame_of (Message.other (b'Z') (b'I' ∷ []) ∷ []))

abbrev page : Memory
page = record { size = 4096; byte = λ i. get_or reply (i - 1) 0 }

abbrev answer : Export → Outcome
answer interactive_read = returned (length reply)
answer get_channel = returned 1
answer _ = returned 0

abbrev asks : Request
asks = Request.path_open 3 0 0 4 0 0 0 0 40

-- A guest that opens a file at each call, and keeps a reply in its memory.
abbrev opener : Guest
opener = record {
  run = λ h c w. (answer c, record (handle asks w).1 { mem = some page });
  memory = page;
}

pub opener-ActsOnly : ActsOnly opener
opener-ActsOnly h c w =
    let w' = (handle asks w).1 in
    let end = record w' { mem = some page } in
    Acts.calls w end asks (Acts.computes w' end (some page) (Acts.rests end))

abbrev pub env : Db
env = record (with_guest opener) { wasi = small }

pgl_open-NoneOpen_example :
    Eventually
      (λ db. NoneOpen db.wasi)
      8
      ((codes "SELECT 1", 256) ∷ [])
      (pgl_open 8 2048 (codes "/r") env)
pgl_open-NoneOpen_example =
    pgl_open-NoneOpen 8 2048 (codes "/r") ((codes "SELECT 1", 256) ∷ []) env obliging-GivesClosed
      small-NoneOpen opener-ActsOnly
