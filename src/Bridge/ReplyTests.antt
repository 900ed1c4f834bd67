-- ===== src/Bridge/ReplyTests.antt =====
-- A query against a guest that answers it, and the theorem about it at a concrete input.
use pglite_ios.Common.{
  ◌-◌, ◌≡◌, refl, true, some, List, [], ◌∷◌, arith, map, length, get_or, pos, codes, Bytes,
}
use pglite_ios.Wasi.Memory.{peek}
use pglite_ios.Wasi.Errno.{Errno}
use pglite_ios.Wasi.State.{Shim}
use pglite_ios.Bridge.Frames.{be32}
use pglite_ios.Bridge.Frames.Laws.{encode, encode_all, any_ready}
use pglite_ios.Bridge.Db.{
  Db, Export, Outcome, returned, interactive_one, interactive_read, get_channel,
}
use pglite_ios.Bridge.Db.Gives.{Gives}
use pglite_ios.Bridge.Pump.Answers.{Accepts, Answers, accepted}
use pglite_ios.Bridge.Exec.{query_message, pgl_exec}
use pglite_ios.Bridge.Exec.Messages.{Message, frame_of}
use pglite_ios.Bridge.Exec.Cells.{encode_row}
use pglite_ios.Bridge.Exec.Rows.{render_row}
use pglite_ios.Bridge.Exec.Replies.{pgl_exec-Replies}
use pglite_ios.Bridge.Tests.{with_guest}

-- One row and a ReadyForQuery.
abbrev messages : List Message
messages = Message.row (some (codes "7") ∷ []) ∷ Message.other (b'Z') (b'I' ∷ []) ∷ []

abbrev reply : Bytes
reply = encode_all (map frame_of messages)

-- A guest that writes the reply to its memory at address 1 when it ticks.
abbrev respond : Export → Shim → Outcome × Shim
respond interactive_one w = (
  returned 0,
  record w { mem = some (record { size = 4096; byte = λ i. get_or reply (i - 1) 0 }) },
)
respond interactive_read w = (returned (length reply), w)
respond get_channel w = (returned 1, w)
respond _ w = (returned 0, w)

abbrev db : Db
db =
    record (with_guest
      (record { run = λ h. respond; memory = record { size = 0; byte = λ i. 0 } })) {
        alloc_ok = λ n. true;
      }

request-Accepts : Accepts db.io_out (length (query_message (codes "SELECT 7"))) db.exports db.guest
request-Accepts = record {
  wires = λ w clear. ((0, refl), clear);
  takes = λ w clear. ((0, refl), clear);
}

reply-Answers : Answers db.io_out reply 1 (accepted (query_message (codes "SELECT 7")) db) db.guest
unfolding peek encode_all encode be32 encode_row
reply-Answers = record {
  ticks = λ w clear. ((0, refl), (omega arith, refl, clear));
  flushes = λ w offers. ((0, refl), offers);
  sizes = λ w offers. (refl, offers);
  places = λ w offers. (refl, offers);
  resets = λ w offers. ((0, refl), offers.2);
}

pgl_exec-Replies_example :
    Gives (λ r db'. r ≡ some (codes "7\n", pos 0)) (pgl_exec 2 (codes "SELECT 7") 64 db)
unfolding encode_all encode be32 encode_row any_ready render_row
pgl_exec-Replies_example =
    pgl_exec-Replies 0 63 1 (codes "SELECT 7") messages db refl (omega arith) (omega arith)
      (((omega arith, tt), omega arith), ((refl, refl, refl), tt)) (omega arith, (omega arith, tt))
      refl (omega arith) (omega arith) (omega arith) (λ h. (Errno.enoent, refl)) request-Accepts
      (reply-Answers, λ n. refl)
