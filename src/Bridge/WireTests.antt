-- ===== src/Bridge/WireTests.antt =====
-- The theorems about frames, messages and shown replies at concrete inputs.
use pglite_ios.Common.{
  ◌≡◌, refl, true, some, none, List, [], ◌∷◌, ◌++◌, arith, map, length, codes, negsuc, replicate,
}
use pglite_ios.Bridge.Frames.{be32, rd32, frame_at, has_rfq}
use pglite_ios.Bridge.Frames.Laws.{
  Frame, encode, encode_all, any_ready, has_rfq-encode_all, has_rfq-append,
}
use pglite_ios.Bridge.Exec.{sappend, show_reply}
use pglite_ios.Bridge.Exec.Clip.{sappend-take}
use pglite_ios.Bridge.Exec.Render.{show_reply-render_all}
use pglite_ios.Bridge.Exec.Messages.{Message, frame_of}
use pglite_ios.Bridge.Auth.{md5hex, auth_request, password_message, startup_message}
use pglite_ios.Bridge.Auth.Digest.{md5hex_lem, AllHex, hex_bytes}
use pglite_ios.Bridge.Auth.Laws.{
  read_request, auth_request-read_requests, messages-encode, query_frame, password_frame,
}
use pglite_ios.Bridge.Exec.{query_message}
use pglite_ios.Bridge.Exec.Errors.{render_error, encode_fields}
use pglite_ios.Bridge.Exec.Cells.{encode_row}

abbrev ready : Frame
ready = record { type = b'Z'; body = b'I' ∷ [] }

abbrev stray : Frame
stray = record { type = b'T'; body = b'Z' ∷ 0 ∷ [] }

has_rfq-encode_all_example :
    has_rfq (encode_all (stray ∷ ready ∷ []) ++ b'D' ∷ 0 ∷ [])
    ≡ some (any_ready (stray ∷ ready ∷ []))
unfolding frame_at
has_rfq-encode_all_example =
    has_rfq-encode_all (stray ∷ ready ∷ []) (b'D' ∷ 0 ∷ []) (omega arith, (omega arith, tt)) refl

has_rfq-append_example : has_rfq (encode_all (stray ∷ ready ∷ []) ++ 1 ∷ []) ≡ some true
unfolding has_rfq encode_all be32
has_rfq-append_example = has_rfq-append (encode_all (stray ∷ ready ∷ [])) (1 ∷ []) refl

sappend-take_example : sappend 4 (codes "ab") (codes "xyz") 3 ≡ some (codes "abx")
sappend-take_example = sappend-take 3 (codes "ab") (codes "xyz") 3 (omega arith) (omega arith)

abbrev answers : List Message
answers =
    Message.row (some (codes "7") ∷ none ∷ [])
    ∷ Message.complete (codes "SELECT 1")
    ∷ Message.failure ((b'S', codes "ERROR") ∷ (b'M', codes "no") ∷ [])
    ∷ Message.other (b'Z') (b'I' ∷ [])
    ∷ []

show_reply-render_all_example :
    show_reply (encode_all (map frame_of answers) ++ []) 12 ≡ some (codes "ERROR: no (", negsuc 0)
unfolding frame_at render_error encode_row encode_fields be32
show_reply-render_all_example =
    show_reply-render_all 11 answers [] (omega arith)
      (
        ((omega arith, (tt, tt)), omega arith),
        (
          (refl, (refl, (refl, (refl, (refl, (refl, (refl, (refl, tt)))))))),
          (
            (refl, (refl, (refl, (refl, (refl, (refl, tt))))), (refl, (refl, (refl, tt)), tt)),
            ((refl, refl, refl), tt),
          ),
        ),
      )
      (omega arith, (omega arith, (omega arith, (omega arith, tt)))) refl

md5hex_lem_example :
    (length (md5hex (λ bs. replicate 16 171) []) ≡ 32)
    × AllHex (md5hex (λ bs. replicate 16 171) [])
    × (hex_bytes (md5hex (λ bs. replicate 16 171) []) ≡ replicate 16 171)
md5hex_lem_example =
    md5hex_lem (λ bs. replicate 16 171) []
      (
        omega arith,
        (
          omega arith,
          (
            omega arith,
            (
              omega arith,
              (
                omega arith,
                (
                  omega arith,
                  (
                    omega arith,
                    (
                      omega arith,
                      (
                        omega arith,
                        (
                          omega arith,
                          (
                            omega arith,
                            (
                              omega arith,
                              (omega arith, (omega arith, (omega arith, (omega arith, tt)))),
                            ),
                          ),
                        ),
                      ),
                    ),
                  ),
                ),
              ),
            ),
          ),
        ),
      )
      refl

abbrev salt_request : Frame
salt_request = record { type = b'R'; body = 0 ∷ 0 ∷ 0 ∷ 5 ∷ 1 ∷ 2 ∷ 3 ∷ 4 ∷ [] }

auth_request-read_requests_example :
    auth_request (encode_all (stray ∷ salt_request ∷ []) ++ [])
    ≡ some (record { authtype = 5; salt = 1 ∷ 2 ∷ 3 ∷ 4 ∷ [] })
unfolding frame_at read_request
auth_request-read_requests_example =
    auth_request-read_requests (stray ∷ salt_request ∷ []) [] (omega arith, (omega arith, tt)) refl

messages-encode_example :
    (query_message (codes "SELECT 1") ≡ encode (query_frame (codes "SELECT 1")))
    × (password_message (codes "pw") ≡ encode (password_frame (codes "pw")))
    × (rd32 startup_message 0 ≡ length startup_message)
messages-encode_example =
    messages-encode (codes "SELECT 1") (codes "pw") (omega arith) (omega arith)
