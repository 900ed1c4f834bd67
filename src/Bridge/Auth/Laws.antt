-- ===== src/Bridge/Auth/Laws.antt =====
-- The messages that `authenticate` of native/bridge/pglite_bridge.c sends, and what it makes of
-- the engine's reply.
use pglite_ios.Common.{
  replicate, drop-append_right, take-drop-append_left, Bool-cases, inl, inr, ℕ, zero, suc, ◌+◌, ◌^◌,
  ◌≤◌, ◌<◌, ◌≡◌, refl, sym, ap, ◌∙◌, true, ◌&&◌, none, some, List, [], ◌∷◌, ◌++◌, append_assoc,
  arith, leb, ◌==◌, if◌then◌else◌, length, length-append, take, drop, Bytes, u32,
}
use pglite_ios.Bridge.Frames.{be32, rd32, frame_at}
use pglite_ios.Bridge.Frames.Laws.{
  Frame, encode, encode_all, AllFit, length-encode, frame_at-encode,
}
use pglite_ios.Bridge.Frames.Walk.{rd32-append, rd32-append_left, frame_at-append, next_off-below}
use pglite_ios.Bridge.Exec.Messages.{head, at_body, length-head, type_at}
use pglite_ios.Bridge.Auth.{
  AuthRequest, read_auth, auth_loop, auth_request, password_message, startup_message,
}
use pglite_ios.Bridge.Exec.{query_message}

-- What a frame says of the authentication that the engine asks for.
unfoldable pub read_request : Frame → AuthRequest → AuthRequest
read_request f a =
    if (f.type == b'R') && leb 4 (length f.body)
    then record {
      authtype = rd32 (f.body) 0;
      salt =
          if (rd32 (f.body) 0 == 5) && leb 8 (length f.body)
          then take 4 (drop 4 f.body)
          else a.salt;
    }
    else a

abbrev pub read_requests : List Frame → AuthRequest → AuthRequest
read_requests [] a = a
read_requests (f ∷ fs) a = read_requests fs (read_request f a)

leb_shift : (k m n : ℕ) → leb (k + m) (k + n) ≡ leb m n
leb_shift k m n = ground arith

body_word :
    (before rest : Bytes) (f : Frame)
    → leb 4 (length f.body) ≡ true
    → rd32 (before ++ (encode f ++ rest)) (length before + 5) ≡ rd32 (f.body) 0
body_word before rest f long =
    let front = before ++ head f in
    let at : length before + 5 ≡ length front + 0 = omega (arith, length-head before f) in
    ap (λ t. rd32 t (length before + 5)) (at_body before rest f)
    ∙ ap (rd32 (front ++ (f.body ++ rest))) at
    ∙ rd32-append front (f.body ++ rest) 0
    ∙ rd32-append_left (f.body) rest 0 (ground arith)

body_salt :
    (before rest : Bytes) (f : Frame)
    → leb 8 (length f.body) ≡ true
    → take 4 (drop (length before + 9) (before ++ (encode f ++ rest))) ≡ take 4 (drop 4 f.body)
body_salt before rest f long =
    let front = before ++ head f in
    let at : length before + 9 ≡ length front + 4 = omega (arith, length-head before f) in
    ap (λ t. take 4 (drop (length before + 9) t)) (at_body before rest f)
    ∙ ap (λ i. take 4 (drop i (front ++ (f.body ++ rest)))) at
    ∙ ap (take 4) (drop-append_right front (f.body ++ rest) 4)
    ∙ take-drop-append_left 4 4 (f.body) rest (ground arith)

-- At a frame, `read_auth` sees what the frame says.
read_auth-frame :
    (before rest : Bytes) (f : Frame) (a : AuthRequest)
    → read_auth (before ++ (encode f ++ rest)) (length before) (4 + length f.body) a
      ≡ read_request f a
unfolding read_auth read_request
read_auth-frame before rest f a = elim (Bool-cases (leb 4 (length f.body))) [
  | inl long ↦ elim (Bool-cases (leb 8 (length f.body))) [
    | inl salted ↦ ground (
      arith,
      type_at before rest f,
      leb_shift 4 4 (length f.body),
      leb_shift 4 8 (length f.body),
      body_word before rest f long,
      body_salt before rest f salted,
    )
    | inr bare ↦ ground (
      arith,
      type_at before rest f,
      leb_shift 4 4 (length f.body),
      leb_shift 4 8 (length f.body),
      body_word before rest f long,
    )
  ]
  | inr short ↦ ground (arith, type_at before rest f, leb_shift 4 4 (length f.body))
]

auth_loop-none :
    (j : ℕ) (reply : Bytes) (off : ℕ) (a : AuthRequest)
    → frame_at reply off ≡ none
    → auth_loop j reply off a ≡ some a
unfolding auth_loop
auth_loop-none zero reply off a e = refl
auth_loop-none (suc j) reply off a e = rw (auth_loop, e) refl

auth_loop-some :
    (j : ℕ) (reply : Bytes) (off n : ℕ) (a : AuthRequest)
    → frame_at reply off ≡ some n
    → 1 + n < 2 ^ 32
    → auth_loop (suc j) reply off a ≡ auth_loop j reply (off + 1 + n) (read_auth reply off n a)
unfolding auth_loop
auth_loop-some j reply off n a e h = rw (auth_loop, e, next_off-below off n h) refl

auth_loop-frames :
    (j : ℕ) (before rest : Bytes) (fs : List Frame) (a : AuthRequest)
    → AllFit fs
    → frame_at rest 0 ≡ none
    → length (encode_all fs) ≤ j
    → auth_loop j (before ++ (encode_all fs ++ rest)) (length before) a ≡ some (read_requests fs a)
unfolding encode_all
auth_loop-frames j before rest [] a fit end fuel =
    let here : length before ≡ length before + 0 = omega arith in
    auth_loop-none j (before ++ rest) (length before) a
      (ap (frame_at (before ++ rest)) here ∙ frame_at-append before rest 0 ∙ end)
auth_loop-frames zero before rest (f ∷ fs) a fit end fuel =
    absurd (omega (arith, length-append (encode f) (encode_all fs), length-encode f))
auth_loop-frames (suc j) before rest (f ∷ fs) a fit end fuel =
    let tail = encode_all fs ++ rest in
    let size = length-encode f in
    let long = length-append (encode f) (encode_all fs) in
    let n = 4 + length f.body in
    let here : length before ≡ length before + 0 = omega arith in
    let start : before ++ ((encode f ++ encode_all fs) ++ rest) ≡ before ++ (encode f ++ tail) =
      ap (λ t. before ++ t) (append_assoc (encode f) (encode_all fs) rest) in
    let found : frame_at (before ++ (encode f ++ tail)) (length before) ≡ some n =
      ap (frame_at (before ++ (encode f ++ tail))) here
      ∙ frame_at-append before (encode f ++ tail) 0
      ∙ frame_at-encode f tail fit.0 in
    let next : length before + 1 + n ≡ length (before ++ encode f) =
      omega (arith, length-append before (encode f)) in
    ap (λ t. auth_loop (suc j) t (length before) a) start
    ∙ auth_loop-some j (before ++ (encode f ++ tail)) (length before) n a found
        (omega (arith, fit.0))
    ∙ ap (auth_loop j (before ++ (encode f ++ tail)) (length before + 1 + n))
        (read_auth-frame before tail f a)
    ∙ ap (λ i. auth_loop j (before ++ (encode f ++ tail)) i (read_request f a)) next
    ∙ ap (λ t. auth_loop j t (length (before ++ encode f)) (read_request f a))
        (sym (append_assoc before (encode f) tail))
    ∙ auth_loop-frames j (before ++ encode f) rest fs (read_request f a) fit.1 end (omega arith)

-- In a reply of whole frames whose length words are below 2 ^ 32 - 1, with at most an incomplete
-- frame behind them, the walk of `authenticate` ends, and the request that it finds is what the
-- frames say, one after the other.
pub auth_request-read_requests :
    (fs : List Frame) (rest : Bytes)
    → AllFit fs
    → frame_at rest 0 ≡ none
    → auth_request (encode_all fs ++ rest)
      ≡ some (read_requests fs (record { authtype = 0; salt = replicate 4 0 }))
unfolding auth_request
auth_request-read_requests fs rest fit end =
    auth_loop-frames (length (encode_all fs ++ rest)) [] rest fs _ fit end
      (omega (arith, length-append (encode_all fs) rest))

abbrev pub query_frame : Bytes → Frame
query_frame sql = record { type = b'Q'; body = sql ++ 0 ∷ [] }

abbrev pub password_frame : Bytes → Frame
password_frame pw = record { type = b'p'; body = pw ++ 0 ∷ [] }

-- A query and a password that a 32-bit length can count go out as one frame each, whose body is
-- the text and its NUL; the startup message starts with its own length.
pub messages-encode :
    (sql pw : Bytes)
    → length sql + 5 < 2 ^ 32
    → length pw + 5 < 2 ^ 32
    → (query_message sql ≡ encode (query_frame sql))
      × (password_message pw ≡ encode (password_frame pw))
      × (rd32 startup_message 0 ≡ length startup_message)
unfolding query_message password_message encode startup_message rd32 be32
messages-encode sql pw small small' =
    let size = length-append sql (0 ∷ []) in
    let size' = length-append pw (0 ∷ []) in
    let n : u32 (4 + (length sql + 1)) ≡ 4 + length (sql ++ 0 ∷ []) = omega arith in
    let m : 4 + (length pw + 1) ≡ 4 + length (pw ++ 0 ∷ []) = omega arith in
    (ap (λ k. b'Q' ∷ be32 k ++ sql ++ 0 ∷ []) n, ap (λ k. b'p' ∷ be32 k ++ pw ++ 0 ∷ []) m, refl)
