-- ===== src/Bridge/Exec/Render.antt =====
-- What `pgl_exec` of native/bridge/pglite_bridge.c writes for a reply of the engine.
use pglite_ios.Common.{
  ℕ, zero, suc, ◌+◌, ◌-◌, ◌^◌, ◌≤◌, ◌<◌, ◌≡◌, sym, ap, ◌∙◌, Option, some, none, List, [], ◌∷◌, ◌++◌,
  append_assoc, arith, map, length, length-append, take, take_all, Bytes, ℤ, pos,
}
use pglite_ios.Bridge.Frames.{frame_at}
use pglite_ios.Bridge.Frames.Laws.{
  Frame, encode, encode_all, Fits, AllFit, length-encode, frame_at-encode,
}
use pglite_ios.Bridge.Frames.Walk.{frame_at-append}
use pglite_ios.Bridge.Exec.{
  Shown, data_row, command_complete, error_response, show_frame, show_loop, show_reply,
}
use pglite_ios.Bridge.Exec.Rows.{render_row, data_row-row}
use pglite_ios.Bridge.Exec.Errors.{
  render_tag, command_complete-text, render_error, error_response-text,
}
use pglite_ios.Bridge.Exec.Messages.{
  row, complete, failure, other, show_frame_row, show_frame_complete, show_frame_failure,
  show_frame_other, show_loop-none, show_loop-some, Message, frame_of, IsWellFormed, AllWellFormed,
  render, render_all, clip, head, at_body, length-head, type_at,
}

-- The branches get the body of the frame.
on_body :
    (g : Bytes → ℕ → ℕ → Option Bytes) (before rest : Bytes) (f : Frame)
    → g (before ++ (encode f ++ rest)) (length before + 5) (4 + length f.body - 4)
      ≡ g ((before ++ head f) ++ (f.body ++ rest)) (length (before ++ head f)) (length f.body)
on_body g before rest f =
    let size : 4 + length f.body - 4 ≡ length f.body = omega arith in
    ap (λ n. g (before ++ (encode f ++ rest)) (length before + 5) n) size
    ∙ ap (λ i. g (before ++ (encode f ++ rest)) i (length f.body)) (sym (length-head before f))
    ∙ ap (λ t. g t (length (before ++ head f)) (length f.body)) (at_body before rest f)

-- A round of the loop, at the frame of a message.
show_frame-message :
    (k : ℕ) (whole before rest : Bytes) (rc : ℤ) (m : Message)
    → suc k < 2 ^ 64
    → IsWellFormed m
    → Fits (frame_of m)
    → show_frame
        (before ++ (encode (frame_of m) ++ rest))
        (length before)
        (4 + length (frame_of m).body)
        (suc k)
        (take k whole, rc)
      ≡ some (clip k (render m (whole, rc)))
show_frame-message k whole before rest rc (row cs) small well fits =
    let f = frame_of (row cs) in
    show_frame_row (before ++ (encode f ++ rest)) (take k whole) (take k (whole ++ render_row cs))
      (length before) (4 + length f.body) (suc k) rc (type_at before rest f)
      (on_body (λ t i n. data_row t i n (suc k) (take k whole)) before rest f
        ∙ data_row-row k whole (before ++ head f) rest cs small well.0 well.1 (omega arith))
show_frame-message k whole before rest rc (complete tag) small well fits =
    let f = frame_of (complete tag) in
    show_frame_complete (before ++ (encode f ++ rest)) (take k whole)
      (take k (whole ++ render_tag tag)) (length before) (4 + length f.body) (suc k) rc
      (type_at before rest f)
      (on_body (λ t i n. command_complete t i n (suc k) (take k whole)) before rest f
        ∙ command_complete-text k whole (before ++ head f) rest tag small well)
show_frame-message k whole before rest rc (failure fs) small well fits =
    let f = frame_of (failure fs) in
    show_frame_failure (before ++ (encode f ++ rest)) (take k whole) (take k (render_error fs))
      (length before) (4 + length f.body) (suc k) rc (type_at before rest f)
      (on_body (λ t i n. error_response t i n (suc k)) before rest f
        ∙ error_response-text k (before ++ head f) rest fs small well)
show_frame-message k whole before rest rc (other t body) small (d, c, e) fits =
    let f = frame_of (other t body) in
    show_frame_other (before ++ (encode f ++ rest)) (take k whole) (length before) (4 + length body)
      (suc k) t rc (type_at before rest f) d c e

show_loop-messages :
    (j k : ℕ) (before rest : Bytes) (ms : List Message) (s : Shown)
    → suc k < 2 ^ 64
    → AllWellFormed ms
    → AllFit (map frame_of ms)
    → frame_at rest 0 ≡ none
    → length (encode_all (map frame_of ms)) ≤ j
    → show_loop j
        (before ++ (encode_all (map frame_of ms) ++ rest))
        (length before)
        (suc k)
        (clip k s)
      ≡ some (clip k (render_all ms s))
unfolding encode_all
show_loop-messages j k before rest [] s small well fit end fuel =
    let here : length before ≡ length before + 0 = omega arith in
    show_loop-none j (before ++ rest) (length before) (suc k) (clip k s)
      (ap (frame_at (before ++ rest)) here ∙ frame_at-append before rest 0 ∙ end)
show_loop-messages zero k before rest (m ∷ ms) s small well fit end fuel = absurd (
    omega (
      arith,
      length-append (encode (frame_of m)) (encode_all (map frame_of ms)),
      length-encode (frame_of m),
    ))
show_loop-messages (suc j) k before rest (m ∷ ms) (whole, rc) small well fit end fuel =
    let f = frame_of m in
    let later = encode_all (map frame_of ms) in
    let size = length-encode f in
    let long = length-append (encode f) later in
    let here : length before ≡ length before + 0 = omega arith in
    let start : before ++ ((encode f ++ later) ++ rest) ≡ before ++ (encode f ++ (later ++ rest)) =
      ap (λ t. before ++ t) (append_assoc (encode f) later rest) in
    let found : frame_at (before ++ (encode f ++ (later ++ rest))) (length before)
        ≡ some (4 + length f.body) =
      ap (frame_at (before ++ (encode f ++ (later ++ rest)))) here
      ∙ frame_at-append before (encode f ++ (later ++ rest)) 0
      ∙ frame_at-encode f (later ++ rest) fit.0 in
    let next : length before + 1 + (4 + length f.body) ≡ length (before ++ encode f) =
      omega (arith, length-append before (encode f)) in
    let s' = clip k (render m (whole, rc)) in
    ap (λ t. show_loop (suc j) t (length before) (suc k) (take k whole, rc)) start
    ∙ show_loop-some j (before ++ (encode f ++ (later ++ rest))) (length before) (4 + length f.body)
        (suc k) (take k whole, rc) s' found
        (show_frame-message k whole before (later ++ rest) rc m small well.0 fit.0)
        (omega (arith, fit.0))
    ∙ ap (λ i. show_loop j (before ++ (encode f ++ (later ++ rest))) i (suc k) s') next
    ∙ ap (λ t. show_loop j t (length (before ++ encode f)) (suc k) s')
        (sym (append_assoc before (encode f) (later ++ rest)))
    ∙ show_loop-messages j k (before ++ encode f) rest ms (render m (whole, rc)) small well.1 fit.1
        end (omega arith)

-- For a reply of well-formed messages whose length words are below 2 ^ 32 - 1, with at most an
-- incomplete frame behind them, the walk of `pgl_exec` ends; what `pgl_exec` leaves in a buffer of
-- `k + 1` bytes, below 2 ^ 64, is the text of the messages, cut to its first `k` bytes, and it
-- returns -1 exactly as the messages say; nothing is read or written out of bounds.
pub show_reply-render_all :
    (k : ℕ) (ms : List Message) (rest : Bytes)
    → suc k < 2 ^ 64
    → AllWellFormed ms
    → AllFit (map frame_of ms)
    → frame_at rest 0 ≡ none
    → show_reply (encode_all (map frame_of ms) ++ rest) (suc k)
      ≡ some (clip k (render_all ms ([], pos 0)))
unfolding show_reply
show_reply-render_all k ms rest small well fit end =
    let reply = encode_all (map frame_of ms) ++ rest in
    ap (λ t. show_loop (length reply) reply 0 (suc k) (t, pos 0))
      (sym (take_all k [] (omega arith)))
    ∙ show_loop-messages (length reply) k [] rest ms ([], pos 0) small well fit end
        (omega (arith, length-append (encode_all (map frame_of ms)) rest))
