-- ===== src/Wasi/Readdir/Listing.antt =====
-- The loop of `fd_readdir` of native/shim/wasi_shim.c writes the records of the entries, cut to
-- the buffer.
use pglite_ios.Common.{
  ℕ, ◌+◌, ◌-◌, ◌^◌, ◌≤◌, ◌<◌, ◌≡◌, refl, sym, ap, ◌∙◌, inl, inr, Bool-cases, some, List, [], ◌∷◌,
  ◌++◌, append_assoc, arith, ltb, ltb→lt, ltb→le, length, length-append, length-take, take,
  take_all, min, Bytes, ℤ, u32, u64,
}
use mathlib.Core.Path.{ap₂}
use pglite_ios.Wasi.Host.{Dirent}
use pglite_ios.Wasi.Memory.{Memory, poke}
use pglite_ios.Wasi.State.{Shim, Res, Op, ok, store, ◌>>=◌}
use pglite_ios.Wasi.State.Stores.{mem-store, size-poke, store-append, store-nil}
use pglite_ios.Wasi.Readdir.{
  dirent_head, remain, copy_name_len, name_round, head_round, readdir_loop,
}
use pglite_ios.Wasi.Readdir.Records.{
  records, record_of, NamesFit, take-record_short, take-record_last, take-record_next,
  length-dirent_head, name_round-last, name_round-next, head_round-short, head_round-whole,
}

-- The bytes `t` are written from the `used`-th byte of the buffer on, and counted.
abbrev pub listed : ℕ → ℕ → Bytes → Shim → Res ℕ × Shim
listed p used t w = (ok (used + length t), store (p + used) t w)

-- Two writes of a round, the second behind the first, and their count.
listed-append :
    (p used n : ℕ) (s t : Bytes) (w : Shim) (m : Memory)
    → w.mem ≡ some m
    → length s ≡ n
    → listed p (used + n) t (store (p + used) s w) ≡ listed p used (s ++ t) w
listed-append p used n s t w m e size =
    let at : p + (used + n) ≡ p + used + length s = omega (arith, size) in
    let count : used + n + length t ≡ used + length (s ++ t) =
      omega (arith, size, length-append s t) in
    ap₂ (λ (k : ℕ) (w' : Shim). (ok k, w')) count
      (ap (λ q. store q t (store (p + used) s w)) at ∙ store-append w m (p + used) s t e)

-- The count and the bytes of two runs that write the same.
listed-≡ :
    (p used n : ℕ) (s t : Bytes) (w : Shim)
    → s ≡ t
    → used + length t ≡ n
    → (ok n, store (p + used) s w) ≡ listed p used t w
listed-≡ p used n s t w e count =
    ap₂ (λ (k : ℕ) (u : Bytes). (ok k, store (p + used) u w)) (sym count) e

-- A round, where the rounds that follow write the bytes `after`, cut to the buffer.
module _ (d : ℤ) (p buf_len used next : ℕ) (de : Dirent) (rest : Op ℕ) (after : Bytes) (w : Shim)
    (m : Memory) (e : w.mem ≡ some m) (inside : p + buf_len ≤ m.size) (small : m.size < 2 ^ 32)
    (within : used ≤ buf_len) where
  abbrev Round : Type 0
  Round =
      head_round d p buf_len used next de rest w
      ≡ listed p used (take (buf_len - used) (record_of next de ++ after)) w

  round_short : buf_len - used < 24 → Round
  round_short short =
      let r = buf_len - used in
      let head = dirent_head next de in
      let size = length-dirent_head next de in
      let cut = take-record_short r head de.name after (omega (arith, size)) in
      head_round-short d p buf_len used de rest w m e inside small within next short
      ∙ listed-≡ p used buf_len (take r head) (take r (record_of next de ++ after)) w (sym cut)
          (omega (arith, size, length-take r head, ap length cut))

  -- The memory after the head.
  abbrev with_head : Shim
  with_head = store (p + used) (dirent_head next de) w

  round_whole :
      (t : Bytes)
      → 24 ≤ buf_len - used
      → name_round d p buf_len (used + 24) de rest with_head ≡ listed p (used + 24) t with_head
      → take (buf_len - used) (record_of next de ++ after) ≡ dirent_head next de ++ t
      → Round
  round_whole t room named cut =
      head_round-whole d p buf_len used de rest w m e inside small within next room
      ∙ named
      ∙ listed-append p used 24 (dirent_head next de) t w m e (length-dirent_head next de)
      ∙ ap (λ t. listed p used t w) (sym cut)

  round_last :
      length de.name < 2 ^ 32 → 24 ≤ buf_len - used → buf_len - (used + 24) ≤ length de.name → Round
  round_last fit room last =
      let head = dirent_head next de in
      let m1 = poke m (p + used) head in
      let e1 = mem-store w m (p + used) head e in
      let same = size-poke m (p + used) head in
      let size = length-dirent_head next de in
      let r = buf_len - (used + 24) in
      let t = take r de.name in
      let least : min (buf_len - used - length head) (length de.name) ≡ r = omega (arith, size) in
      round_whole t room
        (name_round-last d p buf_len (used + 24) de rest with_head m1 e1 (omega (arith, same))
            (omega (arith, same)) (omega arith) fit last
          ∙ listed-≡ p (used + 24) buf_len t t with_head refl
              (omega (arith, length-take r de.name)))
        (take-record_last (buf_len - used) head de.name after (omega (arith, size))
            (omega (arith, size))
          ∙ ap (λ k. head ++ take k de.name) least)

  -- The buffer after the name.
  abbrev past : ℕ
  past = used + 24 + length de.name

  abbrev with_name : Shim
  with_name = store (p + (used + 24)) de.name with_head

  round_next :
      24 ≤ buf_len - used
      → length de.name < buf_len - (used + 24)
      → ((m' : Memory)
          → with_name.mem ≡ some m'
          → m'.size ≡ m.size
          → rest with_name ≡ listed p past (take (buf_len - past) after) with_name)
      → Round
  round_next room more follow =
      let head = dirent_head next de in
      let m1 = poke m (p + used) head in
      let e1 = mem-store w m (p + used) head e in
      let same = size-poke m (p + used) head in
      let m2 = poke m1 (p + (used + 24)) de.name in
      let e2 = mem-store with_head m1 (p + (used + 24)) de.name e1 in
      let same2 = size-poke m1 (p + (used + 24)) de.name in
      let size = length-dirent_head next de in
      let t = take (buf_len - past) after in
      let left : buf_len - used - (length head + length de.name) ≡ buf_len - past =
        omega (arith, size) in
      round_whole (de.name ++ t) room
        (name_round-next d p buf_len (used + 24) de rest with_head m1 e1 (omega (arith, same))
            (omega (arith, same)) (omega arith) more
          ∙ follow m2 e2 (omega (arith, same, same2))
          ∙ listed-append p (used + 24) (length de.name) de.name t with_head m1 e1 refl)
        (take-record_next (buf_len - used) head de.name after (omega (arith, size))
          ∙ ap (λ k. (head ++ de.name) ++ take k after) left
          ∙ append_assoc head de.name t)

name_used : ℕ → ℕ → Dirent → ℕ
name_used buf_len used de =
    let used_head = u32 (used + min (remain buf_len used) 24) in
    u32 (used_head + copy_name_len buf_len used_head de)

readdir_loop-nil :
    (d : ℤ) (p buf_len used cookie : ℕ) (w : Shim)
    → readdir_loop d p buf_len used cookie [] w ≡ (ok used, w)
unfolding readdir_loop ◌>>=◌
readdir_loop-nil d p buf_len used cookie w = refl

readdir_loop-cons :
    (d : ℤ) (p buf_len used cookie : ℕ) (de : Dirent) (des : List Dirent) (w : Shim)
    → readdir_loop d p buf_len used cookie (de ∷ des) w
      ≡ head_round d p buf_len used
          (u64 (cookie + 1))
          de
          (readdir_loop d p buf_len (name_used buf_len used de) (u64 (cookie + 1)) des)
          w
unfolding readdir_loop name_used
readdir_loop-cons d p buf_len used cookie de des w = refl

name_used-past :
    (buf_len used : ℕ) (de : Dirent)
    → 24 ≤ buf_len - used
    → length de.name < buf_len - (used + 24)
    → buf_len < 2 ^ 32
    → name_used buf_len used de ≡ used + 24 + length de.name
unfolding name_used
name_used-past buf_len used de room more small =
    let head : u32 (used + min (remain buf_len used) 24) ≡ used + 24 = omega arith in
    let name : copy_name_len buf_len (used + 24) de ≡ length de.name = omega arith in
    rw (head, name) (omega arith)

pub readdir_loop-listed :
    (d : ℤ) (p buf_len : ℕ) (des : List Dirent) (used cookie : ℕ) (w : Shim) (m : Memory)
    → w.mem ≡ some m
    → p + buf_len ≤ m.size
    → m.size < 2 ^ 32
    → used ≤ buf_len
    → NamesFit des
    → readdir_loop d p buf_len used cookie des w
      ≡ listed p used (take (buf_len - used) (records cookie des)) w
readdir_loop-listed d p buf_len [] used cookie w m e inside small within fits =
    let nothing = take_all (buf_len - used) (records cookie []) (omega arith) in
    readdir_loop-nil d p buf_len used cookie w
    ∙ ap₂ (λ (k : ℕ) (w' : Shim). (ok k, w')) (omega arith) (sym (store-nil w m (p + used) e))
    ∙ ap (λ t. listed p used t w) (sym nothing)
readdir_loop-listed d p buf_len (de ∷ des) used cookie w m e inside small within (fit, fits) =
    let next = u64 (cookie + 1) in
    let after = records next des in
    let rest = readdir_loop d p buf_len (name_used buf_len used de) next des in
    readdir_loop-cons d p buf_len used cookie de des w
    ∙ elim (Bool-cases (ltb (buf_len - used) 24)) [
      | inl short ↦
          round_short d p buf_len used next de rest after w m e inside small within
            (ltb→lt _ _ short)
      | inr full ↦
          let room = ltb→le _ _ full in
          elim (Bool-cases (ltb (length de.name) (buf_len - (used + 24)))) [
            | inr last ↦
                round_last d p buf_len used next de rest after w m e inside small within fit room
                  (ltb→le _ _ last)
            | inl some_left ↦
                let more = ltb→lt _ _ some_left in
                let at = name_used-past buf_len used de room more (omega arith) in
                round_next d p buf_len used next de rest after w m e inside small within room more
                  (λ m' e' same. rw at (
                    readdir_loop-listed d p buf_len des (used + 24 + length de.name) next _ m' e'
                      (omega (arith, same)) (omega (arith, same)) (omega (arith, more)) fits))
          ]
    ]
