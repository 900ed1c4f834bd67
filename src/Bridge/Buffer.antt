-- ===== src/Bridge/Buffer.antt =====
-- The growing reply buffer of native/bridge/pglite_bridge.c: `append_bytes` and `read_and_remove`.
pub mod Laws
use pglite_ios.Common.{
  ℕ, zero, suc, ◌+◌, ◌*◌, Bool, Option, none, some, [], ◌++◌, ltb, ◌==◌, if◌then◌else◌, length,
  Bytes, pos, u64, take,
}
use pglite_ios.Wasi.Host.{Stat, Sys, got, failed, open_path, fstat, close, read_fd, unlink, rdonly}
use pglite_ios.Wasi.Init.{no_flags}
use pglite_ios.Bridge.Db.{Db, Cmd, pure, gets, ask, tell_os, ◌>>=◌, ◌>>◌}

-- `buf`, `cap` and `used`: the bytes are the first `used` ones, and `buf` is NULL while `cap` is 0.
pub record Buf : Type 0 where
  pub bytes : Bytes
  pub cap : ℕ

abbrev pub empty_buf : Buf
empty_buf = record { bytes = []; cap = 0 }

-- `while (ncap < need) ncap *= 2;`
unfoldable double_until : ℕ → ℕ → ℕ → Option ℕ
double_until zero ncap need = none
double_until (suc k) ncap need =
    let next = double_until k (u64 (ncap * 2)) need in if ltb ncap need then next else some ncap

-- From 4096 a size_t doubles 51 times before it wraps, so 65 rounds are all that can end.
pub grown_cap : ℕ → ℕ → Option ℕ
unfolding double_until
grown_cap cap need = double_until 65 (if cap == 0 then 4096 else cap) need

-- `if (need > *cap_io) { ... realloc ... }`; `none` is a failed allocation,
-- or a doubling that never ends, which takes a need above 2 ^ 63.
unfoldable pub reserve : (ℕ → Bool) → ℕ → Buf → Option Buf
unfolding grown_cap
reserve alloc_ok need b =
    if ltb b.cap need
    then elim (grown_cap b.cap need) [
      | none ↦ none
      | some ncap ↦ if alloc_ok ncap then some (record b { cap = ncap }) else none
    ]
    else some b

-- `none` is -1.
unfoldable pub append_bytes : (ℕ → Bool) → Buf → Bytes → Option Buf
unfolding reserve
append_bytes alloc_ok b src = elim (reserve alloc_ok (length b.bytes + length src) b) [
  | none ↦ none
  | some b' ↦ some (record b' { bytes = b.bytes ++ src })
]

-- What `read_and_remove` leaves: the buffer, which may have grown, and the bytes read, or -1.
abbrev pub FileRead : Type 0
FileRead = Buf × Option Bytes

-- Once there is room: read, close, unlink.
unfoldable pub read_open : Bytes → ℕ → Stat → Buf → Cmd FileRead
read_open path fd st b = do
  r ← ask (λ os. os.bytes_of) (read_fd (pos fd) st.size)
  tell_os (close (pos fd))
  tell_os (unlink path)
  pure (b, elim r [ got bs ↦ some (take st.size bs) | failed _ ↦ none ])

unfoldable pub read_sized : Bytes → ℕ → Buf → Sys Stat → Cmd FileRead
unfolding read_open reserve
read_sized path fd b (failed _) = do tell_os (close (pos fd)); pure (b, none)
read_sized path fd b (got st) = do
  alloc_ok ← gets (λ db. db.alloc_ok)
  elim (reserve alloc_ok (length b.bytes + st.size) b) [
    | none ↦ (do tell_os (close (pos fd)); pure (b, none))
    | some b' ↦ read_open path fd st b'
  ]

unfoldable pub read_opened : Bytes → Buf → Sys ℕ → Cmd FileRead
unfolding read_sized
read_opened path b (failed _) = pure (b, none)
read_opened path b (got fd) = ask (λ os. os.stat_of) (fstat (pos fd)) >>= read_sized path fd b

unfoldable pub read_and_remove : Bytes → Buf → Cmd FileRead
unfolding read_opened
read_and_remove path b =
    ask (λ os. os.fd_of) (open_path path (no_flags rdonly)) >>= read_opened path b
