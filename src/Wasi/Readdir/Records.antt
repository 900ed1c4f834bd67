-- ===== src/Wasi/Readdir/Records.antt =====
-- What `fd_readdir` of native/shim/wasi_shim.c writes: the entries as records, cut to the buffer.
use pglite_ios.Common.{
  ℕ, ◌+◌, ◌-◌, ◌^◌, ◌≤◌, ◌<◌, ◌≡◌, refl, sym, ap, ◌∙◌, ◌||◌, true, false, some, List, [], ◌∷◌, ◌++◌,
  append_assoc, arith, ltb, ◌==◌, length, length-append, length-take, take, take_all,
  take-append_left, take-append_past, take-min, min, Bytes, ℤ, u32, u64,
}
use pglite_ios.Wasi.Host.{Dirent}
use pglite_ios.Wasi.Memory.{Memory}
use pglite_ios.Wasi.State.{Shim, Op, ok, store, ◌>>=◌}
use pglite_ios.Wasi.State.Stores.{gptr-some}
use pglite_ios.Wasi.Readdir.{
  dirent_head, copy_or_close, copy_name, remain, copy_name_len, name_round, head_round,
}

-- A record: the head, which has the number of the next entry, and the name.
abbrev pub record_of : ℕ → Dirent → Bytes
record_of next de = dirent_head next de ++ de.name

-- The records of the entries from number `cookie` on.
abbrev pub records : ℕ → List Dirent → Bytes
records cookie [] = []
records cookie (de ∷ des) = let next = u64 (cookie + 1) in record_of next de ++ records next des

-- `strlen` of each name fits `namlen`.
abbrev pub NamesFit : List Dirent → Type 0
NamesFit [] = Unit {0}
NamesFit (de ∷ des) = (length de.name < 2 ^ 32) × NamesFit des

pub length-dirent_head : (next : ℕ) (de : Dirent) → length (dirent_head next de) ≡ 24
unfolding dirent_head
length-dirent_head next de = refl

-- The two copies, where the ranges lie in the memory.
copy_or_close-store :
    (d : ℤ) (off : ℕ) (bs : Bytes) (w : Shim) (m : Memory)
    → w.mem ≡ some m
    → off + length bs ≤ m.size
    → copy_or_close d off bs w ≡ (ok tt, store off bs w)
unfolding copy_or_close ◌>>=◌
copy_or_close-store d off bs w m e h = rw (gptr-some w m off (length bs) e h) refl

copy_name-store :
    (d : ℤ) (off n : ℕ) (de : Dirent) (w : Shim) (m : Memory)
    → w.mem ≡ some m
    → off + n ≤ m.size
    → copy_name d off n de w ≡ (ok tt, store off (take n de.name) w)
unfolding copy_name ◌>>=◌
copy_name-store d off n de w m e h = rw (gptr-some w m off n e h) refl

-- The records cut to `r` bytes, by how much of the first one fits.
pub take-record_short :
    (r : ℕ) (head name rest : Bytes)
    → r ≤ length head
    → take r ((head ++ name) ++ rest) ≡ take r head
take-record_short r head name rest h =
    ap (take r) (append_assoc head name rest) ∙ take-append_left r head (name ++ rest) h

pub take-record_last :
    (r : ℕ) (head name rest : Bytes)
    → length head ≤ r
    → r ≤ length head + length name
    → take r ((head ++ name) ++ rest) ≡ head ++ take (min (r - length head) (length name)) name
take-record_last r head name rest h g =
    ap (take r) (append_assoc head name rest)
    ∙ take-append_past r head (name ++ rest) h
    ∙ ap (λ t. head ++ t)
        (take-append_left (r - length head) name rest (omega arith)
          ∙ sym (take-min (r - length head) name))

pub take-record_next :
    (r : ℕ) (head name rest : Bytes)
    → length head + length name ≤ r
    → take r ((head ++ name) ++ rest)
      ≡ (head ++ name) ++ take (r - (length head + length name)) rest
take-record_next r head name rest h =
    let n = length-append head name in
    take-append_past r (head ++ name) rest (omega (arith, n))
    ∙ ap (λ k. (head ++ name) ++ take (r - k) rest) n

-- A round of the loop: `r` bytes of the buffer are left before it.
module _ (d : ℤ) (p buf_len used : ℕ) (de : Dirent) (rest : Op ℕ) (w : Shim) (m : Memory)
    (e : w.mem ≡ some m) (inside : p + buf_len ≤ m.size) (small : m.size < 2 ^ 32)
    (within : used ≤ buf_len) where
  left : remain buf_len used ≡ buf_len - used
  left = omega arith

  at : u32 (p + used) ≡ p + used
  at = omega arith

  pub name_round-last :
      length de.name < 2 ^ 32
      → buf_len - used ≤ length de.name
      → name_round d p buf_len used de rest w
        ≡ (ok buf_len, store (p + used) (take (buf_len - used) de.name) w)
  unfolding name_round ◌>>=◌
  name_round-last fits last =
      let n : copy_name_len buf_len used de ≡ buf_len - used = omega arith in
      let after : u32 (used + (buf_len - used)) ≡ buf_len = omega arith in
      let test : (ltb (buf_len - used) (u32 (length de.name)) || buf_len == buf_len) ≡ true =
        ground arith in
      let copied = copy_name-store d (p + used) (buf_len - used) de w m e (omega arith) in
      rw (at, n, after, test, copied) refl

  pub name_round-next :
      length de.name < buf_len - used
      → name_round d p buf_len used de rest w ≡ rest (store (p + used) de.name w)
  unfolding name_round ◌>>=◌
  name_round-next room =
      let size = length de.name in
      let n : copy_name_len buf_len used de ≡ size = omega arith in
      let after : u32 (used + size) ≡ used + size = omega arith in
      let test : (ltb size (u32 size) || used + size == buf_len) ≡ false = ground arith in
      let copied = copy_name-store d (p + used) size de w m e (omega arith) in
      let whole = take_all size de.name (omega arith) in rw (at, n, after, test, copied, whole) refl

  pub head_round-short :
      (next : ℕ)
      → buf_len - used < 24
      → head_round d p buf_len used next de rest w
        ≡ (ok buf_len, store (p + used) (take (buf_len - used) (dirent_head next de)) w)
  unfolding head_round ◌>>=◌
  head_round-short next short =
      let r = buf_len - used in
      let bs = take r (dirent_head next de) in
      let n : min (remain buf_len used) 24 ≡ r = omega arith in
      let after : u32 (used + r) ≡ buf_len = omega arith in
      let test : ltb r 24 ≡ true = ground arith in
      let size = length-take r (dirent_head next de) in
      let copied = copy_or_close-store d (p + used) bs w m e (omega (arith, size)) in
      rw (at, n, after, test, copied) refl

  pub head_round-whole :
      (next : ℕ)
      → 24 ≤ buf_len - used
      → head_round d p buf_len used next de rest w
        ≡ name_round d p buf_len (used + 24) de rest (store (p + used) (dirent_head next de) w)
  unfolding head_round ◌>>=◌
  head_round-whole next room =
      let head = dirent_head next de in
      let n : min (remain buf_len used) 24 ≡ 24 = omega arith in
      let after : u32 (used + 24) ≡ used + 24 = omega arith in
      let size = length-dirent_head next de in
      let whole = take_all 24 head (omega (arith, size)) in
      let copied = copy_or_close-store d (p + used) head w m e (omega (arith, size)) in
      rw (at, n, after, whole, copied) refl
