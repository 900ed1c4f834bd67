-- ===== src/Wasi/Args/Write.antt =====
-- The loop of `args_get` and `environ_get` of native/shim/wasi_shim.c as writes to the memory.
use pglite_ios.Common.{
  ℕ, ◌+◌, ◌*◌, ◌^◌, ◌≤◌, ◌<◌, ◌≡◌, refl, ap, ◌∙◌, Option, some, List, [], ◌∷◌, ◌++◌, arith, length,
  Bytes, u32, le_bytes,
}
use pglite_ios.Wasi.Memory.{Memory, poke}
use pglite_ios.Wasi.State.{Shim, Op, ok, gptr, gwrite_u32, store, guest, put, put_u32, ◌>>=◌, ◌>>◌}
use pglite_ios.Wasi.Code
use pglite_ios.Wasi.State.Stores.{gptr-some}
use pglite_ios.Wasi.State.Steps.{or_fail-some, ok-step, modify-step}
use pglite_ios.Wasi.Args.{strings_get}

-- The bytes that the strings take, each with its NUL.
abbrev pub total : List Bytes → ℕ
total [] = 0
total (s ∷ ss) = length s + 1 + total ss

abbrev pub with_mem : Shim → Memory → Shim
with_mem w m = record w { mem = some m }

-- The pointers and the strings that a list of strings leaves in a memory.
unfoldable pub write_strings : Memory → ℕ → ℕ → List Bytes → Memory
write_strings m table off [] = m
write_strings m table off (s ∷ ss) =
    write_strings (poke (poke m table (le_bytes 4 off)) off (s ++ 0 ∷ [])) (table + 4)
      (off + (length s + 1)) ss

put_u32-stored :
    (w : Shim) (m : Memory) (p v : ℕ)
    → w.mem ≡ some m
    → p + 4 ≤ m.size
    → put_u32 p v w ≡ (ok tt, with_mem w (poke m p (le_bytes 4 v)))
unfolding put_u32 gwrite_u32 store
put_u32-stored w m p v e h = rw (gptr-some w m p 4 e h, e) refl

-- A pointer and a string, where both ranges lie in the memory.
string_step :
    (w : Shim) (m : Memory) (p v off n : ℕ) (bs : Bytes) (k : Op (Unit {0}))
    → w.mem ≡ some m
    → p + 4 ≤ m.size
    → off + n ≤ m.size
    → (do dst ← guest off n; put_u32 p v; put dst bs; k) w
      ≡ k (with_mem w (poke (poke m p (le_bytes 4 v)) off bs))
unfolding store
string_step w m p v off n bs k e h g =
    let w' = with_mem w (poke m p (le_bytes 4 v)) in
    or_fail-some (λ dst. do put_u32 p v; put dst bs; k) w Code.fault (λ w. gptr w off n) off
      (gptr-some w m off n e g)
    ∙ ok-step (put_u32 p v) (λ _. do put off bs; k) w w' tt (put_u32-stored w m p v e h)
    ∙ modify-step (λ _. k) w' (store off bs)

u32_small : (n : ℕ) → n < 2 ^ 32 → u32 n ≡ n
u32_small n h = omega arith

-- One round of the loop.
strings_get-cons :
    (w : Shim) (m : Memory) (table i off : ℕ) (s : Bytes) (ss : List Bytes)
    → w.mem ≡ some m
    → m.size < 2 ^ 32
    → table + 4 * i + 4 ≤ m.size
    → off + (length s + 1) ≤ m.size
    → strings_get table i off (s ∷ ss) w
      ≡ strings_get table
          (i + 1)
          (off + (length s + 1))
          ss
          (with_mem w (poke (poke m (table + 4 * i) (le_bytes 4 off)) off (s ++ 0 ∷ [])))
unfolding strings_get
strings_get-cons w m table i off s ss e size t o =
    let p : u32 (table + u32 (4 * i)) ≡ table + 4 * i = omega arith in
    let n : u32 (length s + 1) ≡ length s + 1 = omega arith in
    let next : u32 (off + u32 (length s + 1)) ≡ off + (length s + 1) = omega arith in
    rw (p, next, n) (string_step w m (table + 4 * i) off off (length s + 1) (s ++ 0 ∷ []) _ e t o)

-- The loop writes all pointers and strings, where they lie in the memory, and returns.
pub strings_get-write_strings :
    (w : Shim) (m : Memory) (table i off : ℕ) (ss : List Bytes)
    → w.mem ≡ some m
    → m.size < 2 ^ 32
    → table + 4 * (i + length ss) ≤ m.size
    → off + total ss ≤ m.size
    → strings_get table i off ss w ≡ (ok tt, with_mem w (write_strings m (table + 4 * i) off ss))
unfolding write_strings poke
strings_get-write_strings w m table i off [] e size t o =
    unfold strings_get ◌>>=◌ in ap (λ (o : Option Memory). (ok tt, record w { mem = o })) e
strings_get-write_strings w m table i off (s ∷ ss) e size t o =
    let m' = poke (poke m (table + 4 * i) (le_bytes 4 off)) off (s ++ 0 ∷ []) in
    let at : table + 4 * (i + 1) ≡ table + 4 * i + 4 = omega arith in
    strings_get-cons w m table i off s ss e size (omega arith) (omega arith)
    ∙ strings_get-write_strings (with_mem w m') m' table (i + 1) (off + (length s + 1)) ss refl size
        (omega arith) (omega arith)
    ∙ ap (λ q. (ok tt, with_mem w (write_strings m' q (off + (length s + 1)) ss))) at
