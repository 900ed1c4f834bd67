-- ===== src/Wasi/Args/Layout.antt =====
-- What `args_get` and `environ_get` of native/shim/wasi_shim.c lay out in the guest's memory.
use pglite_ios.Common.{
  ℕ, ◌+◌, ◌*◌, ◌^◌, ◌≤◌, ◌<◌, ◌≡◌, refl, sym, ap, ◌∙◌, ◌⊎◌, some, List, [], ◌∷◌, ◌++◌, arith,
  length, length-append, Bytes, u32, le_bytes, length-le_bytes,
}
use pglite_ios.Wasi.Memory.{Memory, peek, poke}
use pglite_ios.Common.{le_value, le_value-le_bytes_four}
use pglite_ios.Wasi.Memory.Laws.{peek-poke_disjoint, byte-poke_outside, peek-poke, peek_ext}
use pglite_ios.Wasi.State.{Shim, Res, ok, ◌>>=◌}
use pglite_ios.Wasi.Args.{strings_size, strings_get, args_get, environ_get}
use pglite_ios.Wasi.Args.Write.{total, with_mem, write_strings, strings_get-write_strings}

-- The address is neither in the table nor among the strings.
abbrev pub Outside : ℕ → ℕ → ℕ → List Bytes → Type 0
Outside i table off ss =
    ((i < table) ⊎ (table + 4 * length ss ≤ i)) × ((i < off) ⊎ (off + total ss ≤ i))

byte-write_strings :
    (m : Memory) (table off : ℕ) (ss : List Bytes) (i : ℕ)
    → Outside i table off ss
    → (write_strings m table off ss).byte i ≡ m.byte i
unfolding write_strings
byte-write_strings m table off [] i out = refl
byte-write_strings m table off (s ∷ ss) i out =
    let text = s ++ 0 ∷ [] in
    let n = length-append s (0 ∷ []) in
    let m1 = poke m table (le_bytes 4 off) in
    byte-write_strings (poke m1 off text) (table + 4) (off + (length s + 1)) ss i
      (ground arith, ground arith)
    ∙ byte-poke_outside m1 off text i (ground arith)
    ∙ byte-poke_outside m table (le_bytes 4 off) i (ground (arith, length-le_bytes 4 off))

-- The pointer in the table is the address of the string, and the string stands there with its
-- NUL; and so on for the others.
abbrev pub Laid : Memory → ℕ → ℕ → List Bytes → Type 0
Laid m table off [] = Unit {0}
Laid m table off (s ∷ ss) =
    (le_value (peek m table 4) ≡ off)
    × (peek m off (length s + 1) ≡ s ++ 0 ∷ [])
    × Laid m (table + 4) (off + (length s + 1)) ss

abbrev pub Apart : ℕ → ℕ → List Bytes → Type 0
Apart table off ss = (table + 4 * length ss ≤ off) ⊎ (off + total ss ≤ table)

write_strings-Laid :
    (m : Memory) (table off : ℕ) (ss : List Bytes)
    → Apart table off ss
    → off + total ss < 2 ^ 32
    → Laid (write_strings m table off ss) table off ss
unfolding write_strings
write_strings-Laid m table off [] apart small = tt
write_strings-Laid m table off (s ∷ ss) apart small =
    let text = s ++ 0 ∷ [] in
    let n = length-append s (0 ∷ []) in
    let m1 = poke m table (le_bytes 4 off) in
    let m2 = poke m1 off text in
    let next = off + (length s + 1) in
    let m3 = write_strings m2 (table + 4) next ss in
    let pointer : peek m3 table 4 ≡ le_bytes 4 off =
      peek_ext m3 m2 4 table
        (λ i l r. byte-write_strings m2 (table + 4) next ss i (ground arith, ground arith))
      ∙ peek-poke_disjoint m1 off text table 4 (ground arith)
      ∙ ap (peek m1 table) (sym (length-le_bytes 4 off))
      ∙ peek-poke m table (le_bytes 4 off) in
    let string : peek m3 off (length s + 1) ≡ text =
      peek_ext m3 m2 (length s + 1) off
        (λ i l r. byte-write_strings m2 (table + 4) next ss i (ground arith, ground arith))
      ∙ ap (peek m2 off) (sym n)
      ∙ peek-poke m1 off text in
    (
      ap le_value pointer ∙ le_value-le_bytes_four off (omega arith),
      string,
      write_strings-Laid m2 (table + 4) next ss (ground arith) (omega arith),
    )

-- `strings_size` adds up without a wrap.
strings_size-total :
    (n : ℕ) (ss : List Bytes) → n + total ss < 2 ^ 32 → strings_size n ss ≡ n + total ss
unfolding strings_size
strings_size-total n [] small = omega arith
strings_size-total n (s ∷ ss) small =
    let step : u32 (n + u32 (length s + 1)) ≡ n + (length s + 1) = omega arith in
    ap (λ k. strings_size k ss) step
    ∙ strings_size-total (n + (length s + 1)) ss (omega arith)
    ∙ omega arith

-- What a call has done that lays `ss` out at `table` and `off`: it returned 0, the strings are
-- laid out, nothing outside the two ranges changed, and the size that the guest was told is right.
abbrev pub Filled : Shim → Memory → ℕ → ℕ → List Bytes → Res (Unit {0}) × Shim → Type 0
Filled w m table off ss r =
    (m' : Memory) × (r ≡ (ok tt, with_mem w m'))
    × Laid m' table off ss
    × ((i : ℕ) → Outside i table off ss → m'.byte i ≡ m.byte i)
    × (strings_size 0 ss ≡ total ss)

-- The two ranges lie in the memory and do not overlap.
abbrev pub HasRoom : Memory → ℕ → ℕ → List Bytes → Type 0
HasRoom m table off ss =
    (m.size < 2 ^ 32)
    × (table + 4 * length ss ≤ m.size)
    × (off + total ss ≤ m.size)
    × Apart table off ss

strings_get-Filled :
    (w : Shim) (m : Memory) (table off : ℕ) (ss : List Bytes)
    → w.mem ≡ some m
    → HasRoom m table off ss
    → Filled w m table off ss (strings_get table 0 off ss w)
strings_get-Filled w m table off ss e (size, t, o, apart) =
    let at : table + 4 * 0 ≡ table = omega arith in
    let m' = write_strings m table off ss in
    (
      m',
      strings_get-write_strings w m table 0 off ss e size (omega arith) o
          ∙ ap (λ q. (ok tt, with_mem w (write_strings m q off ss))) at,
      write_strings-Laid m table off ss apart (omega arith),
      byte-write_strings m table off ss,
      omega (arith, strings_size-total 0 ss (omega arith)),
    )

-- In a memory below 2 ^ 32 bytes, with room, in two ranges that do not overlap, for the pointers
-- and for as many bytes as `args_sizes_get` says, `args_get` returns 0 and leaves each argument
-- with its NUL at the address that the table has for it, and no other byte of the memory changed.
pub args_get-Filled :
    (w : Shim) (m : Memory) (argv_p buf_p : ℕ)
    → w.mem ≡ some m
    → HasRoom m argv_p buf_p w.argv
    → Filled w m argv_p buf_p w.argv (args_get argv_p buf_p w)
unfolding args_get ◌>>=◌
args_get-Filled w m argv_p buf_p e room = strings_get-Filled w m argv_p buf_p w.argv e room

-- In a memory below 2 ^ 32 bytes, with room, in two ranges that do not overlap, for the pointers
-- and for as many bytes as `environ_sizes_get` says, `environ_get` returns 0 and leaves each
-- variable with its NUL at the address that the table has for it, and no other byte of the memory
-- changed.
pub environ_get-Filled :
    (w : Shim) (m : Memory) (env_p buf_p : ℕ)
    → w.mem ≡ some m
    → HasRoom m env_p buf_p w.envp
    → Filled w m env_p buf_p w.envp (environ_get env_p buf_p w)
unfolding environ_get ◌>>=◌
environ_get-Filled w m env_p buf_p e room = strings_get-Filled w m env_p buf_p w.envp e room
