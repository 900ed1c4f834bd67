-- ===== src/Wasi/Args.antt =====
-- `args_sizes_get`, `args_get`, `environ_sizes_get` and `environ_get` of native/shim/wasi_shim.c.
pub mod Write
pub mod Layout
use pglite_ios.Common.{ℕ, ◌+◌, ◌*◌, List, [], ◌∷◌, ◌++◌, length, Bytes, u32}
use pglite_ios.Wasi.State.{Handler, gets, skip, guest, put, put_u32, ◌>>=◌, ◌>>◌}

-- `for (...) total += (u32)strlen(...) + 1;`
unfoldable strings_size : ℕ → List Bytes → ℕ
strings_size total [] = total
strings_size total (s ∷ ss) = strings_size (u32 (total + u32 (length s + 1))) ss

-- The loop of `args_get` and of `environ_get`, at string `i` and address `off`.
unfoldable pub strings_get : ℕ → ℕ → ℕ → List Bytes → Handler
strings_get table i off [] = skip
strings_get table i off (s ∷ ss) = do
  dst ← guest off (u32 (length s + 1))
  put_u32 (u32 (table + u32 (4 * i))) off
  put dst (s ++ 0 ∷ [])
  strings_get table (i + 1) (u32 (off + u32 (length s + 1))) ss

unfoldable pub args_sizes_get : ℕ → ℕ → Handler
unfolding strings_size
args_sizes_get count_p size_p = do
  argv ← gets (λ w. w.argv)
  put_u32 count_p (u32 (length argv))
  put_u32 size_p (strings_size 0 argv)

unfoldable pub args_get : ℕ → ℕ → Handler
unfolding strings_get
args_get argv_p buf_p = do argv ← gets (λ w. w.argv); strings_get argv_p 0 buf_p argv

unfoldable pub environ_sizes_get : ℕ → ℕ → Handler
unfolding strings_size
environ_sizes_get count_p size_p = do
  envp ← gets (λ w. w.envp)
  put_u32 count_p (u32 (length envp))
  put_u32 size_p (strings_size 0 envp)

unfoldable pub environ_get : ℕ → ℕ → Handler
unfolding strings_get
environ_get env_p buf_p = do envp ← gets (λ w. w.envp); strings_get env_p 0 buf_p envp
