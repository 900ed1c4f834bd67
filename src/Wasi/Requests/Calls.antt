-- ===== src/Wasi/Requests/Calls.antt =====
-- A predicate that all calls of the operating system leave alone is kept by `fd_readdir` of
-- native/shim/wasi_shim.c too.
use pglite_ios.Common.{ℕ, true, List, [], ◌∷◌, ℤ, Option, none, some, Bytes, length}
use pglite_ios.Wasi.Host.{Call, Os, History, Sys, got, failed, Dirent}
use pglite_ios.Wasi.State.{Shim, ask, tell_os, put_u32, gptr, store}
use pglite_ios.Wasi.Keeps.{
  Keeps, Keeps-pure, Keeps-fail, Keeps-skip, Keeps-if, Keeps-bind, Keeps-or_fail, keeps_rules,
}
use pglite_ios.Wasi.Readdir.{
  copied, copied_name, copy_or_close, copy_name, readdir_loop, opened_dir, fd_readdir,
}
use pglite_ios.Wasi.Requests.Stable.{IsNeutral, Keeps-put, Keeps-put_u32}

pub record IsStable (P : Shim → Type 0) : Type 0 where
  pub call : (c : Call) (w : Shim) → P w → P (record w { calls = c ∷ w.calls })
  pub memory : (p : ℕ) (bs : Bytes) (w : Shim) → P w → P (store p bs w)
  pub exit : (code : ℕ) (w : Shim) → P w → P (record w { exit_code = code; exited = true })

module _ {P : Shim → Type 0} (s : IsStable P) where
  pub neutral : IsNeutral P
  neutral = record { call = λ c n. s.call c; memory = s.memory; exit = s.exit }

  pub ask-Keeps : {A : Type 0} (f : Os → History → Call → Sys A) (c : Call) → Keeps P (ask f c)
  unfolding ask
  ask-Keeps f c = record { at = s.call c }

  pub tell-Keeps : (c : Call) → Keeps P (tell_os c)
  unfolding tell_os
  tell-Keeps c = record { at = s.call c }

  copied-Keeps : (d : ℤ) (bs : Bytes) (o : Option ℕ) → Keeps P (copied d bs o)
  copied-Keeps d bs none = Keeps-bind (tell-Keeps _) λ _. Keeps-fail _
  copied-Keeps d bs (some dst) = Keeps-put (neutral) dst bs

  copy_or_close-Keeps : (d : ℤ) (off : ℕ) (bs : Bytes) → Keeps P (copy_or_close d off bs)
  unfolding copy_or_close
  copy_or_close-Keeps d off bs = record {
    at = λ w. (copied-Keeps d bs (gptr w off (length bs))).at w;
  }

  copied_name-Keeps :
      (d : ℤ) (n : ℕ) (name : Bytes) (o : Option ℕ) → Keeps P (copied_name d n name o)
  copied_name-Keeps d n name none =
      Keeps-if _ Keeps-skip (Keeps-bind (tell-Keeps _) λ _. Keeps-fail _)
  copied_name-Keeps d n name (some dst) = Keeps-put (neutral) dst _

  copy_name-Keeps : (d : ℤ) (off n : ℕ) (de : Dirent) → Keeps P (copy_name d off n de)
  unfolding copy_name
  copy_name-Keeps d off n de = record {
    at = λ w. (copied_name-Keeps d n de.name (gptr w off n)).at w;
  }

  readdir_loop-Keeps :
      (d : ℤ) (buf_p buf_len : ℕ) (des : List Dirent) (used cookie : ℕ)
      → Keeps P (readdir_loop d buf_p buf_len used cookie des)
  unfolding readdir_loop
  readdir_loop-Keeps d buf_p buf_len [] used cookie = Keeps-pure _
  readdir_loop-Keeps d buf_p buf_len (de ∷ des) used cookie =
      Keeps-bind (copy_or_close-Keeps _ _ _) λ _. Keeps-if _ (Keeps-pure _) (
        Keeps-bind (copy_name-Keeps _ _ _ de)
          λ _. Keeps-if _ (Keeps-pure _) (readdir_loop-Keeps d buf_p buf_len des _ _))

  opened_dir-Keeps : (d : ℤ) (r : Sys (List Dirent)) → Keeps P (opened_dir d r)
  opened_dir-Keeps d (got des) = Keeps-pure des
  opened_dir-Keeps d (failed e) = Keeps-bind (tell-Keeps _) λ _. Keeps-fail _

  pub put-Keeps : (p x : ℕ) → Keeps P (put_u32 p x)
  put-Keeps = Keeps-put_u32 neutral

pub ruleset stable_rules = (keeps_rules, ask-Keeps, tell-Keeps, put-Keeps)

module _ {P : Shim → Type 0} (s : IsStable P) where
  pub fd_readdir-Keeps :
      (fd buf_p buf_len cookie used_p : ℕ) → Keeps P (fd_readdir fd buf_p buf_len cookie used_p)
  unfolding fd_readdir
  fd_readdir-Keeps fd buf_p buf_len cookie used_p =
      search (stable_rules, opened_dir-Keeps, readdir_loop-Keeps) depth 20
