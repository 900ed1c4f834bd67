-- ===== src/Wasi/Readdir/Releases.antt =====
-- `fd_readdir` of native/shim/wasi_shim.c closes the directory that it opened, however it ends.
use pglite_ios.Common.{
  ℕ, ◌≡◌, Bool, true, false, Option, Option-cases, inl, inr, le_bytes, none, some, List, [], ◌∷◌,
  Bytes, ℤ, pos, if◌then◌else◌, drop, length, ◌==◌,
}
use pglite_ios.Wasi.Host.{Dirent, got, dup, fdopendir, closedir}
use pglite_ios.Wasi.State.{
  FdEntry, Shim, Res, Op, pure, ok, err, escaped, aborted, and_then, gptr, put_u32, gwrite_u32,
  store, ◌>>=◌,
}
use pglite_ios.Wasi.State.Steps.{called}
use pglite_ios.Wasi.FdTable.{fd_get}
use pglite_ios.Wasi.Readdir.{
  copied, copied_name, copy_or_close, copy_name, readdir_loop, fd_readdir,
}
use pglite_ios.Wasi.Readdir.Steps.{finish, fd_readdir-opened}

-- `P` holds while the directory `d` is open, and `Q` once it is closed.
pub record Shuts (d : ℤ) (P Q : Shim → Type 0) : Type 0 where
  pub memory : (p : ℕ) (bs : Bytes) (w : Shim) → P w → P (store p bs w)
  pub memory_after : (p : ℕ) (bs : Bytes) (w : Shim) → Q w → Q (store p bs w)
  pub close : (w : Shim) → P w → Q (called (closedir d) w)

-- A step that returns has left the directory open, and one that fails has closed it.
abbrev Released : {A : Type 0} → (Shim → Type 0) → (Shim → Type 0) → Res A × Shim → Type 0
Released P Q (ok a, w) = P w
Released P Q (err e, w) = Q w
Released P Q (escaped, w) = ⊥
Released P Q (aborted, w) = ⊥

record Releases {A : Type 0} (P Q : Shim → Type 0) (m : Op A) : Type 0 where
  rule : (w : Shim) → P w → Released P Q (m w)

module _ {A B : Type 0} {P Q : Shim → Type 0} where
  Released-then :
      (r : Res A × Shim) (k : A → Op B)
      → Released P Q r
      → ((a : A) → Releases P Q (k a))
      → Released P Q (and_then r k)
  Released-then (ok a, w) k h next = (next a).rule w h
  Released-then (err e, w) k h next = h
  Released-then (escaped, w) k h next = h
  Released-then (aborted, w) k h next = h

  Releases-bind :
      {m : Op A} {k : A → Op B}
      → Releases P Q m
      → ((a : A) → Releases P Q (k a))
      → Releases P Q (m >>= k)
  unfolding ◌>>=◌
  Releases-bind {m} {k} h next = record { rule = λ w p. Released-then (m w) k (h.rule w p) next }

module _ {A : Type 0} {P Q : Shim → Type 0} where
  Releases-if :
      (b : Bool) {m m' : Op A}
      → Releases P Q m
      → Releases P Q m'
      → Releases P Q (if b then m else m')
  Releases-if true h g = h
  Releases-if false h g = g

  pure-Releases : (a : A) → Releases P Q (pure a)
  unfolding ◌>>=◌
  pure-Releases a = record { rule = λ w p. p }

module _ {d : ℤ} {P Q : Shim → Type 0} (s : Shuts d P Q) where
  copied-Releases : (bs : Bytes) (o : Option ℕ) → Releases P Q (copied d bs o)
  unfolding ◌>>=◌
  copied-Releases bs none = record { rule = s.close }
  copied-Releases bs (some p) = record { rule = s.memory p bs }

  copied_name-Releases : (k : ℕ) (bs : Bytes) (o : Option ℕ) → Releases P Q (copied_name d k bs o)
  unfolding ◌>>=◌
  copied_name-Releases k bs none =
      Releases-if (k == 0) (record { rule = λ w p. p }) (record { rule = s.close })
  copied_name-Releases k bs (some p) = record { rule = s.memory p _ }

  copy_or_close-Releases : (off : ℕ) (bs : Bytes) → Releases P Q (copy_or_close d off bs)
  unfolding copy_or_close
  copy_or_close-Releases off bs = record {
    rule = λ w. (copied-Releases bs (gptr w off (length bs))).rule w;
  }

  copy_name-Releases : (off k : ℕ) (de : Dirent) → Releases P Q (copy_name d off k de)
  unfolding copy_name
  copy_name-Releases off k de = record {
    rule = λ w. (copied_name-Releases k de.name (gptr w off k)).rule w;
  }

  readdir_loop-Releases :
      (buf_p buf_len : ℕ) (des : List Dirent) (used cookie : ℕ)
      → Releases P Q (readdir_loop d buf_p buf_len used cookie des)
  unfolding readdir_loop
  readdir_loop-Releases buf_p buf_len [] used cookie = pure-Releases used
  readdir_loop-Releases buf_p buf_len (de ∷ des) used cookie =
      Releases-bind (copy_or_close-Releases _ _) (λ _. Releases-if _ (pure-Releases _) (
        Releases-bind (copy_name-Releases _ _ de)
          (λ _. Releases-if _ (pure-Releases _) (readdir_loop-Releases buf_p buf_len des _ _))))

module _ {d : ℕ} {P Q : Shim → Type 0} (s : Shuts (pos d) P Q) where
  put_u32-after : (p v : ℕ) (w : Shim) → Q w → Q (put_u32 p v w).1
  unfolding put_u32 gwrite_u32
  put_u32-after p v w q = elim (Option-cases (gptr w p 4)) [
    | inl e ↦ rw e q
    | inr (x, e) ↦ rw e (s.memory_after x (le_bytes 4 v) w q)
  ]

  finished :
      (used_p : ℕ) (r : Res ℕ × Shim) → Released P Q r → Q (and_then r (finish used_p (pos d))).1
  unfolding finish ◌>>=◌
  finished used_p (ok used, w) h = put_u32-after used_p used _ (s.close w h)
  finished used_p (err e, w) h = h
  finished used_p (escaped, w) h = absurd h
  finished used_p (aborted, w) h = absurd h

  loop_then_finish :
      (used_p : ℕ) (m : Op ℕ) (w : Shim)
      → Released P Q (m w)
      → Q ((m >>= finish used_p (pos d)) w).1
  unfolding ◌>>=◌
  loop_then_finish used_p m w h = finished used_p (m w) h

  -- Once the directory is open.
  pub fd_readdir-shuts :
      (w : Shim) (fd buf_p buf_len cookie used_p : ℕ) {e : FdEntry} {des : List Dirent}
      → fd_get w fd ≡ some e
      → w.os.fd_of w.calls (dup e.host_fd) ≡ got d
      → w.os.entries_of (dup e.host_fd ∷ w.calls) (fdopendir (pos d)) ≡ got des
      → P (called (fdopendir (pos d)) (called (dup e.host_fd) w))
      → Q (fd_readdir fd buf_p buf_len cookie used_p w).1
  fd_readdir-shuts w fd buf_p buf_len cookie used_p {e = e} {des = des} f g h p =
      let w2 = called (fdopendir (pos d)) (called (dup e.host_fd) w) in
      let loop = readdir_loop (pos d) buf_p buf_len 0 cookie (drop cookie des) in
      rw (fd_readdir-opened w fd buf_p buf_len cookie used_p d f g h) (
        loop_then_finish used_p loop w2
          ((readdir_loop-Releases s buf_p buf_len (drop cookie des) 0 cookie).rule w2 p))
