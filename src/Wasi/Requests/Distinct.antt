-- ===== src/Wasi/Requests/Distinct.antt =====
-- Descriptors stay apart over any run of the guest's imports.
use pglite_ios.Common.{ℕ, ◌≡◌, ◌≢◌, inl, inr, List, [], ◌∷◌, pos, arith}
use pglite_ios.Wasi.Host.{Call, got}
use pglite_ios.Wasi.State.{Shim, store, ◌>>=◌}
use pglite_ios.Wasi.FdTable.Laws.{IsUsed}
use pglite_ios.Wasi.Files.{fd_fdstat_set_flags}
use pglite_ios.Wasi.Files.Laws.{holds, IsDistinct, fd_close-IsDistinct, fd_renumber-IsDistinct}
use pglite_ios.Wasi.Paths.{path_open}
use pglite_ios.Wasi.Paths.Laws.{IsFilled, path_open-IsFilled}
use pglite_ios.Wasi.Requests.{Request, handle, serve}
use pglite_ios.Wasi.Requests.Stable.{handle-Keeps}
use pglite_ios.Wasi.Requests.Calls.{IsStable, neutral, fd_readdir-Keeps}

IsDistinct-IsStable : IsStable IsDistinct
unfolding store
IsDistinct-IsStable = record {
  call = λ c w d. record { apart = d.apart };
  memory = λ p bs w d. record { apart = d.apart };
  exit = λ code w d. record { apart = d.apart };
}

-- POSIX: a descriptor that `open` returns is not open already, so no slot holds it.
abbrev pub GivesFresh : Shim → Type 0
GivesFresh w =
    (c : Call) (n : ℕ) → w.os.fd_of w.calls c ≡ got n → (j : ℕ) → IsUsed w j → holds w j ≢ pos n

fd_fdstat_set_flags-IsDistinct :
    (w : Shim) (fd flags : ℕ) → IsDistinct w → IsDistinct (fd_fdstat_set_flags fd flags w).1
unfolding fd_fdstat_set_flags ◌>>=◌
fd_fdstat_set_flags-IsDistinct w fd flags d = record {
  apart = λ i j ne p q. ground (arith, d.apart i j);
}

IsDistinct-same : {v w : Shim} → w.fds ≡ v.fds → w.log_fd ≡ v.log_fd → IsDistinct v → IsDistinct w
IsDistinct-same {v} {w} e l d =
    let at : (i : ℕ) → w.fds i ≡ v.fds i = λ i k. e k i in
    record { apart = λ i j ne p q. ground (arith, d.apart i j, at i, at j) }

IsDistinct-filled : {w w' : Shim} → GivesFresh w → IsFilled w w' → IsDistinct w → IsDistinct w'
IsDistinct-filled {w} {w'} fresh f d =
    let new = fresh f.call f.host_fd f.given in
    record {
      apart = λ i j ne p q. ground (arith, d.apart i j, new i, new j, f.others i, f.others j);
    }

path_open-IsDistinct :
    (w : Shim) (a b c d e f g h i : ℕ)
    → GivesFresh w
    → IsDistinct w
    → IsDistinct (path_open a b c d e f g h i w).1
path_open-IsDistinct w a b c d e f g h i fresh dist =
    elim (path_open-IsFilled w a b c d e f g h i) [
      | inl (same, log) ↦ IsDistinct-same same log dist
      | inr filled ↦ IsDistinct-filled fresh filled dist
    ]

handle-IsDistinct :
    (r : Request) (w : Shim) → GivesFresh w → IsDistinct w → IsDistinct (handle r w).1
unfolding handle
handle-IsDistinct (Request.fd_close fd) w fresh d = fd_close-IsDistinct w fd d
handle-IsDistinct (Request.fd_renumber from to) w fresh d = fd_renumber-IsDistinct w from to d
handle-IsDistinct (Request.fd_fdstat_set_flags fd flags) w fresh d =
    fd_fdstat_set_flags-IsDistinct w fd flags d
handle-IsDistinct (Request.path_open a b c d e f g h i) w fresh dist =
    path_open-IsDistinct w a b c d e f g h i fresh dist
handle-IsDistinct (Request.fd_readdir a b c e f) w fresh d =
    (fd_readdir-Keeps IsDistinct-IsStable a b c e f).at w d
handle-IsDistinct r w fresh d = (handle-Keeps (neutral IsDistinct-IsStable) r (λ h. h)).at w d

-- The operating system gives fresh descriptors all through a run.
abbrev pub RunsFresh : List Request → Shim → Type 0
RunsFresh [] w = Unit {0}
RunsFresh (r ∷ rs) w = GivesFresh w × RunsFresh rs (handle r w).1

-- Whatever imports the guest calls, no host descriptor that the shim may close comes to stand in
-- two slots of the table, where none did before and the system's new descriptors are fresh.
pub serve-IsDistinct :
    (rs : List Request) (w : Shim) → RunsFresh rs w → IsDistinct w → IsDistinct (serve rs w)
unfolding serve
serve-IsDistinct [] w fresh d = d
serve-IsDistinct (r ∷ rs) w fresh d =
    serve-IsDistinct rs (handle r w).1 fresh.1 (handle-IsDistinct r w fresh.0 d)
