-- ===== src/Wasi/Requests/Framed.antt =====
-- What none of the 36 imports of native/shim/wasi_shim.c changes.
use pglite_ios.Common.{ℕ, ◌≡◌, ◌∙◌, Option, none, some, List, [], ◌∷◌, Bytes, arith}
use pglite_ios.Wasi.Memory.{Memory, poke}
use pglite_ios.Wasi.State.{FdEntry, Shim, modify, store}
use pglite_ios.Wasi.Keeps.{Keeps}
use pglite_ios.Wasi.FdTable.{fd_set_entry}
use pglite_ios.Wasi.Files.{fd_close, fd_renumber, fd_fdstat_set_flags}
use pglite_ios.Wasi.Paths.{path_open}
use pglite_ios.Wasi.Requests.Stable.{handle-Keeps}
use pglite_ios.Wasi.Requests.Calls.{IsStable, neutral, fd_readdir-Keeps, stable_rules}
use pglite_ios.Wasi.Requests.{Request, handle, serve}

abbrev pub size_of : Option Memory → Option ℕ
size_of none = none
size_of (some m) = some m.size

-- The descriptor table, the memory's bytes, the history and the exit status may differ; the rest
-- of the shim is the same.
pub record Framed (v w : Shim) : Type 0 where
  pub size : size_of w.mem ≡ size_of v.mem
  pub argv : w.argv ≡ v.argv
  pub envp : w.envp ≡ v.envp
  pub preopens : w.preopens ≡ v.preopens
  pub n_preopens : w.n_preopens ≡ v.n_preopens
  pub log_fd : w.log_fd ≡ v.log_fd
  pub exit_jmp_armed : w.exit_jmp_armed ≡ v.exit_jmp_armed
  pub os : w.os ≡ v.os

store-Framed : {v : Shim} (p : ℕ) (bs : Bytes) (w : Shim) → Framed v w → Framed v (store p bs w)
unfolding store poke
store-Framed p bs w h = ground arith

Framed-IsStable : (v : Shim) → IsStable (Framed v)
Framed-IsStable v = record {
  call = λ c w h. ground arith;
  memory = store-Framed;
  exit = λ code w h. ground arith;
}

module _ {v : Shim} where
  Keeps-fds : (g : Shim → ℕ → FdEntry) → Keeps (Framed v) (modify (λ w. record w { fds = g w }))
  unfolding modify
  Keeps-fds g = record { at = λ w h. ground arith }

ruleset framed_rules = (stable_rules, Keeps-fds)

all_handlers-Keeps : {v : Shim} → IsStable (Framed v) → (r : Request) → Keeps (Framed v) (handle r)
unfolding handle fd_close fd_renumber fd_fdstat_set_flags path_open fd_set_entry
all_handlers-Keeps s (Request.fd_close fd) = search framed_rules depth 20
all_handlers-Keeps s (Request.fd_renumber from to) = search framed_rules depth 20
all_handlers-Keeps s (Request.fd_fdstat_set_flags fd flags) = search framed_rules depth 20
all_handlers-Keeps s (Request.path_open a b c d e f g h i) = search framed_rules depth 20
all_handlers-Keeps s (Request.fd_readdir a b c d e) = fd_readdir-Keeps s a b c d e
all_handlers-Keeps s r = handle-Keeps (neutral s) r (λ h. h)

pub handle-Framed : (r : Request) (w : Shim) → Framed w (handle r w).1
handle-Framed r w = (all_handlers-Keeps (Framed-IsStable w) r).at w (ground arith)

Framed-trans : {u v w : Shim} → Framed u v → Framed v w → Framed u w
Framed-trans p q = record {
  size = q.size ∙ p.size;
  argv = q.argv ∙ p.argv;
  envp = q.envp ∙ p.envp;
  preopens = q.preopens ∙ p.preopens;
  n_preopens = q.n_preopens ∙ p.n_preopens;
  log_fd = q.log_fd ∙ p.log_fd;
  exit_jmp_armed = q.exit_jmp_armed ∙ p.exit_jmp_armed;
  os = q.os ∙ p.os;
}

-- However many imports the guest calls, in whatever order and with whatever arguments, the
-- memory's size, the arguments, the environment, the preopened directories, the log, the armed
-- jump and the operating system stay as they were.
pub serve-Framed : (rs : List Request) (w : Shim) → Framed w (serve rs w)
unfolding serve
serve-Framed [] w = ground arith
serve-Framed (r ∷ rs) w = Framed-trans (handle-Framed r w) (serve-Framed rs (handle r w).1)
