-- ===== src/Bridge/Tests.antt =====
-- Runs of the bridge with small guests, and the theorems about it at concrete inputs.
use pglite_ios.Common.{
  ℕ, Bool, true, false, some, List, [], ◌∷◌, arith, ltb, codes, minus_one, if◌then◌else◌, replicate,
}
use pglite_ios.Wasi.Host.{Os, got, failed}
use pglite_ios.Wasi.Errno.{Errno}
use pglite_ios.Wasi.Memory.{Memory}
use pglite_ios.Wasi.State.{Shim}
use pglite_ios.Bridge.Db.{
  Db, Export, Guest, Outcome, returned, trapped, interactive_one, wasipg_flush, interactive_read,
  get_channel,
}
use pglite_ios.Bridge.Buffer.{Buf, empty_buf, append_bytes}
use pglite_ios.Bridge.Buffer.Laws.{Appended, append_bytes-Appended}
use pglite_ios.Bridge.Pump.{pump_round, pump}
use pglite_ios.Bridge.Pump.Sources.{Filled, after}
use pglite_ios.Bridge.Pump.Spills.{pump_round-Filled}
use pglite_ios.Bridge.Pump.Ends.{IfDone, EndsWith, Extends, StaysWithin, pump-EndsWith}

abbrev pub silent_os : Os
silent_os = record {
  unit_of = λ h c. got tt;
  fd_of = λ h c. failed Errno.enoent;
  count_of = λ h c. got 0;
  bytes_of = λ h c. got [];
  time_of = λ h c. failed Errno.enoent;
  stat_of = λ h c. failed Errno.enoent;
  random_of = λ h i. 7;
  entries_of = λ h c. got [];
}

abbrev memory : Memory
memory = record { size = 4096; byte = λ i. if ltb i 2 then b'Z' else if ltb i 5 then 0 else 5 }

abbrev pub shim : Shim
shim = record {
  mem = some memory;
  argv = [];
  envp = [];
  preopens = λ i. record { guest_path = []; host_path = []; host_fd = minus_one };
  n_preopens = 0;
  fds = λ i. record { host_fd = minus_one; filetype = 0; fdflags = 0; preopen = minus_one };
  log_fd = minus_one;
  exit_jmp_armed = false;
  exit_code = 0;
  exited = false;
  os = silent_os;
  calls = [];
}

-- Has the reply been asked for?
abbrev seen_read : List Export → Bool
seen_read [] = false
seen_read (interactive_read ∷ h) = true
seen_read (_ ∷ h) = seen_read h

abbrev answer : ℕ → List Export → Export → Outcome
answer n h interactive_read = returned (if seen_read h then 0 else n)
answer n h get_channel = returned 1
answer n h _ = returned 0

-- A guest that has a reply of `n` bytes, once, and one that traps.
abbrev talker : ℕ → Guest
talker n = record { run = λ h c w. (answer n h c, w); memory = memory }

abbrev broken : Guest
broken = record { run = λ h c w. (trapped, w); memory = memory }

abbrev pub with_guest : Guest → Db
with_guest g = record {
  wasi = shim;
  guest = g;
  exports = [];
  alloc_ok = λ n. ltb n 10000;
  md5 = λ bs. replicate 16 171;
  instantiated = true;
  root = codes "/r";
  io_in = codes "/r/in";
  io_out = codes "/r/out";
  dead = false;
}

abbrev two_bytes : Buf
two_bytes = record { bytes = 1 ∷ 2 ∷ []; cap = 4096 }

append_bytes-Appended_example :
    Appended
      (λ n. ltb n 10000)
      two_bytes
      (3 ∷ 4 ∷ [])
      (append_bytes (λ n. ltb n 10000) two_bytes (3 ∷ 4 ∷ []))
append_bytes-Appended_example =
    append_bytes-Appended (λ n. ltb n 10000) two_bytes (3 ∷ 4 ∷ []) (omega arith) (omega arith)

abbrev talking : Db
talking = with_guest (talker 6)

pump_round-Filled_example :
    IfDone
      (λ r db'. Filled two_bytes (after wasipg_flush (after interactive_one talking)) r)
      (pump_round two_bytes talking)
pump_round-Filled_example = pump_round-Filled two_bytes talking

quiet-StaysWithin : StaysWithin 22 1 empty_buf (with_guest (talker 1))
unfolding pump_round
quiet-StaysWithin = (
  omega arith,
  (
    omega arith,
    (
      omega arith,
      (
        omega arith,
        (
          omega arith,
          (
            omega arith,
            (
              omega arith,
              (
                omega arith,
                (
                  omega arith,
                  (
                    omega arith,
                    (
                      omega arith,
                      (
                        omega arith,
                        (
                          omega arith,
                          (
                            omega arith,
                            (
                              omega arith,
                              (
                                omega arith,
                                (
                                  omega arith,
                                  (
                                    omega arith,
                                    (omega arith, (omega arith, (omega arith, (omega arith, tt)))),
                                  ),
                                ),
                              ),
                            ),
                          ),
                        ),
                      ),
                    ),
                  ),
                ),
              ),
            ),
          ),
        ),
      ),
    ),
  ),
)

pump-EndsWith_example : EndsWith (Extends empty_buf) (pump 22 0 empty_buf (with_guest (talker 1)))
pump-EndsWith_example =
    pump-EndsWith 1 22 0 empty_buf (with_guest (talker 1)) (omega arith) (omega arith) (omega arith)
      quiet-StaysWithin (omega arith)
