-- ===== src/Wasi/Ledger.antt =====
-- Which calls of native/shim/wasi_shim.c give a host descriptor, and which give one back, with
-- their number over the history of a run.
pub mod Sound
pub mod Changes
pub mod Slots
pub mod Opens
pub mod Flags
pub mod Listing
pub mod Runs
pub mod Boot
pub mod Preopens
pub mod Leads
pub mod Init
pub mod Starts
pub mod Closing
pub mod Acts
pub mod Balanced
use pglite_ios.Common.{
  ℕ, ◌+◌, ◌≤◌, ◌≡◌, refl, ap, arith, List, [], ◌∷◌, ◌==◌, if◌then◌else◌, ℤ, pos, int_eq,
}
use pglite_ios.Wasi.Errno.{Errno}
use pglite_ios.Wasi.Host.{
  Call, History, Os, Sys, got, failed, open_path, openat, dup, close, closedir,
}

-- One for an answer that is the descriptor `fd`.
abbrev pub gives : Sys ℕ → ℕ → ℕ
gives (got n) fd = if n == fd then 1 else 0
gives (failed e) fd = 0

-- One for a call that opens `fd`, by the answer of the operating system.
unfoldable opened_by : Sys ℕ → Call → ℕ → ℕ
opened_by r (open_path path flags) fd = gives r fd
opened_by r (openat dir path flags) fd = gives r fd
opened_by r (dup x) fd = gives r fd
opened_by r _ fd = 0

-- One for a descriptor that is `fd`.
abbrev pub one_if : ℤ → ℤ → ℕ
one_if x fd = if int_eq x fd then 1 else 0

-- One for a call that closes `fd`; `closedir` closes the descriptor that `fdopendir` took over.
unfoldable released_by : Call → ℕ → ℕ
released_by (close x) fd = one_if x (pos fd)
released_by (closedir x) fd = one_if x (pos fd)
released_by _ fd = 0

unfoldable pub opened : Os → ℕ → History → ℕ
unfolding opened_by
opened os fd [] = 0
opened os fd (c ∷ h) = opened_by (os.fd_of h c) c fd + opened os fd h

unfoldable pub released : ℕ → History → ℕ
unfolding released_by
released fd [] = 0
released fd (c ∷ h) = released_by c fd + released fd h

-- A call that neither opens nor closes.
abbrev pub Neutral : Call → Type 0
Neutral (open_path path flags) = ⊥
Neutral (openat dir path flags) = ⊥
Neutral (dup x) = ⊥
Neutral (close x) = ⊥
Neutral (closedir x) = ⊥
Neutral _ = Unit {0}

opened_by-Neutral : (r : Sys ℕ) (c : Call) (fd : ℕ) → Neutral c → opened_by r c fd ≡ 0
unfolding opened_by
opened_by-Neutral r (open_path path flags) fd n = absurd n
opened_by-Neutral r (openat dir path flags) fd n = absurd n
opened_by-Neutral r (dup x) fd n = absurd n
opened_by-Neutral r (close x) fd n = absurd n
opened_by-Neutral r (closedir x) fd n = absurd n
opened_by-Neutral r _ fd n = refl

released_by-Neutral : (c : Call) (fd : ℕ) → Neutral c → released_by c fd ≡ 0
unfolding released_by
released_by-Neutral (open_path path flags) fd n = absurd n
released_by-Neutral (openat dir path flags) fd n = absurd n
released_by-Neutral (dup x) fd n = absurd n
released_by-Neutral (close x) fd n = absurd n
released_by-Neutral (closedir x) fd n = absurd n
released_by-Neutral _ fd n = refl

pub opened-Neutral :
    (os : Os) (fd : ℕ) (c : Call) (h : History) → Neutral c → opened os fd (c ∷ h) ≡ opened os fd h
unfolding opened
opened-Neutral os fd c h n = omega (arith, opened_by-Neutral (os.fd_of h c) c fd n)

pub released-Neutral :
    (fd : ℕ) (c : Call) (h : History) → Neutral c → released fd (c ∷ h) ≡ released fd h
unfolding released
released-Neutral fd c h n = omega (arith, released_by-Neutral c fd n)

-- A call that opens a descriptor where it succeeds.
abbrev pub Opens : Call → Type 0
Opens (open_path path flags) = Unit {0}
Opens (openat dir path flags) = Unit {0}
Opens (dup x) = Unit {0}
Opens _ = ⊥

opened_by_got : (c : Call) (n fd : ℕ) → Opens c → opened_by (got n) c fd ≡ gives (got n) fd
unfolding opened_by
opened_by_got (open_path path flags) n fd o = refl
opened_by_got (openat dir path flags) n fd o = refl
opened_by_got (dup x) n fd o = refl
opened_by_got _ n fd o = absurd o

released_by-Opens : (c : Call) (fd : ℕ) → Opens c → released_by c fd ≡ 0
unfolding released_by
released_by-Opens (open_path path flags) fd o = refl
released_by-Opens (openat dir path flags) fd o = refl
released_by-Opens (dup x) fd o = refl
released_by-Opens _ fd o = absurd o

opened_by_failed : (c : Call) (e : Errno) (fd : ℕ) → opened_by (failed e) c fd ≡ 0
unfolding opened_by
opened_by_failed (open_path path flags) e fd = refl
opened_by_failed (openat dir path flags) e fd = refl
opened_by_failed (dup x) e fd = refl
opened_by_failed _ e fd = refl

pub opened_got :
    (os : Os) (fd n : ℕ) (c : Call) (h : History)
    → Opens c
    → os.fd_of h c ≡ got n
    → opened os fd (c ∷ h) ≡ gives (got n) fd + opened os fd h
unfolding opened
opened_got os fd n c h o e = rw e (ap (λ k. k + opened os fd h) (opened_by_got c n fd o))

pub opened_failed :
    (os : Os) (fd : ℕ) (e : Errno) (c : Call) (h : History)
    → os.fd_of h c ≡ failed e
    → opened os fd (c ∷ h) ≡ opened os fd h
unfolding opened
opened_failed os fd e c h f = rw f (omega (arith, opened_by_failed c e fd))

pub released_open :
    (fd : ℕ) (c : Call) (h : History) → Opens c → released fd (c ∷ h) ≡ released fd h
unfolding released
released_open fd c h o = omega (arith, released_by-Opens c fd o)

opened_by_bound : (r : Sys ℕ) (c : Call) (fd : ℕ) → opened_by r c fd ≤ gives r fd
unfolding opened_by
opened_by_bound r (open_path path flags) fd = omega arith
opened_by_bound r (openat dir path flags) fd = omega arith
opened_by_bound r (dup x) fd = omega arith
opened_by_bound r _ fd = omega arith

pub opened_bound :
    (os : Os) (fd : ℕ) (c : Call) (h : History)
    → opened os fd (c ∷ h) ≤ gives (os.fd_of h c) fd + opened os fd h
unfolding opened
opened_bound os fd c h = omega (arith, opened_by_bound (os.fd_of h c) c fd)
