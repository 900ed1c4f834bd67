-- ===== src/Bridge/Auth.antt =====
-- `md5hex` and `authenticate` of native/bridge/pglite_bridge.c. The digest is a parameter of `Db`.
pub mod Digest
pub mod Stable
pub mod Laws
use pglite_ios.Common.{
  ℕ, zero, suc, ◌+◌, ◌/◌, ◌%◌, ◌&&◌, Option, none, some, [], ◌∷◌, ◌++◌, ltb, leb, ◌==◌,
  if◌then◌else◌, length, get_or, take, drop, replicate, Bytes, codes,
}
use pglite_ios.Bridge.Frames.{be32, rd32, frame_at, next_off}
use pglite_ios.Bridge.Db.{Cmd, out_of_fuel, halt, gets, skip, ◌>>=◌}
use pglite_ios.Bridge.Pump.{exchange}

-- `hex[d]` of "0123456789abcdef".
unfoldable hex_digit : ℕ → ℕ
hex_digit d = if ltb d 10 then d + 48 else d + 87

-- The loop of `md5hex` over `n` bytes of the digest, from byte `i`.
unfoldable hex_loop : ℕ → ℕ → Bytes → Bytes
unfolding hex_digit
hex_loop zero i d = []
hex_loop (suc n) i d =
    hex_digit (get_or d i 0 / 16) ∷ hex_digit (get_or d i 0 % 16) ∷ hex_loop n (i + 1) d

-- The 32 characters of `out`.
pub md5hex : (Bytes → Bytes) → Bytes → Bytes
unfolding hex_loop
md5hex md5 bs = hex_loop 16 0 (md5 bs)

-- The key-value pairs of the startup message, with the NUL that ends the literal.
abbrev pub startup_kv : Bytes
startup_kv =
    codes "user"
    ++ 0 ∷ codes "postgres"
    ++ 0 ∷ codes "database"
    ++ 0 ∷ codes "template1"
    ++ 0 ∷ 0 ∷ []

pub startup_message : Bytes
unfolding be32
startup_message = be32 (8 + length startup_kv) ++ be32 196608 ++ startup_kv

pub record AuthRequest : Type 0 where
  pub authtype : ℕ
  pub salt : Bytes

-- What a frame of type 'R' at `off`, of length word `n`, sets.
unfoldable read_auth : Bytes → ℕ → ℕ → AuthRequest → AuthRequest
unfolding rd32
read_auth reply off n a =
    let authtype = rd32 reply (off + 5) in
    if get_or reply off 0 == b'R' && leb 8 n
    then record {
      authtype = authtype;
      salt = if authtype == 5 && leb 12 n then take 4 (drop (off + 9) reply) else a.salt;
    }
    else a

-- The loop over the frames of the reply, `none` where it never ends.
unfoldable auth_loop : ℕ → Bytes → ℕ → AuthRequest → Option AuthRequest
unfolding frame_at next_off read_auth
auth_loop zero reply off a = some a
auth_loop (suc k) reply off a = elim (frame_at reply off) [
  | none ↦ some a
  | some n ↦ elim (next_off off n) [
    | none ↦ none
    | some off' ↦ auth_loop k reply off' (read_auth reply off n a)
  ]
]

pub auth_request : Bytes → Option AuthRequest
unfolding auth_loop
auth_request reply =
    auth_loop (length reply) reply 0 (record { authtype = 0; salt = replicate 4 0 })

-- `"md5" + md5(md5(password + user) + salt)`; the 36 bytes of `pw` hold it with its NUL.
unfoldable md5_password : (Bytes → Bytes) → Bytes → Bytes
unfolding md5hex
md5_password md5 salt =
    let inner = md5hex md5 (codes "passwordpostgres") in
    take 35 (codes "md5" ++ md5hex md5 (inner ++ salt))

-- A password message: 'p', the length, the password and its NUL.
pub password_message : Bytes → Bytes
unfolding be32
password_message pw = b'p' ∷ be32 (4 + (length pw + 1)) ++ pw ++ 0 ∷ []

-- The answer to the request; the reply to the password is not looked at.
unfoldable answer_auth : ℕ → AuthRequest → Cmd (Unit {0})
unfolding exchange md5_password password_message
answer_auth fuel a =
    if a.authtype == 0
    then skip
    else if a.authtype == 5
    then (do
      md5 ← gets (λ db. db.md5)
      _ ← exchange fuel (password_message (md5_password md5 a.salt))
      skip)
    else if a.authtype == 3
    then (do _ ← exchange fuel (password_message (codes "password")); skip)
    else halt

-- A loop that never ends is never within the fuel.
unfoldable answer_found : ℕ → Option AuthRequest → Cmd (Unit {0})
unfolding answer_auth
answer_found fuel none db = (out_of_fuel, db)
answer_found fuel (some a) db = answer_auth fuel a db

-- `stop` is -1.
unfoldable pub authenticate : ℕ → Cmd (Unit {0})
unfolding exchange startup_message auth_request answer_found
authenticate fuel = do reply ← exchange fuel startup_message; answer_found fuel (auth_request reply)
