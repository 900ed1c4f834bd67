-- ===== src/Bridge/Auth/Stable.antt =====
-- What the steps of the wire pump leave alone is kept by `authenticate` of
-- native/bridge/pglite_bridge.c.
use pglite_ios.Common.{ℕ, Bytes, Option, none, some, codes, ◌==◌}
use pglite_ios.Bridge.Db.{Db, skip, ◌>>=◌}
use pglite_ios.Bridge.Pump.{exchange}
use pglite_ios.Bridge.Db.Keeps.{Keeps, Keeps-pure, Keeps-halt, Keeps-gets, Keeps-if, Keeps-bind}
use pglite_ios.Bridge.Auth.{
  AuthRequest, answer_auth, answer_found, authenticate, password_message, md5_password,
  startup_message, auth_request,
}
use pglite_ios.Bridge.Pump.Stable.{IsStable, exchange-Keeps}

module _ {P : Db → Type 0} (s : IsStable P) where
  ignored-Keeps : (fuel : ℕ) (message : Bytes) → Keeps P (exchange fuel message >>= (λ _. skip))
  ignored-Keeps fuel message = Keeps-bind (exchange-Keeps s fuel message) (λ _. Keeps-pure tt)

  answer_auth-Keeps : (fuel : ℕ) (a : AuthRequest) → Keeps P (answer_auth fuel a)
  unfolding answer_auth
  answer_auth-Keeps fuel a = Keeps-if (a.authtype == 0) (Keeps-pure tt) (
      Keeps-if (a.authtype == 5)
        (Keeps-bind (Keeps-gets (λ db. db.md5))
          (λ md5. ignored-Keeps fuel (password_message (md5_password md5 a.salt))))
        (Keeps-if (a.authtype == 3) (ignored-Keeps fuel (password_message (codes "password")))
          Keeps-halt))

  answer_found-Keeps : (fuel : ℕ) (o : Option AuthRequest) → Keeps P (answer_found fuel o)
  unfolding answer_found
  answer_found-Keeps fuel none = record { at = λ db h. h }
  answer_found-Keeps fuel (some a) = record { at = λ db h. (answer_auth-Keeps fuel a).at db h }

  pub authenticate-Keeps : (fuel : ℕ) → Keeps P (authenticate fuel)
  unfolding authenticate
  authenticate-Keeps fuel =
      Keeps-bind (exchange-Keeps s fuel startup_message)
        (λ reply. answer_found-Keeps fuel (auth_request reply))
