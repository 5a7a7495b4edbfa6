-- ===== src/Storage/Registration.antt =====
-- What a registration of a password writes, and what every later bind then answers
-- (sql_opaque_handler.rs).
use lldap.Common.{◌≡◌, refl, false, some, inl, inr, Bool-cases, if◌then◌else◌}
use lldap.Common.Result.{ok, err, ok_or, ok_or-eq-ok, OnOk, OnOk-bind_with, OnOk-elim, OnOk-returns}
use lldap.Common.Exec.{continue-eq-ok}
use lldap.Text.{Str, Bytes, ◌==◌}
use lldap.Text.Utf8.{into_bytes}
use lldap.Domain.Error.{authentication_protocol_error}
use lldap.Domain.Types.{UserId}
use lldap.Domain.Backend.{RegistrationStartResponse}
use lldap.Server.Password.{OpaqueClient}
use lldap.Storage.{Database}
use lldap.Storage.Opaque.{OpaqueServer, sealed, opened, registration_start}
use lldap.Storage.Login.{
  bind, check_file, get_password_file_for_user, registration_finish, register_password,
  wrong_password, password_model,
}
use lldap.Storage.Passwords.{
  SealLaws, OpaqueLaws, PasswordTable, opened-sealed, passwords_match-of_file,
}

module _ (opaque : OpaqueServer) (client : OpaqueClient) (seal : SealLaws opaque)
    (laws : OpaqueLaws opaque client) {S : Type 0} (db : Database S) where
  abbrev Starts : UserId → Bytes → RegistrationStartResponse → Type 0
  Starts u m r =
      (sealed opaque (opaque.write_registration u) ≡ ok r.server_data)
      × (opaque.start_registration m u ≡ some r.registration_response)

  registration_start-Starts :
      (u : UserId) (m : Bytes) → OnOk (Starts u m) (registration_start opaque u m)
  unfolding registration_start
  registration_start-Starts u m =
      OnOk-bind_with
        (λ r. ok_or authentication_protocol_error (opaque.start_registration m u) ≡ ok r)
        (Starts u m) (ok_or authentication_protocol_error (opaque.start_registration m u)) _
        (OnOk-returns _)
        λ r e.
          OnOk-bind_with (λ d. sealed opaque (opaque.write_registration u) ≡ ok d) (Starts u m)
            (sealed opaque (opaque.write_registration u)) _ (OnOk-returns _)
            λ d k. (k, ok_or-eq-ok _ _ e)

  -- The file that a complete registration writes is one of the password.
  abbrev pub Writes : UserId → Bytes → S → S → Type 0
  Writes u p s t =
      (file : Bytes) × laws.FileOf u p file
      × (db.update_user (password_model opaque db u file) s ≡ (ok tt, t))

  pub registration-Writes :
      (u : UserId) (p m state upload : Bytes) (r : RegistrationStartResponse) (s t : S)
      → client.start_registration p ≡ some (m, state)
      → registration_start opaque u m ≡ ok r
      → client.finish_registration state r.registration_response ≡ some upload
      → registration_finish opaque db r.server_data upload s ≡ (ok tt, t)
      → Writes u p s t
  unfolding registration_finish
  registration-Writes u p m state upload r s t e1 e2 e3 e4 =
      let (kept, answered) =
        OnOk-elim (Starts u m) (registration_start opaque u m) r (registration_start-Starts u m)
          e2 in
      let back : opened opaque opaque.read_registration r.server_data ≡ ok u =
        opened-sealed opaque opaque.read_registration _ u seal (seal.read-write_registration u)
          kept in
      (
        opaque.get_password_file upload,
        laws.registers u p m state r.registration_response upload e1 answered e3,
        rw back at e4,
      )

  -- What the binds of the user answer after that, and those of the other users.
  pub Writes-decides :
      (u : UserId) (p : Bytes) (q : Str) (s t : S)
      → PasswordTable db
      → Writes u p s t
      → bind opaque db (record { name = u; password = q }) t
        ≡ (if into_bytes q == p then ok tt else err (wrong_password u))
  unfolding bind get_password_file_for_user check_file
  Writes-decides u p q s t table (file, of, e) =
      rw
        (
          table.update_sets _ u (some (opaque.serialize_file file)) s t refl refl e,
          passwords_match-of_file opaque client laws u p file q of,
        )
        (elim (Bool-cases (into_bytes q == p)) [
          | inl same ↦ rw same refl
          | inr differ ↦ rw differ refl
        ])

  pub Writes-keeps :
      (u v : UserId) (p : Bytes) (q : Str) (s t : S)
      → PasswordTable db
      → (v == u) ≡ false
      → Writes u p s t
      → bind opaque db (record { name = v; password = q }) t
        ≡ bind opaque db (record { name = v; password = q }) s
  unfolding bind get_password_file_for_user
  Writes-keeps u v p q s t table differ (file, of, e) =
      rw (table.update_keeps _ u v s t refl differ e) refl

  register-Writes :
      (u : UserId) (p : Bytes) (s t : S)
      → register_password opaque db client u p s ≡ (ok tt, t)
      → Writes u p s t
  unfolding register_password
  register-Writes u p s t h =
      let (m, em, h1) =
        continue-eq-ok (ok_or authentication_protocol_error (client.start_registration p)) _ s h in
      let (r, er, h2) = continue-eq-ok (registration_start opaque u m.0) _ s h1 in
      let (up, eu, h3) =
        continue-eq-ok
          (ok_or authentication_protocol_error
            (client.finish_registration m.1 r.registration_response))
          _ s h2 in
      registration-Writes u p m.0 m.1 up r s t (ok_or-eq-ok _ _ em) er (ok_or-eq-ok _ _ eu) h3

  -- After a password has been registered, a bind of that user succeeds exactly with that password,
  -- and fails with the error of a wrong password with any other.
  pub register_password-decides :
      (u : UserId) (p : Bytes) (q : Str) (s t : S)
      → PasswordTable db
      → register_password opaque db client u p s ≡ (ok tt, t)
      → bind opaque db (record { name = u; password = q }) t
        ≡ (if into_bytes q == p then ok tt else err (wrong_password u))
  register_password-decides u p q s t table h =
      Writes-decides u p q s t table (register-Writes u p s t h)

  -- Over a table of password files and for crates that keep what OPAQUE and the sealing promise, a
  -- registration of one user's password that returned changes no answer to a bind of another user.
  pub register_password-others :
      (u v : UserId) (p : Bytes) (q : Str) (s t : S)
      → PasswordTable db
      → (v == u) ≡ false
      → register_password opaque db client u p s ≡ (ok tt, t)
      → bind opaque db (record { name = v; password = q }) t
        ≡ bind opaque db (record { name = v; password = q }) s
  register_password-others u v p q s t table differ h =
      Writes-keeps u v p q s t table differ (register-Writes u p s t h)
