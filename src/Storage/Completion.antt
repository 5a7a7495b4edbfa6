-- ===== src/Storage/Completion.antt =====
-- That a registration comes to its end, and that the password then binds (sql_opaque_handler.rs,
-- `register_password`).
use lldap.Common.{◌≡◌, refl, ◌∙◌, some, if◌then◌else◌}
use lldap.Common.Result.{ok, err}
use lldap.Text.{Str, Bytes, ◌==◌}
use lldap.Text.Laws.{==_refl}
use lldap.Text.Utf8.{into_bytes}
use lldap.Domain.Types.{UserId}
use lldap.Server.Password.{OpaqueClient}
use lldap.Storage.{Database}
use lldap.Storage.Opaque.{OpaqueServer, sealed, opened, registration_start}
use lldap.Storage.Login.{
  bind, registration_finish, register_password, password_model, wrong_password,
}
use lldap.Storage.Passwords.{SealLaws, OpaqueLaws, PasswordTable}
use lldap.Storage.Registration.{register_password-decides}

-- The messages of a registration of a password that no operation of the crates refuses.
pub record Exchange (opaque : OpaqueServer) (client : OpaqueClient) (u : UserId) (p : Bytes)
    : Type 0 where
  pub message : Bytes
  pub state : Bytes
  pub response : Bytes
  pub upload : Bytes
  pub key : Bytes
  pub plain : Bytes
  pub cipher : Bytes
  pub client_starts : client.start_registration p ≡ some (message, state)
  pub server_answers : opaque.start_registration message u ≡ some response
  pub client_finishes : client.finish_registration state response ≡ some upload
  pub has_key : opaque.secret_key ≡ some key
  pub writes : opaque.write_registration u ≡ some plain
  pub seals : opaque.seal key plain ≡ some cipher

module _ (opaque : OpaqueServer) (client : OpaqueClient) (seal : SealLaws opaque) {S : Type 0}
    (db : Database S) where
  registration-ends :
      (u : UserId) (p : Bytes) (s : S) (e : Exchange opaque client u p)
      → register_password opaque db client u p s
        ≡ db.update_user (password_model opaque db u (opaque.get_password_file e.upload)) s
  unfolding register_password registration_start registration_finish sealed opened
  registration-ends u p s e =
      rw
        (
          e.client_starts,
          e.server_answers,
          e.has_key,
          e.writes,
          e.seals,
          e.client_finishes,
          seal.decode-encode e.cipher,
          seal.unseal-seal e.key e.plain e.cipher e.seals,
          seal.read-write_registration u e.plain e.writes,
        )
        refl

  -- When no operation of the crates refuses the messages of this registration and the database updates
  -- the row of the user, over a table of password files and for crates that keep what OPAQUE and the
  -- sealing promise: the registration of a text as the password of a user returns, and then a bind of
  -- the user with that text succeeds.
  pub register_password-binds :
      (laws : OpaqueLaws opaque client) (u : UserId) (text : Str) (s t : S)
      (e : Exchange opaque client u (into_bytes text))
      → PasswordTable db
      → db.update_user (password_model opaque db u (opaque.get_password_file e.upload)) s
        ≡ (ok tt, t)
      → (register_password opaque db client u (into_bytes text) s ≡ (ok tt, t))
        × (bind opaque db (record { name = u; password = text }) t ≡ ok tt)
  register_password-binds laws u text s t e table updated =
      let returned : register_password opaque db client u (into_bytes text) s ≡ (ok tt, t) =
        registration-ends u (into_bytes text) s e ∙ updated in
      let decided : bind opaque db (record { name = u; password = text }) t
          ≡ (if into_bytes text == into_bytes text then ok tt else err (wrong_password u)) =
        register_password-decides opaque client seal laws db u (into_bytes text) text s t table
          returned in
      (returned, rw (==_refl (into_bytes text)) at decided)
