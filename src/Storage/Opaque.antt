-- ===== src/Storage/Opaque.antt =====
-- server/src/domain/sql_opaque_handler.rs: the logins and the registrations of passwords. The
-- operations of the crates opaque-ke (by way of auth/src/opaque.rs), orion, base64 and bincode are
-- those of a record, for one choice of their random bytes; messages, states and keys stay bytes.
use lldap.Common.{Option, some}
use lldap.Common.Result.{ok, ok_or, ◌>>=◌}
use lldap.Text.{Str, Bytes}
use lldap.Domain.Error.{
  DomainResult, authentication_protocol_error, unknown_crypto_error, binary_serialization_error,
  base64_decode_error,
}
use lldap.Domain.Types.{UserId}
use lldap.Domain.Backend.{RegistrationStartResponse}

pub record OpaqueServer : Type 0 where
  -- `client::login`: the state and the message; then whether the answer is that of the password
  pub start_client_login : Str → Option (Bytes × Bytes)
  pub finish_client_login : Bytes → Bytes → Option Bytes
  -- `server::login`, with the setup of the server: the state and the answer
  pub start_login : Option Bytes → Bytes → UserId → Option (Bytes × Bytes)
  pub finish_login : Bytes → Bytes → Option Bytes
  -- `server::registration`, and the form of a password file in the database
  pub start_registration : Bytes → UserId → Option Bytes
  pub get_password_file : Bytes → Bytes
  pub serialize_file : Bytes → Bytes
  pub deserialize_file : Bytes → Option Bytes
  -- `orion::aead`
  pub secret_key : Option Bytes
  pub seal : Bytes → Bytes → Option Bytes
  pub unseal : Bytes → Bytes → Option Bytes
  -- `base64`
  pub encode : Bytes → Bytes
  pub decode : Bytes → Option Bytes
  -- `bincode`, at `registration::ServerData` and `login::ServerData`
  pub write_registration : UserId → Option Bytes
  pub read_registration : Bytes → Option UserId
  pub write_login : UserId → Bytes → Option Bytes
  pub read_login : Bytes → Option (UserId × Bytes)

module _ (opaque : OpaqueServer) where
  unfoldable pub passwords_match : Bytes → Str → UserId → DomainResult Unit
  passwords_match password_file_bytes clear_password username = do
    start ← ok_or authentication_protocol_error (opaque.start_client_login clear_password)
    password_file ←
        ok_or authentication_protocol_error (opaque.deserialize_file password_file_bytes)
    answer ←
        ok_or authentication_protocol_error
          (opaque.start_login (some password_file) start.1 username)
    key ← ok_or authentication_protocol_error (opaque.finish_client_login start.0 answer.1)
    ok tt

  abbrev get_orion_secret_key : DomainResult Bytes
  get_orion_secret_key = ok_or unknown_crypto_error opaque.secret_key

  -- The server's state between two messages, as the client keeps it.
  unfoldable pub sealed : Option Bytes → DomainResult Bytes
  sealed server_data = do
    secret_key ← get_orion_secret_key
    plain ← ok_or binary_serialization_error server_data
    encrypted_state ← ok_or unknown_crypto_error (opaque.seal secret_key plain)
    ok (opaque.encode encrypted_state)

  unfoldable pub opened : {A : Type 0} → (Bytes → Option A) → Bytes → DomainResult A
  opened read server_data = do
    secret_key ← get_orion_secret_key
    encrypted_state ← ok_or base64_decode_error (opaque.decode server_data)
    plain ← ok_or unknown_crypto_error (opaque.unseal secret_key encrypted_state)
    ok_or binary_serialization_error (read plain)

  unfoldable pub registration_start : UserId → Bytes → DomainResult RegistrationStartResponse
  unfolding sealed
  registration_start username request = do
    message ← ok_or authentication_protocol_error (opaque.start_registration request username)
    server_data ← sealed (opaque.write_registration username)
    ok (record { server_data = server_data; registration_response = message })

  unfoldable pub login_finish : Bytes → Bytes → DomainResult UserId
  unfolding opened
  login_finish server_data credential_finalization = do
    data' ← opened opaque.read_login server_data
    session_key ←
        ok_or authentication_protocol_error (opaque.finish_login data'.1 credential_finalization)
    ok data'.0
