-- ===== src/Domain/Error.antt =====
-- server/src/domain/error.rs. The errors that wrap another crate's error keep no details of it.
use lldap.Common.Result.{Result}
use lldap.Text.{Str}

pub data DomainError : Type 0 where
  authentication_error : Str → DomainError
  database_error : DomainError
  database_transaction_error : DomainError
  authentication_protocol_error : DomainError
  unknown_crypto_error : DomainError
  binary_serialization_error : DomainError
  base64_decode_error : DomainError
  entity_not_found : Str → DomainError
  internal_error : Str → DomainError

abbrev pub DomainResult : Type 0 → Type 0
DomainResult A = Result DomainError A
