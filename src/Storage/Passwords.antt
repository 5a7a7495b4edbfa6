-- ===== src/Storage/Passwords.antt =====
-- What the registration of a password means for later logins (sql_opaque_handler.rs), over what the
-- crates of OPAQUE, orion, base64 and bincode promise.
use lldap.Common.{◌≡◌, refl, false, Option, none, some, inl, inr, Bool-cases, if◌then◌else◌}
use lldap.Common.Result.{
  ok, err, ok_or, ok_or-eq-ok, >>=-eq-ok, OnOk, OnOk-bind, OnOk-bind_with, OnOk-elim, OnOk-returns,
}
use lldap.Text.{Str, Bytes, ◌==◌}
use lldap.Text.Laws.{==_sound}
use lldap.Text.Utf8.{into_bytes}
use lldap.Domain.Error.{
  unknown_crypto_error, binary_serialization_error, authentication_protocol_error,
}
use lldap.Domain.Types.{UserId}
use lldap.Server.Password.{OpaqueClient}
use lldap.Storage.{set, UserActiveModel, Database}
use lldap.Storage.Opaque.{OpaqueServer, passwords_match, sealed, opened, login_finish}
use lldap.Storage.Login.{read_file, get_password_file_for_user, login_start, LoginStartResponse}

-- What is sealed, written and encoded comes back.
pub record SealLaws (opaque : OpaqueServer) : Type 0 where
  pub unseal-seal : (k m c : Bytes) → opaque.seal k m ≡ some c → opaque.unseal k c ≡ some m
  pub decode-encode : (b : Bytes) → opaque.decode (opaque.encode b) ≡ some b
  pub read-write_registration :
      (u : UserId) (b : Bytes)
      → opaque.write_registration u ≡ some b
      → opaque.read_registration b ≡ some u
  pub read-write_login :
      (u : UserId) (state b : Bytes)
      → opaque.write_login u state ≡ some b
      → opaque.read_login b ≡ some (u, state)

-- The protocol: a password file of a user accepts the password it was made from, and no other.
pub record OpaqueLaws (opaque : OpaqueServer) (client : OpaqueClient) : Type 1 where
  pub FileOf : UserId → Bytes → Bytes → Type 0
  pub registers :
      (u : UserId) (password message state response upload : Bytes)
      → client.start_registration password ≡ some (message, state)
      → opaque.start_registration message u ≡ some response
      → client.finish_registration state response ≡ some upload
      → FileOf u password (opaque.get_password_file upload)
  pub deserialize-serialize :
      (f : Bytes) → opaque.deserialize_file (opaque.serialize_file f) ≡ some f
  pub starts : (q : Str) → (m : Bytes × Bytes) × (opaque.start_client_login q ≡ some m)
  pub answers :
      (u : UserId) (file message : Bytes)
      → (a : Bytes × Bytes) × (opaque.start_login (some file) message u ≡ some a)
  pub finishes :
      (u : UserId) (p file : Bytes) (q : Str) (m a : Bytes × Bytes)
      → FileOf u p file
      → opaque.start_client_login q ≡ some m
      → opaque.start_login (some file) m.1 u ≡ some a
      → into_bytes q ≡ p
      → (key : Bytes) × (opaque.finish_client_login m.0 a.1 ≡ some key)
  pub refuses :
      (u : UserId) (p file : Bytes) (q : Str) (m a : Bytes × Bytes)
      → FileOf u p file
      → opaque.start_client_login q ≡ some m
      → opaque.start_login (some file) m.1 u ≡ some a
      → (into_bytes q == p) ≡ false
      → opaque.finish_client_login m.0 a.1 ≡ none

-- An update by key of the table of users sets the password file of that user, and no other.
pub record PasswordTable {S : Type 0} (db : Database S) : Type 0 where
  pub update_sets :
      (m : UserActiveModel) (u : UserId) (h : Option Bytes) (s t : S)
      → m.user_id ≡ set u
      → m.password_hash ≡ set h
      → db.update_user m s ≡ (ok tt, t)
      → db.find_password_hash u t ≡ ok (some h)
  pub update_keeps :
      (m : UserActiveModel) (u v : UserId) (s t : S)
      → m.user_id ≡ set u
      → (v == u) ≡ false
      → db.update_user m s ≡ (ok tt, t)
      → db.find_password_hash v t ≡ db.find_password_hash v s

module _ (opaque : OpaqueServer) where
  sealed-parts :
      (plain : Option Bytes) {b : Bytes}
      → sealed opaque plain ≡ ok b
      → (k m c : Bytes) × (opaque.secret_key ≡ some k)
        × (plain ≡ some m)
        × (opaque.seal k m ≡ some c)
        × (b ≡ opaque.encode c)
  unfolding sealed
  sealed-parts plain {b} h =
      let (k, ek, h1) = >>=-eq-ok (ok_or unknown_crypto_error opaque.secret_key) _ h in
      let (m, em, h2) = >>=-eq-ok (ok_or binary_serialization_error plain) _ h1 in
      let (c, ec, h3) = >>=-eq-ok (ok_or unknown_crypto_error (opaque.seal k m)) _ h2 in
      (k, m, c, ok_or-eq-ok _ _ ek, ok_or-eq-ok _ _ em, ok_or-eq-ok _ _ ec, cc h3)

  -- What `sealed` returns, `opened` reads back.
  pub opened-sealed :
      {A : Type 0} (read : Bytes → Option A) (plain : Option Bytes) (a : A) {b : Bytes}
      → SealLaws opaque
      → ((m : Bytes) → plain ≡ some m → read m ≡ some a)
      → sealed opaque plain ≡ ok b
      → opened opaque read b ≡ ok a
  unfolding opened
  opened-sealed read plain a {b} laws r h =
      let (k, m, c, ek, em, ec, eb) = sealed-parts plain h in
      rw (eb, ek, laws.decode-encode c, laws.unseal-seal k m c ec, r m em) refl

module _ (opaque : OpaqueServer) {S : Type 0} (db : Database S) where
  abbrev Carries : UserId → LoginStartResponse → Type 0
  Carries u r = (state : Bytes) × (sealed opaque (opaque.write_login u state) ≡ ok r.server_data)

  login_start-Carries :
      (u : UserId) (m : Bytes) (s : S) → OnOk (Carries u) (login_start opaque db u m s)
  unfolding login_start
  login_start-Carries u m s =
      OnOk-bind (Carries u) (get_password_file_for_user opaque db u s) _ λ file.
        OnOk-bind (Carries u) (read_file opaque db u file) _ λ password_file.
          OnOk-bind (Carries u)
            (ok_or authentication_protocol_error (opaque.start_login password_file m u)) _
            λ answer.
              OnOk-bind_with (λ d. sealed opaque (opaque.write_login u answer.0) ≡ ok d) (Carries u)
                (sealed opaque (opaque.write_login u answer.0)) _ (OnOk-returns _)
                λ d e. (answer.0, e)

  -- When what is sealed, encoded and written comes back, the user that a login ends with is the one
  -- that it began with, whatever the client answers in between.
  pub login_finish-user :
      (u v : UserId) (m final : Bytes) (s : S) (response : LoginStartResponse)
      → SealLaws opaque
      → login_start opaque db u m s ≡ ok response
      → login_finish opaque response.server_data final ≡ ok v
      → v ≡ u
  unfolding login_finish
  login_finish-user u v m final s response laws started finished =
      let (state, e) =
        OnOk-elim (Carries u) (login_start opaque db u m s) response (login_start-Carries u m s)
          started in
      let back : opened opaque opaque.read_login response.server_data ≡ ok (u, state) =
        opened-sealed opaque opaque.read_login _ (u, state) laws
          (λ b. laws.read-write_login u state b) e in
      let (key, _, last) =
        >>=-eq-ok (ok_or authentication_protocol_error (opaque.finish_login state final)) _
          (rw back at finished) in
      cc last

module _ (opaque : OpaqueServer) (client : OpaqueClient) (laws : OpaqueLaws opaque client) where
  -- The comparison of a password with the file of another.
  pub passwords_match-of_file :
      (u : UserId) (p file : Bytes) (q : Str)
      → laws.FileOf u p file
      → passwords_match opaque (opaque.serialize_file file) q u
        ≡ (if into_bytes q == p then ok tt else err authentication_protocol_error)
  unfolding passwords_match
  passwords_match-of_file u p file q of =
      let (m, em) = laws.starts q in
      let (a, ea) = laws.answers u file m.1 in
      rw (em, laws.deserialize-serialize file, ea)
        (elim (Bool-cases (into_bytes q == p)) [
          | inl same ↦
              (let (key, ek) = laws.finishes u p file q m a of em ea (==_sound _ _ same) in
                rw (ek, same) refl)
          | inr differ ↦ rw (laws.refuses u p file q m a of em ea differ, differ) refl
        ])
