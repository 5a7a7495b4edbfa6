-- ===== src/Server/Create/Guarded.antt =====
-- Who can create a user through LDAP.
use lldap.Common.{
  ◌≡◌, refl, sym, ap, ◌∙◌, true, false, Option, none, some, List, [], ◌∷◌, inl, inr, Bool-cases,
}
use lldap.Common.Result.{ok, err, panic, map_err, OnOk, OnOk-elim, OnOk-bind}
use lldap.Common.Exec.{pure, continue, continue-eq-ok}
use lldap.Text.{codes}
use lldap.Domain.Types.{External, UserId}
use lldap.Domain.Handler.{CreateUserRequest}
use lldap.Domain.Backend.{Backend}
use lldap.Access.{ValidationResults, is_admin, get_admin_handler}
use lldap.Ldap.Error.{LdapResultCode, Message, unauthorized_write}
use lldap.Ldap.Dn.{get_user_id_from_distinguished_name}
use lldap.Ldap.Fields.{LdapInfo}
use lldap.Ldap.Filter.{LdapAddRequest, LdapOp}
use lldap.Domain.Error.{DomainResult}
use lldap.Server.Session.{make_add_error}
use lldap.Server.Create.{
  do_create_user, creation_error, create_request, parse_attributes, AttributeMap, later,
  get_attribute, text_attribute, photo_attribute,
}

created-next :
    {S : Type 0} (made : DomainResult Unit × S) (t : S) (ops : List LdapOp)
    → continue
        (map_err creation_error made.0)
        (λ _. pure (make_add_error LdapResultCode.success Message.empty ∷ []))
        made.1
      ≡ (ok ops, t)
    → made ≡ (ok tt, t)
created-next (ok tt, s) t ops h = cc
created-next (err e, s) t ops h = cc
created-next (panic, s) t ops h = cc

module _ ⦃lib : External⦄ where
  create_request-user_id :
      (uid : UserId) (m : AttributeMap) → OnOk (λ r. r.user_id ≡ uid) (create_request uid m)
  unfolding create_request
  create_request-user_id uid m =
      OnOk-bind Kept
        (text_attribute (later (get_attribute m (codes "mail")) (get_attribute m (codes "email"))))
        _
        λ email. OnOk-bind Kept (text_attribute (get_attribute m (codes "cn"))) _ λ display_name.
          OnOk-bind Kept (text_attribute (get_attribute m (codes "givenname"))) _ λ first_name.
            OnOk-bind Kept (text_attribute (get_attribute m (codes "sn"))) _ λ last_name.
              OnOk-bind Kept (photo_attribute (get_attribute m (codes "avatar"))) _ λ avatar. refl
    where
      Kept : CreateUserRequest → Type 0
      Kept r = r.user_id ≡ uid

module _ ⦃lib : External⦄ {S : Type 0} where
  -- An add request by a bound user that is not an administrator is refused, and the database is
  -- unchanged.
  pub create_user-unauthorized :
      (backend : Backend S) (info : LdapInfo) (v : ValidationResults) (request : LdapAddRequest)
      (s : S)
      → is_admin v ≡ false
      → do_create_user backend info (some v) request s ≡ (
        err (record {
          code = LdapResultCode.insufficent_access_rights;
          message = unauthorized_write;
        }),
        s,
      )
  unfolding do_create_user get_admin_handler
  create_user-unauthorized backend info v request s h = rw h refl

  -- An add request that succeeds is one of an administrator, its name is that of a user, and the
  -- backend created this user, whose next state is the result's.
  pub create_user-by_admin :
      (backend : Backend S) (info : LdapInfo) (user_info : Option ValidationResults)
      (request : LdapAddRequest) (s t : S) (ops : List LdapOp)
      → do_create_user backend info user_info request s ≡ (ok ops, t)
      → (v : ValidationResults) × (created : CreateUserRequest) × (user_info ≡ some v)
        × (is_admin v ≡ true)
        × (get_user_id_from_distinguished_name request.dn info.base_dn info.base_dn_str
            ≡ ok created.user_id)
        × (backend.create_user created s ≡ (ok tt, t))
  unfolding do_create_user get_admin_handler
  create_user-by_admin backend info none request s t ops h = cc
  create_user-by_admin backend info (some v) request s t ops h = elim (Bool-cases (is_admin v)) [
    | inr other ↦ (let refused = create_user-unauthorized backend info v request s other in cc)
    | inl admin ↦
        let h0 = rw admin at h in
        let (uid, eu, h1) =
          continue-eq-ok
            (get_user_id_from_distinguished_name request.dn info.base_dn info.base_dn_str) _ s h0 in
        let (m, em, h2) = continue-eq-ok (parse_attributes request.attributes) _ s h1 in
        let (created, er, h3) = continue-eq-ok (create_request uid m) _ s h2 in
        let kept : created.user_id ≡ uid =
          OnOk-elim _ _ created (create_request-user_id uid m) er in
        (v, created, refl, admin, eu ∙ ap ok (sym kept), created-next _ t ops h3)
  ]
