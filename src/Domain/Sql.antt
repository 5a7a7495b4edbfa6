-- ===== src/Domain/Sql.antt =====
-- The translation of filters into SQL conditions: `get_user_filter_expr` of
-- server/src/domain/sql_user_backend_handler.rs and `get_group_filter_expr` of
-- server/src/domain/sql_group_backend_handler.rs. A condition of sea-query is kept as a tree of what
-- the program builds; what the database makes of it is not modelled.
use lldap.Common.{Bool, true, false}
use lldap.Common.Result.{ok, panic, ◌>>=◌}
use lldap.Text.{Str}
use lldap.Domain.Types.{External, AttributeName, Serialized, UserId, GroupId, Uuid}
use lldap.Domain.Error.{DomainResult}
use lldap.Domain.Handler.{
  UserColumn, UserRequestFilter, UserRequestFilters, GroupRequestFilter, GroupRequestFilters,
  to_sql_filter,
}

-- A condition on a row of the table of users, or of groups.
pub data Atom : Type 0 where
  value : Bool → Atom
  user_column_eq : UserColumn → Str → Atom
  user_id_like : Str → Atom
  lower_user_column_like : UserColumn → Str → Atom
  -- the row's user is among those with the attribute, or in a group with that name or id
  in_user_attributes : AttributeName → Serialized → Atom
  in_group_named : Str → Atom
  in_group_with_id : GroupId → Atom
  lowercase_display_name_eq : Str → Atom
  group_id_eq : GroupId → Atom
  group_uuid_eq : Uuid → Atom
  has_member : UserId → Atom
  lower_display_name_like : Str → Atom
  in_group_attributes : AttributeName → Serialized → Atom

mutual
  pub data Cond : Type 0 where
    atom : Atom → Cond
    all : Conds → Cond
    any : Conds → Cond
    negation : Cond → Cond

  pub data Conds : Type 0 where
    nil : Conds
    cons : Cond → Conds → Conds

module _ ⦃lib : External⦄ where
  -- The arm of `Equality`: two columns are treated apart.
  unfoldable pub equality_expr : UserColumn → Str → DomainResult Cond
  equality_expr UserColumn.user_id v = panic
  equality_expr UserColumn.email v =
      ok (Cond.atom (Atom.user_column_eq UserColumn.lowercase_email (lib.str_to_lowercase v)))
  equality_expr column v = ok (Cond.atom (Atom.user_column_eq column v))

  -- `get_repeated_filter`, over the conditions of the parts.
  unfoldable pub repeated : (Conds → Cond) → Bool → Conds → Cond
  repeated join default_value Conds.nil = Cond.atom (Atom.value default_value)
  repeated join default_value (Conds.cons c cs) = join (Conds.cons c cs)

  unfoldable mutual
    unfolding equality_expr repeated

    pub get_user_filter_expr : UserRequestFilter → DomainResult Cond
    get_user_filter_expr (UserRequestFilter.and fs) = do
      cs ← get_user_filter_exprs fs
      ok (repeated Cond.all true cs)
    get_user_filter_expr (UserRequestFilter.or fs) = do
      cs ← get_user_filter_exprs fs
      ok (repeated Cond.any false cs)
    get_user_filter_expr (UserRequestFilter.not f) = do
      c ← get_user_filter_expr f
      ok (Cond.negation c)
    get_user_filter_expr (UserRequestFilter.user_id id) =
        ok (Cond.atom (Atom.user_column_eq UserColumn.user_id id))
    get_user_filter_expr (UserRequestFilter.equality column v) = equality_expr column v
    get_user_filter_expr (UserRequestFilter.attribute_equality name v) =
        ok (Cond.atom (Atom.in_user_attributes name v))
    get_user_filter_expr (UserRequestFilter.member_of group) =
        ok (Cond.atom (Atom.in_group_named (lib.str_to_lowercase group)))
    get_user_filter_expr (UserRequestFilter.member_of_id id) =
        ok (Cond.atom (Atom.in_group_with_id id))
    get_user_filter_expr (UserRequestFilter.user_id_sub_string f) =
        ok (Cond.atom (Atom.user_id_like (to_sql_filter f)))
    get_user_filter_expr (UserRequestFilter.sub_string column f) =
        ok (Cond.atom (Atom.lower_user_column_like column (to_sql_filter f)))

    pub get_user_filter_exprs : UserRequestFilters → DomainResult Conds
    get_user_filter_exprs UserRequestFilters.nil = ok Conds.nil
    get_user_filter_exprs (UserRequestFilters.cons f fs) = do
      c ← get_user_filter_expr f
      cs ← get_user_filter_exprs fs
      ok (Conds.cons c cs)

  unfoldable mutual
    unfolding repeated

    pub get_group_filter_expr : GroupRequestFilter → Cond
    get_group_filter_expr (GroupRequestFilter.and fs) =
        repeated Cond.all true (get_group_filter_exprs fs)
    get_group_filter_expr (GroupRequestFilter.or fs) =
        repeated Cond.any false (get_group_filter_exprs fs)
    get_group_filter_expr (GroupRequestFilter.not f) = Cond.negation (get_group_filter_expr f)
    get_group_filter_expr (GroupRequestFilter.display_name name) =
        Cond.atom (Atom.lowercase_display_name_eq (lib.str_to_lowercase name))
    get_group_filter_expr (GroupRequestFilter.group_id id) = Cond.atom (Atom.group_id_eq id)
    get_group_filter_expr (GroupRequestFilter.uuid id) = Cond.atom (Atom.group_uuid_eq id)
    get_group_filter_expr (GroupRequestFilter.member user) = Cond.atom (Atom.has_member user)
    get_group_filter_expr (GroupRequestFilter.display_name_sub_string f) =
        Cond.atom (Atom.lower_display_name_like (to_sql_filter f))
    get_group_filter_expr (GroupRequestFilter.attribute_equality name v) =
        Cond.atom (Atom.in_group_attributes name v)

    pub get_group_filter_exprs : GroupRequestFilters → Conds
    get_group_filter_exprs GroupRequestFilters.nil = Conds.nil
    get_group_filter_exprs (GroupRequestFilters.cons f fs) =
        Conds.cons (get_group_filter_expr f) (get_group_filter_exprs fs)
