-- ===== src/Storage/GroupRows.antt =====
-- server/src/domain/sql_group_backend_handler.rs: the rows that a creation or an update of a group
-- writes and removes, and the loop that gives each group of a list its attributes.
use Prim.Native.Nat.{Ordering}
use lldap.Common.{
  Bool, false, none, some, String, List, [], ◌∷◌, ◌++◌, map, is_some, nat_eq, if◌then◌else◌,
}
use lldap.Common.Int.{pos, negsuc}
use lldap.Common.Result.{ok, err, ◌>>=◌}
use lldap.Text.{codes}
use lldap.Domain.Error.{DomainError, DomainResult, internal_error}
use lldap.Domain.Types.{
  External, UserId, GroupId, AttributeName, AttributeValue, Group, NaiveDateTime,
}
use lldap.Domain.Types.Compare.{compare_str_case_insensitive}
use lldap.Domain.Handler.{AttributeList, CreateGroupRequest, UpdateGroupRequest, get_attribute_type}
use lldap.Storage.{
  set, not_set, set_some, GroupActiveModel, GroupAttributeRow, GroupRow, group_of_row,
  value_of_group_row,
}
use lldap.Storage.UserChanges.{from_name_and_date}

unfoldable pub same_group : GroupId → GroupId → Bool
same_group (pos m) (pos n) = nat_eq m n
same_group (negsuc m) (negsuc n) = nat_eq m n
same_group _ _ = false

-- What `take_while_ref` takes from the iterator for one group, and what it leaves there.
unfoldable pub take_group_rows : GroupId → List GroupAttributeRow → List GroupAttributeRow
unfolding same_group
take_group_rows g [] = []
take_group_rows g (row ∷ rows) =
    let rest = take_group_rows g rows in if same_group row.group_id g then row ∷ rest else []

unfoldable pub skip_group_rows : GroupId → List GroupAttributeRow → List GroupAttributeRow
unfolding same_group
skip_group_rows g [] = []
skip_group_rows g (row ∷ rows) =
    let rest = skip_group_rows g rows in if same_group row.group_id g then rest else row ∷ rows

unfoldable pub attach_group_attributes : List Group → List GroupAttributeRow → List Group
unfolding take_group_rows skip_group_rows
attach_group_attributes [] rows = []
attach_group_attributes (g ∷ gs) rows =
    record g { attributes = map value_of_group_row (take_group_rows g.id rows) }
    ∷ attach_group_attributes gs (skip_group_rows g.id rows)

abbrev pub group_with_users : GroupRow × List UserId → Group
group_with_users (row, users) = record (group_of_row row) { users = users }

module _ ⦃lib : External⦄ where
  -- `groups.sort_by(|g1, g2| g1.display_name.cmp(&g2.display_name))`, a stable sort, by insertion.
  unfoldable pub insert_group : Group → List Group → List Group
  insert_group g [] = g ∷ []
  insert_group g (h ∷ hs) =
      let rest = insert_group g hs in
      elim (compare_str_case_insensitive g.display_name h.display_name) [
        | Ordering.gt ↦ h ∷ rest
        | _ ↦ g ∷ h ∷ hs
      ]

  unfoldable pub sort_groups : List Group → List Group
  unfolding insert_group
  sort_groups [] = []
  sort_groups (g ∷ gs) = insert_group g (sort_groups gs)

  abbrev pub new_group_model : NaiveDateTime → CreateGroupRequest → GroupActiveModel
  new_group_model now request = record {
    group_id = not_set;
    display_name = set request.display_name;
    lowercase_display_name = set (lib.str_to_lowercase request.display_name);
    creation_date = set now;
    uuid = set (from_name_and_date request.display_name now);
  }

  abbrev pub update_group_model : UpdateGroupRequest → GroupActiveModel
  update_group_model request = record {
    group_id = set request.group_id;
    display_name = set_some request.display_name;
    lowercase_display_name = elim request.display_name [
      | none ↦ not_set
      | some s ↦ set (lib.str_to_lowercase s)
    ];
    creation_date = not_set;
    uuid = not_set;
  }

-- The messages of an attribute that the schema does not have.
abbrev unknown_group_attribute : String → AttributeName → DomainError
unknown_group_attribute what name = internal_error (
    codes "Group attribute name "
    ++ name
    ++ codes " doesn't exist in the schema, yet was attempted to be "
    ++ codes what)

abbrev pub not_inserted : AttributeName → DomainError
not_inserted name = unknown_group_attribute "inserted in the database" name

abbrev pub not_inserted_in_new : AttributeName → DomainError
not_inserted_in_new name = internal_error (
    codes "Attribute name "
    ++ name
    ++ codes " doesn't exist in the group schema,"
    ++ 10
      ∷ codes
          "                                    yet was attempted to be inserted in the database")

-- The rows for the attributes of a request, or the error of one that is not in the schema.
unfoldable pub group_rows :
    (AttributeName → DomainError)
    → AttributeList
    → GroupId
    → List AttributeValue
    → DomainResult (List GroupAttributeRow)
group_rows unknown schema g [] = ok []
group_rows unknown schema g (a ∷ as') =
    let rest = do
      rows ← group_rows unknown schema g as'
      ok (record { group_id = g; attribute_name = a.name; value = a.value } ∷ rows)
    in if is_some (get_attribute_type schema a.name) then rest else err (unknown a.name)

unfoldable pub group_removals :
    AttributeList → List AttributeName → DomainResult (List AttributeName)
group_removals schema [] = ok []
group_removals schema (name ∷ names) =
    let rest = do removed ← group_removals schema names; ok (name ∷ removed)
    in if is_some (get_attribute_type schema name)
      then rest
      else err (unknown_group_attribute "removed from the database" name)
