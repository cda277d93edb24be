-- ===== src/Validator/Memberships.antt =====
-- The checks of the memberships, and of the groups that need members: `validateMemberships` and
-- `validateGroupsHaveMembers` of shared/src/validator.ts.
pub mod WellFormed
use essentials_calls.Base.{
  ℕ, String, Bool, true, false, not, ◌&&◌, Option, none, some, List, [], ◌∷◌, ◌++◌,
}
use essentials_calls.Base.{filter, contains, nat_eq, length, ◌==◌}
use essentials_calls.Base.Texts.{◌<>◌}
use essentials_calls.Model.{NodeType, PbxNode, node_type, Membership}
use essentials_calls.Validator.Issue.{
  ValidationIssue, error, node_issue, membership_issue, report_if,
}
use essentials_calls.Validator.Issue
use essentials_calls.Validator.Pass.{pass, each}
use essentials_calls.Validator.Edges.{node_by_id}

-- `type === 'ringgroup' || type === 'queue'`
abbrev pub is_group : NodeType → Bool
is_group NodeType.ringgroup = true
is_group NodeType.queue = true
is_group _ = false

abbrev pub is_extension : NodeType → Bool
is_extension NodeType.extension = true
is_extension _ = false

abbrev pub found_with : (NodeType → Bool) → Option PbxNode → Bool
found_with p none = false
found_with p (some n) = p (node_type n)

-- The template is written with an escaped backslash: the separator is a backslash and a zero.
unfoldable pub pair_key : Membership → String
pair_key m = m.group_id <> "\\0" <> m.member_id

pub record Joined : Type 0 where
  pub ids : List String
  pub pairs : List String

unfoldable pub check_membership : List PbxNode → Membership → Joined → Joined × List ValidationIssue
check_membership nodes m s = (
  record { ids = m.id ∷ s.ids; pairs = pair_key m ∷ s.pairs },
  report_if (contains m.id s.ids) (membership_issue Issue.duplicate_membership_id m.id)
      ++ (report_if (contains (pair_key m) s.pairs)
            (membership_issue Issue.duplicate_membership m.id)
          ++ (report_if (not (found_with is_group (node_by_id nodes m.group_id)))
                (membership_issue Issue.membership_invalid_group m.id)
              ++ report_if (not (found_with is_extension (node_by_id nodes m.member_id)))
                  (membership_issue Issue.membership_invalid_member m.id))),
)

unfoldable pub validate_memberships : List PbxNode → List Membership → List ValidationIssue
validate_memberships nodes ms =
    (pass (check_membership nodes) ms (record { ids = []; pairs = [] })).1

-- `memberCount.get(id) ?? 0`
unfoldable pub member_count : List Membership → String → ℕ
member_count ms id = length (filter (λ m. m.group_id == id) ms)

unfoldable pub check_group : List Membership → PbxNode → List ValidationIssue
check_group ms n =
    report_if (is_group (node_type n) && nat_eq (member_count ms n.id) 0)
      (node_issue error Issue.group_without_members n.id)

unfoldable pub validate_groups_have_members : List PbxNode → List Membership → List ValidationIssue
validate_groups_have_members nodes ms = each (check_group ms) nodes
