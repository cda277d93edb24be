-- ===== src/Validator/Memberships/WellFormed.antt =====
-- What memberships and groups guarantee that pass the checks.
use mathlib.Core.List.{Memᴰ}
use essentials_calls.Base.{
  String, ◌≡◌, refl, Bool, true, false, Option, none, some, List, map, subst, All, Distinct,
  not-false, and_false, nat_eq, ◌⊎◌, inl, inr, ap, filter, length, ◌==◌, ==_iff, [], ◌∷◌,
  mem_of_mem-filter, All-mem,
}
use essentials_calls.Model.{NodeType, PbxNode, node_type, Membership}
use essentials_calls.Validator.Issue.{
  ValidationIssue, has_errors, report_if-append, report_if-false,
}
use essentials_calls.Validator.Pass.{pass-All, pass-Distinct, each-All, collect-map, Claims}
use essentials_calls.Validator.Edges.{node_by_id}
use essentials_calls.Validator.Memberships.{
  is_group, is_extension, found_with, pair_key, Joined, check_membership, validate_memberships,
  member_count, check_group, validate_groups_have_members,
}

-- The node of the id exists, and its type passes the test.
abbrev pub Refers : (NodeType → Bool) → List PbxNode → String → Type 0
Refers p nodes id = (n : PbxNode) × (node_by_id nodes id ≡ some n) × (p (node_type n) ≡ true)

pub record WellFormedMemberships (nodes : List PbxNode) (ms : List Membership) : Type 0 where
  pub groups : All (λ m. Refers is_group nodes m.group_id) ms
  pub members : All (λ m. Refers is_extension nodes m.member_id) ms
  pub ids : Distinct (map (λ (m : Membership). m.id) ms)
  pub pairs : Distinct (map pair_key ms)

refers :
    (p : NodeType → Bool) (o : Option PbxNode)
    → found_with p o ≡ true
    → (n : PbxNode) × (o ≡ some n) × (p (node_type n) ≡ true)
refers p none h = cc
refers p (some n) h = (n, refl, h)

module _ (nodes : List PbxNode) where
  record Joins (m : Membership) (s t : Joined) : Type 0 where
    group : Refers is_group nodes m.group_id
    member : Refers is_extension nodes m.member_id
    id : Claims (some m.id) s.ids t.ids
    pair : Claims (some (pair_key m)) s.pairs t.pairs

  check_membership-Joins :
      (m : Membership) (s : Joined)
      → has_errors (check_membership nodes m s).1 ≡ false
      → Joins m s (check_membership nodes m s).0
  unfolding check_membership
  check_membership-Joins m s h =
      let (a, h1) = report_if-append _ _ _ refl h in
      let (b, h2) = report_if-append _ _ _ refl h1 in
      let (c, h3) = report_if-append _ _ _ refl h2 in
      record {
        group = refers is_group (node_by_id nodes m.group_id) (not-false _ c);
        member =
            refers is_extension (node_by_id nodes m.member_id)
              (not-false _ (report_if-false _ _ refl h3));
        id = (a, refl);
        pair = (b, refl);
      }

  -- Memberships without an error join an extension to a ring group or a queue, have distinct ids,
  -- and no two of them have the same pair key.
  pub validate_memberships-WellFormed :
      (ms : List Membership)
      → has_errors (validate_memberships nodes ms) ≡ false
      → WellFormedMemberships nodes ms
  unfolding validate_memberships
  validate_memberships-WellFormed ms h = record {
    groups = pass-All check _ (λ m s k. (check_membership-Joins m s k).group) ms _ h;
    members = pass-All check _ (λ m s k. (check_membership-Joins m s k).member) ms _ h;
    ids = subst Distinct (collect-map (λ (m : Membership). m.id) ms) (
        pass-Distinct check (λ s. s.ids) (λ m. some m.id)
          (λ m s k. (check_membership-Joins m s k).id) ms _ h);
    pairs = subst Distinct (collect-map pair_key ms) (
        pass-Distinct check (λ s. s.pairs) (λ m. some (pair_key m))
          (λ m s k. (check_membership-Joins m s k).pair) ms _ h);
  }
    where
      check : Membership → Joined → Joined × List ValidationIssue
      check = check_membership nodes

-- A ring group or a queue is the group of a membership.
abbrev pub HasMembers : List Membership → PbxNode → Type 0
HasMembers ms n =
    (node_type n ≡ NodeType.ringgroup) ⊎ (node_type n ≡ NodeType.queue)
    → (m : Membership) × Memᴰ m ms × (m.group_id ≡ n.id)

counted-Memᴰ :
    (id : String) (ms : List Membership)
    → nat_eq (member_count ms id) 0 ≡ false
    → (m : Membership) × Memᴰ m ms × (m.group_id ≡ id)
unfolding member_count
counted-Memᴰ id ms h =
    let (m, found) = first (filter (λ m. m.group_id == id) ms) h in
    let (here, same) = mem_of_mem-filter (λ m. m.group_id == id) ms found in
    (m, here, (==_iff m.group_id id).0 same)
  where
    first : (xs : List Membership) → nat_eq (length xs) 0 ≡ false → (m : Membership) × Memᴰ m xs
    first [] e = cc e
    first (m ∷ xs) e = (m, Memᴰ.head refl)

check_group-HasMembers :
    (ms : List Membership) (n : PbxNode) → has_errors (check_group ms n) ≡ false → HasMembers ms n
unfolding check_group
check_group-HasMembers ms n h group =
    counted-Memᴰ n.id ms (and_false _ _ (report_if-false _ _ refl h) (grouped group))
  where
    grouped :
        (node_type n ≡ NodeType.ringgroup) ⊎ (node_type n ≡ NodeType.queue)
        → is_group (node_type n) ≡ true
    grouped (inl e) = ap is_group e
    grouped (inr e) = ap is_group e

pub all-HasMembers :
    (nodes : List PbxNode) (ms : List Membership)
    → has_errors (validate_groups_have_members nodes ms) ≡ false
    → All (HasMembers ms) nodes
unfolding validate_groups_have_members
all-HasMembers nodes ms h =
    each-All (check_group ms) (HasMembers ms) (check_group-HasMembers ms) nodes h

-- Where the groups pass their check, each ring group and each queue is the group of one of the
-- memberships.
pub validate_groups-HasMembers :
    (nodes : List PbxNode) (ms : List Membership) (n : PbxNode)
    → has_errors (validate_groups_have_members nodes ms) ≡ false
    → Memᴰ n nodes
    → (node_type n ≡ NodeType.ringgroup) ⊎ (node_type n ≡ NodeType.queue)
    → (m : Membership) × Memᴰ m ms × (m.group_id ≡ n.id)
validate_groups-HasMembers nodes ms n h here =
    All-mem (HasMembers ms) nodes (all-HasMembers nodes ms h) here
