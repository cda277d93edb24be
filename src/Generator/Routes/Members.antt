-- ===== src/Generator/Routes/Members.antt =====
-- Whom the generator dials for a ring group or a queue: `membersOf`.
use mathlib.Core.List.{Memᴰ}
use essentials_calls.Base.{
  String, ◌≡◌, refl, Bool, true, false, Option, none, some, List, [], ◌∷◌, ap, sym, ◌∙◌, subst,
  find, find_sound, All-mem, ==_iff, ◌==◌, if◌then◌else◌, if_either,
}
use essentials_calls.Model.{PbxNode, Properties, type_of, Membership, Topology, number_before}
use essentials_calls.Validator.Issue.{has_errors}
use essentials_calls.Validator.ScheduleNode.{Platform}
use essentials_calls.Validator.Nodes.{ValidationOptions}
use essentials_calls.Validator.Edges.{node_by_id}
use essentials_calls.Validator.Memberships.{is_extension}
use essentials_calls.Validator.Memberships.WellFormed.{Refers}
use essentials_calls.Validator.Topology.{validate_topology, validate_topology-WellFormed}
use essentials_calls.Generator.Routes.{
  ExtensionNode, extension_of, extension_found, Member, position_of, insert_member, sort_members,
  joined, members_of,
}

insert_member-new : (m : Member) (ms : List Member) → Memᴰ m (insert_member m ms)
unfolding insert_member
insert_member-new m [] = Memᴰ.head refl
insert_member-new m (n ∷ ms) =
    if_either (Memᴰ m) (number_before (position_of n) (position_of m)) (n ∷ insert_member m ms)
      (m ∷ n ∷ ms) (Memᴰ.tail (insert_member-new m ms)) (Memᴰ.head refl)

insert_member-old :
    (m : Member) (ms : List Member) {x : Member} → Memᴰ x ms → Memᴰ x (insert_member m ms)
unfolding insert_member
insert_member-old m [] h = elim h [ ]
insert_member-old m (n ∷ ms) {x} (Memᴰ.head e) =
    if_either (Memᴰ x) (number_before (position_of n) (position_of m)) (n ∷ insert_member m ms)
      (m ∷ n ∷ ms) (Memᴰ.head e) (Memᴰ.tail (Memᴰ.head e))
insert_member-old m (n ∷ ms) {x} (Memᴰ.tail h) =
    if_either (Memᴰ x) (number_before (position_of n) (position_of m)) (n ∷ insert_member m ms)
      (m ∷ n ∷ ms) (Memᴰ.tail (insert_member-old m ms h)) (Memᴰ.tail (Memᴰ.tail h))

-- Sorting drops no member.
sort_members-mem : (ms : List Member) {x : Member} → Memᴰ x ms → Memᴰ x (sort_members ms)
unfolding sort_members
sort_members-mem [] h = elim h [ ]
sort_members-mem (m ∷ ms) {x} (Memᴰ.head e) =
    subst (λ y. Memᴰ y (insert_member m (sort_members ms))) (sym e)
      (insert_member-new m (sort_members ms))
sort_members-mem (m ∷ ms) (Memᴰ.tail h) =
    insert_member-old m (sort_members ms) (sort_members-mem ms h)

abbrev member : Membership → ExtensionNode → Member
member m e = record { membership = m; ext = e }

abbrev named_by : List PbxNode → Membership → Option ExtensionNode
named_by nodes m = extension_found (find (λ n. n.id == m.member_id) nodes)

joined-mem :
    (nodes : List PbxNode) (id : String) (ms : List Membership) (m : Membership) (e : ExtensionNode)
    → Memᴰ m ms
    → m.group_id ≡ id
    → named_by nodes m ≡ some e
    → Memᴰ (member m e) (joined nodes id ms)
unfolding joined
joined-mem nodes id [] m e h same found = elim h [ ]
joined-mem nodes id (k ∷ ms) m e (Memᴰ.head q) same found =
    here (k.group_id == id) (named_by nodes k) (joined nodes id ms)
      ((==_iff k.group_id id).1 (ap (λ (x : Membership). x.group_id) (sym q) ∙ same))
      (ap (named_by nodes) (sym q) ∙ found)
  where
    some_injective : (a b : ExtensionNode) → some b ≡ some a → b ≡ a
    some_injective a b h = cc h

    here :
        (b : Bool) (o : Option ExtensionNode) (rest : List Member)
        → b ≡ true
        → o ≡ some e
        → Memᴰ
            (member m e)
            (if b then elim o [ some x ↦ member k x ∷ rest | none ↦ rest ] else rest)
    here false o rest b_is o_is = cc b_is
    here true none rest b_is o_is = cc o_is
    here true (some x) rest b_is o_is = Memᴰ.head (cc (q, some_injective e x o_is))
joined-mem nodes id (k ∷ ms) m e (Memᴰ.tail h) same found =
    later (k.group_id == id) (named_by nodes k) (joined nodes id ms)
      (joined-mem nodes id ms m e h same found)
  where
    later :
        (b : Bool) (o : Option ExtensionNode) (rest : List Member)
        → Memᴰ (member m e) rest
        → Memᴰ
            (member m e)
            (if b then elim o [ some x ↦ member k x ∷ rest | none ↦ rest ] else rest)
    later false o rest r = r
    later true none rest r = r
    later true (some x) rest r = Memᴰ.tail r

extension_given :
    (n : PbxNode) (q : Properties)
    → is_extension (type_of q) ≡ true
    → (e : ExtensionNode) × (extension_of n q ≡ some e) × (e.node ≡ n)
extension_given n (Properties.extension p) h = (record { node = n; properties = p }, refl, refl)
extension_given n (Properties.ivr p) h = cc h
extension_given n (Properties.ringgroup p) h = cc h
extension_given n (Properties.queue p) h = cc h
extension_given n (Properties.schedule p) h = cc h
extension_given n (Properties.voicemail p) h = cc h
extension_given n Properties.trunk h = cc h
extension_given n Properties.external h = cc h

-- In a topology without an error, each membership of a group is among the members for which the
-- generator writes the group, with the node of the topology whose id it names.
pub membership_is_dialled :
    (platform : Platform) (options : ValidationOptions) (t : Topology) (m : Membership)
    → has_errors (validate_topology platform options t) ≡ false
    → Memᴰ m t.memberships
    → (x : Member) × Memᴰ x (members_of t m.group_id)
      × (x.membership ≡ m)
      × Memᴰ x.ext.node t.nodes
      × (x.ext.node.id ≡ m.member_id)
unfolding members_of node_by_id
membership_is_dialled platform options t m fine h =
    let formed = validate_topology-WellFormed platform options t fine in
    let (n, found, kind) =
      All-mem (λ (k : Membership). Refers is_extension t.nodes k.member_id) t.memberships
        formed.memberships.members h in
    let (e, given, is) = extension_given n n.properties kind in
    let (there, same) = find_sound (λ x. x.id == m.member_id) t.nodes found in
    (
      member m e,
      sort_members-mem (joined t.nodes m.group_id t.memberships) (
          joined-mem t.nodes m.group_id t.memberships m e h refl
            (ap extension_found found ∙ given)),
      refl,
      subst (λ (y : PbxNode). Memᴰ y t.nodes) (sym is) there,
      ap (λ (y : PbxNode). y.id) is ∙ (==_iff n.id m.member_id).0 same,
    )
