-- ===== src/Status/Snapshot.antt =====
-- The entries of the snapshot.
use essentials_calls.Base.{
  String, ◌≡◌, refl, Bool, true, false, Option, none, some, List, [], ◌∷◌, ap, ◌∙◌, sym, any, inl,
  inr, Bool-cases, ==_iff, ◌==◌, if◌then◌else◌, if_split,
}
use essentials_calls.Model.{PbxNode}
use essentials_calls.Base.Entries.{is_some, lookup, lookup-set, lookup-set_other}
use essentials_calls.Status.{
  Availability, Activity, NodeStatus, plain_status, Statuses, add_if_missing, add_missing,
  drop_unknown, snapshot,
}

abbrev pub is_node : String → List PbxNode → Bool
is_node id nodes = any (λ n. n.id == id) nodes

abbrev pub has_entry : String → Statuses → Bool
has_entry id s = is_some (lookup id s)

clash : {A : Type 0} {x y : A} {a b : Bool} → a ≡ b → a ≡ false → b ≡ true → x ≡ y
clash e f g = cc (e, f, g)

lookup-drop_unknown :
    (nodes : List PbxNode) (id : String) (s : Statuses)
    → is_node id nodes ≡ true
    → lookup id (drop_unknown nodes s) ≡ lookup id s
unfolding lookup drop_unknown
lookup-drop_unknown nodes id [] h = refl
lookup-drop_unknown nodes id ((j, x) ∷ rest) h =
    let ih = lookup-drop_unknown nodes id rest h in
    if_split (λ l. lookup id l ≡ (if j == id then some x else lookup id rest)) (is_node j nodes)
      ((j, x) ∷ drop_unknown nodes rest) (drop_unknown nodes rest)
      (λ _. ap (λ o. if j == id then some x else o) ih)
      (λ out. elim (Bool-cases (j == id)) [
        | inl same ↦ clash (ap (λ i. is_node i nodes) ((==_iff j id).0 same)) out h
        | inr ne ↦ rw ne ih
      ])

lookup-dropped :
    (nodes : List PbxNode) (id : String) (s : Statuses)
    → is_node id nodes ≡ false
    → lookup id (drop_unknown nodes s) ≡ none
unfolding lookup drop_unknown
lookup-dropped nodes id [] h = refl
lookup-dropped nodes id ((j, x) ∷ rest) h =
    let ih = lookup-dropped nodes id rest h in
    if_split (λ l. lookup id l ≡ none) (is_node j nodes) ((j, x) ∷ drop_unknown nodes rest)
      (drop_unknown nodes rest)
      (λ kept. elim (Bool-cases (j == id)) [
        | inl same ↦ clash (sym (ap (λ i. is_node i nodes) ((==_iff j id).0 same))) h kept
        | inr ne ↦ rw ne ih
      ])
      (λ _. ih)

lookup-add_if_missing :
    (o : Option NodeStatus) (key id : String) (s : Statuses) (x : NodeStatus)
    → lookup key s ≡ o
    → lookup id s ≡ some x
    → lookup id (add_if_missing o key s) ≡ some x
lookup-add_if_missing (some old) key id s x e h = h
lookup-add_if_missing none key id s x e h =
    lookup-set_other key id (plain_status key Availability.unknown Activity.idle) s
      (λ same. not_none (sym e ∙ ap (λ i. lookup i s) same ∙ h))
    ∙ h
  where
    not_none : none ≡ some x → ⊥
    not_none q = cc q

entry-add_if_missing :
    (o : Option NodeStatus) (key : String) (s : Statuses)
    → lookup key s ≡ o
    → (x : NodeStatus) × (lookup key (add_if_missing o key s) ≡ some x)
entry-add_if_missing (some old) key s e = (old, e)
entry-add_if_missing none key s e =
    let fresh = plain_status key Availability.unknown Activity.idle in
    (fresh, lookup-set key fresh s)

lookup-add_missing :
    (nodes : List PbxNode) (id : String) (s : Statuses) (x : NodeStatus)
    → lookup id s ≡ some x
    → lookup id (add_missing nodes s) ≡ some x
unfolding add_missing
lookup-add_missing [] id s x h = h
lookup-add_missing (n ∷ nodes) id s x h =
    lookup-add_missing nodes id (add_if_missing (lookup n.id s) n.id s) x
      (lookup-add_if_missing (lookup n.id s) n.id id s x refl h)

-- Each node has an entry once the missing ones are added.
has_entry-add_missing :
    (nodes : List PbxNode) (id : String) (s : Statuses)
    → is_node id nodes ≡ true
    → has_entry id (add_missing nodes s) ≡ true
unfolding add_missing
has_entry-add_missing [] id s h = cc h
has_entry-add_missing (n ∷ nodes) id s h =
    let next = add_if_missing (lookup n.id s) n.id s in
    elim (Bool-cases (n.id == id)) [
      | inl same ↦
          let (x, there) = entry-add_if_missing (lookup n.id s) n.id s refl in
          let e : n.id ≡ id = (==_iff n.id id).0 same in
          ap is_some (lookup-add_missing nodes id next x (ap (λ i. lookup i next) (sym e) ∙ there))
      | inr differ ↦ has_entry-add_missing nodes id next (rw differ at h)
    ]

-- The snapshot has an entry for an id exactly where a node of the topology has that id, and it
-- keeps the status that such a node had.
pub lookup-snapshot :
    (nodes : List PbxNode) (id : String) (s : Statuses)
    → (has_entry id (snapshot nodes s) ≡ is_node id nodes)
      × ((x : NodeStatus)
          → is_node id nodes ≡ true
          → lookup id s ≡ some x
          → lookup id (snapshot nodes s) ≡ some x)
unfolding snapshot
lookup-snapshot nodes id s = (
  (elim (Bool-cases (is_node id nodes)) [
    | inl known ↦
        ap is_some (lookup-drop_unknown nodes id (add_missing nodes s) known)
        ∙ has_entry-add_missing nodes id s known
        ∙ sym known
    | inr out ↦ ap is_some (lookup-dropped nodes id (add_missing nodes s) out) ∙ sym out
  ]),
  λ x known h.
      lookup-drop_unknown nodes id (add_missing nodes s) known ∙ lookup-add_missing nodes id s x h,
)
