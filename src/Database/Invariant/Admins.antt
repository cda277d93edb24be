-- ===== src/Database/Invariant/Admins.antt =====
-- The ids of the accounts and the active administrators, at `createUser` and `updateUser`.
use essentials_calls.Base.{
  ℕ, ◌+◌, ◌≤◌, String, ◌≡◌, refl, sym, ap, ◌∙◌, subst, Bool, true, false, not, ◌&&◌, ◌||◌, Option,
  none, some, List, [], ◌∷◌, leb, ◌==◌, ==_iff, arith, inl, inr, Bool-cases, if_split,
}
use essentials_calls.Base.Entries.{is_some}
use essentials_calls.Database.Store.{
  Role, Actor, UserRecord, PbxDatabase, ok, unless_ok, ok_injective, audit,
}
use essentials_calls.Database.Users.{
  UserPatch, is_active_admin, active_admins, patched, replace_user, find_user, update_found,
  update_user, write_user, is_actor, user_by_id, user_by_username, create_user, insert_user,
  is_username,
}
use essentials_calls.Generator.Values.{trim_start, trim_end}

-- No two accounts have the same id.
abbrev pub AreDistinct : List UserRecord → Type 0
AreDistinct [] = Unit
AreDistinct (u ∷ us) = (find_user u.id us ≡ none) × AreDistinct us

abbrev pub count_of : Bool → ℕ
count_of true = 1
count_of false = 0

active_admins-cons :
    (u : UserRecord) (us : List UserRecord)
    → active_admins (u ∷ us) ≡ count_of (is_active_admin u) + active_admins us
unfolding active_admins
active_admins-cons u us = elim (Bool-cases (is_active_admin u)) [
  | inl e ↦ rw e (omega arith)
  | inr e ↦ rw e (omega arith)
]

replace_absent :
    (id : String) (new : UserRecord) (us : List UserRecord)
    → find_user id us ≡ none
    → replace_user id new us ≡ us
unfolding find_user replace_user
replace_absent id new [] h = refl
replace_absent id new (u ∷ us) h = elim (Bool-cases (u.id == id)) [
  | inl e ↦ cc (rw e at h)
  | inr e ↦ rw e (ap (λ (vs : List UserRecord). u ∷ vs) (replace_absent id new us (rw e at h)))
]

-- The active administrators after the change of one account.
pub admins-replace :
    (id : String) (u new : UserRecord) (us : List UserRecord)
    → find_user id us ≡ some u
    → AreDistinct us
    → active_admins (replace_user id new us) + count_of (is_active_admin u)
      ≡ active_admins us + count_of (is_active_admin new)
unfolding find_user replace_user
admins-replace id u new [] h distinct = cc h
admins-replace id u new (v ∷ us) h distinct = elim (Bool-cases (v.id == id)) [
  | inl e ↦
      let same : v ≡ u = some_injective v u (rw e at h) in
      let absent : find_user id us ≡ none =
        subst (λ k. find_user k us ≡ none) ((==_iff v.id id).0 e) distinct.0 in
      let rest = replace_absent id new us absent in
      let here : active_admins (replace_user id new (v ∷ us)) ≡ active_admins (new ∷ us) =
        rw (e, rest) refl in
      omega (
        arith,
        here,
        active_admins-cons new us,
        active_admins-cons v us,
        ap (λ (x : UserRecord). count_of (is_active_admin x)) same,
      )
  | inr e ↦
      let ih = admins-replace id u new us (rw e at h) distinct.1 in
      let here : active_admins (replace_user id new (v ∷ us))
          ≡ active_admins (v ∷ replace_user id new us) =
        rw e refl in
      omega
        (arith, here, ih, active_admins-cons v us, active_admins-cons v (replace_user id new us))
]
  where
    some_injective : (a b : UserRecord) → some a ≡ some b → a ≡ b
    some_injective a b e = cc

find-replace :
    (k id : String) (new : UserRecord) (us : List UserRecord)
    → new.id ≡ id
    → find_user k us ≡ none
    → find_user k (replace_user id new us) ≡ none
unfolding find_user replace_user
find-replace k id new [] e h = refl
find-replace k id new (u ∷ us) e h =
    ground (arith, find-replace k id new us e, ==_iff u.id id, ==_iff u.id k, ==_iff new.id k)

replace_user-AreDistinct :
    (id : String) (new : UserRecord) (us : List UserRecord)
    → new.id ≡ id
    → AreDistinct us
    → AreDistinct (replace_user id new us)
unfolding replace_user
replace_user-AreDistinct id new [] e h = tt
replace_user-AreDistinct id new (u ∷ us) e h =
    let rest = replace_user-AreDistinct id new us e h.1 in
    if_split (λ (v : UserRecord). AreDistinct (v ∷ replace_user id new us)) (u.id == id) new u
      (λ same. (
        find-replace new.id id new us e
            (subst (λ k. find_user k us ≡ none) ((==_iff u.id id).0 same ∙ sym e) h.0),
        rest,
      ))
      (λ other. (find-replace u.id id new us e h.0, rest))

pub find_user-id :
    (id : String) (us : List UserRecord) (u : UserRecord) → find_user id us ≡ some u → u.id ≡ id
unfolding find_user
find_user-id id [] u h = cc h
find_user-id id (v ∷ us) u h = elim (Bool-cases (v.id == id)) [
  | inl e ↦
      ap (λ (x : UserRecord). x.id) (sym (some_injective v u (rw e at h))) ∙ (==_iff v.id id).0 e
  | inr e ↦ find_user-id id us u (rw e at h)
]
  where
    some_injective : (a b : UserRecord) → some a ≡ some b → a ≡ b
    some_injective a b e = cc

-- What an update of an account that succeeds found, and what it wrote.
pub updated :
    (now id : String) (patch : UserPatch) (actor : Actor) (d : PbxDatabase)
    (found : Option UserRecord) (out : UserRecord × PbxDatabase)
    → update_found now id patch actor d found ≡ ok out
    → (u : UserRecord) × (found ≡ some u)
      × ((is_actor actor.id id && (patched now patch u).disabled) ≡ false)
      × ((is_active_admin u
            && not (is_active_admin (patched now patch u))
            && leb (active_admins d.users) 1)
          ≡ false)
      × (write_user now id patch (patched now patch u) actor d ≡ out)
unfolding update_found
updated now id patch actor d none out h = cc h
updated now id patch actor d (some u) out h =
    let (own, h₁) = unless_ok (is_actor actor.id id && (patched now patch u).disabled) _ _ out h in
    let (last, h₂) =
      unless_ok
        (is_active_admin u
          && not (is_active_admin (patched now patch u))
          && leb (active_admins d.users) 1)
        _ _ out h₁ in
    (u, refl, own, last, ok_injective _ _ h₂)

still_one :
    (before after : ℕ) (was is : Bool)
    → after + count_of was ≡ before + count_of is
    → (was && not is && leb before 1) ≡ false
    → 1 ≤ before
    → 1 ≤ after
still_one before after true true e g h = omega (arith, e)
still_one before after true false e g h = ground (arith, e)
still_one before after false true e g h = omega (arith, e)
still_one before after false false e g h = omega (arith, e)

update_user-admins :
    (now id : String) (patch : UserPatch) (actor : Actor) (d : PbxDatabase)
    (out : UserRecord × PbxDatabase)
    → update_user now id patch actor d ≡ ok out
    → AreDistinct d.users
    → 1 ≤ active_admins d.users
    → 1 ≤ active_admins out.1.users
unfolding update_user user_by_id write_user audit
update_user-admins now id patch actor d out h distinct one =
    let (u, found, _, last, e) = updated now id patch actor d (user_by_id id d) out h in
    let new = patched now patch u in
    subst (λ (o : UserRecord × PbxDatabase). 1 ≤ active_admins o.1.users) e
      (still_one (active_admins d.users) (active_admins (replace_user id new d.users))
        (is_active_admin u) (is_active_admin new) (admins-replace id u new d.users found distinct)
        last one)

update_user-AreDistinct :
    (now id : String) (patch : UserPatch) (actor : Actor) (d : PbxDatabase)
    (out : UserRecord × PbxDatabase)
    → update_user now id patch actor d ≡ ok out
    → AreDistinct d.users
    → AreDistinct out.1.users
unfolding update_user user_by_id write_user audit
update_user-AreDistinct now id patch actor d out h distinct =
    let (u, found, _, _, e) = updated now id patch actor d (user_by_id id d) out h in
    subst (λ (o : UserRecord × PbxDatabase). AreDistinct o.1.users) e
      (replace_user-AreDistinct id (patched now patch u) d.users (find_user-id id d.users u found)
        distinct)

-- The accounts have distinct ids, and one of them is an administrator who is not disabled.
abbrev pub HasAdmin : PbxDatabase → Type 0
HasAdmin d = AreDistinct d.users × (1 ≤ active_admins d.users)

-- Whoever changes whichever account in whatever way, an active administrator is left.
pub update_user-HasAdmin :
    (now id : String) (patch : UserPatch) (actor : Actor) (d : PbxDatabase)
    (out : UserRecord × PbxDatabase)
    → update_user now id patch actor d ≡ ok out
    → HasAdmin d
    → HasAdmin out.1
update_user-HasAdmin now id patch actor d out h (distinct, one) = (
  update_user-AreDistinct now id patch actor d out h distinct,
  update_user-admins now id patch actor d out h distinct one,
)

no_such : (a b : Option UserRecord) → (is_some a || is_some b) ≡ false → a ≡ none
no_such none b h = refl
no_such (some u) b h = cc h

-- A new account has an id that no other has.
pub created :
    (now id username hash : String) (role : Role) (actor : Actor) (d : PbxDatabase)
    (out : UserRecord × PbxDatabase)
    → create_user now id username hash role actor d ≡ ok out
    → (user_by_id id d ≡ none)
      × (insert_user now id (trim_end (trim_start username)) hash role actor d ≡ out)
unfolding create_user
created now id username hash role actor d out h =
    let name = trim_end (trim_start username) in
    let (_, h₁) = unless_ok (not (is_username name)) _ _ out h in
    let (new, h₂) =
      unless_ok (is_some (user_by_id id d) || is_some (user_by_username name d)) _ _ out h₁ in
    (no_such _ _ new, ok_injective _ _ h₂)

pub create_user-HasAdmin :
    (now id username hash : String) (role : Role) (actor : Actor) (d : PbxDatabase)
    (out : UserRecord × PbxDatabase)
    → create_user now id username hash role actor d ≡ ok out
    → HasAdmin d
    → HasAdmin out.1
unfolding insert_user user_by_id audit
create_user-HasAdmin now id username hash role actor d out h (distinct, one) =
    let (new, e) = created now id username hash role actor d out h in
    let name = trim_end (trim_start username) in
    subst (λ (o : UserRecord × PbxDatabase). HasAdmin o.1) e
      (
        (new, distinct),
        omega
            (arith, one, active_admins-cons (insert_user now id name hash role actor d).0 d.users),
      )
