-- ===== src/Core/Apply/Toggle.antt =====
-- `apply_reaction`: who is recorded under which emoji, and that lists of users stay non-empty and
-- without repetition.
use octo_doc.Base.{
  String, Bool, true, false, not, ◌&&◌, List, [], ◌∷◌, ◌++◌, Option, none, some, ◌≡◌, ◌≢◌, refl,
  ◌==◌, eq_iff, arith, inl, inr, member, member-append, Distinct, Bool-cases, if◌then◌else◌,
}
use octo_doc.Base.Dict.{
  lookup, lookup-insert, lookup-delete, AllValues, insert-AllValues, delete-AllValues,
  lookup-AllValues,
}
use octo_doc.Core.Types.{Reactions}
use octo_doc.Core.Apply.{users_of, remove_first, put_users, apply_reaction}

abbrev pub has_reacted : Reactions → String → String → Bool
has_reacted r emoji by = member by (users_of r emoji)

-- a list of users as a fold keeps it: somebody is in it, and nobody twice
pub record IsUsers (users : List String) : Type 0 where
  pub nonempty : users ≢ []
  pub distinct : Distinct users

abbrev pub IsReactions : Reactions → Type 0
IsReactions = AllValues IsUsers

member-remove_first :
    (k by : String) (users : List String)
    → Distinct users
    → member k (remove_first by users) ≡ (member k users && not (by == k))
unfolding remove_first
member-remove_first k by [] d = refl
member-remove_first k by (u ∷ users) d =
    ground (arith, member-remove_first k by users d.1, eq_iff u k, eq_iff u by, eq_iff by k, d.0)

remove_first-Distinct :
    (by : String) (users : List String) → Distinct users → Distinct (remove_first by users)
unfolding remove_first
remove_first-Distinct by [] d = tt
remove_first-Distinct by (u ∷ users) d = elim (Bool-cases (u == by)) [
  | inl p ↦ rw (p, remove_first) d.1
  | inr p ↦
      rw (p, remove_first)
        (
          ground (arith, member-remove_first u by users d.1, d.0),
          remove_first-Distinct by users d.1,
        )
]

append-Distinct :
    (by : String) (users : List String)
    → Distinct users
    → member by users ≡ false
    → Distinct (users ++ by ∷ [])
append-Distinct by [] d h = (refl, tt)
append-Distinct by (u ∷ users) d h = (
  ground (arith, member-append u users (by ∷ []), eq_iff u by, eq_iff by u, d.0),
  append-Distinct by users d.1 (ground arith),
)

append-ne-nil : (by : String) (users : List String) → users ++ by ∷ [] ≢ []
append-ne-nil by [] = λ e. cc
append-ne-nil by (u ∷ users) = λ e. cc

users_of-Distinct : (r : Reactions) (emoji : String) → IsReactions r → Distinct (users_of r emoji)
users_of-Distinct r emoji h = found (lookup emoji r) refl
  where
    found :
        (o : Option (List String))
        → lookup emoji r ≡ o
        → Distinct (elim o [ none ↦ [] | some users ↦ users ])
    found none p = tt
    found (some users) p = (lookup-AllValues IsUsers emoji r users h p).distinct

added : String → List String → List String
added by users = if member by users then users else users ++ by ∷ []

added-IsUsers : (by : String) (users : List String) → Distinct users → IsUsers (added by users)
unfolding added
added-IsUsers by users d = elim (Bool-cases (member by users)) [
  | inl p ↦ rw p (record { nonempty = λ e. ground arith; distinct = d })
  | inr p ↦
      rw p (record { nonempty = append-ne-nil by users; distinct = append-Distinct by users d p })
]

put_users-IsReactions :
    (r : Reactions) (emoji : String) (users : List String)
    → IsReactions r
    → Distinct users
    → IsReactions (put_users r emoji users)
unfolding put_users
put_users-IsReactions r emoji [] h d = delete-AllValues IsUsers emoji r h
put_users-IsReactions r emoji (u ∷ users) h d =
    insert-AllValues IsUsers emoji (u ∷ users) r (record { nonempty = λ e. cc; distinct = d }) h

taken : String → List String → List String
taken by users = if member by users then remove_first by users else users

taken-Distinct : (by : String) (users : List String) → Distinct users → Distinct (taken by users)
unfolding taken
taken-Distinct by users d = elim (Bool-cases (member by users)) [
  | inl p ↦ rw p (remove_first-Distinct by users d)
  | inr p ↦ rw p d
]

-- Both directions keep every list of users non-empty and without repetition.
pub apply_reaction-IsReactions :
    (r : Reactions) (emoji by : String) (add : Bool)
    → IsReactions r
    → IsReactions (apply_reaction r emoji by add)
unfolding apply_reaction added taken
apply_reaction-IsReactions r emoji by true h =
    insert-AllValues IsUsers emoji (added by (users_of r emoji)) r
      (added-IsUsers by (users_of r emoji) (users_of-Distinct r emoji h)) h
apply_reaction-IsReactions r emoji by false h =
    put_users-IsReactions r emoji (taken by (users_of r emoji)) h
      (taken-Distinct by (users_of r emoji) (users_of-Distinct r emoji h))

users_of-put_users :
    (r : Reactions) (emoji k : String) (users : List String)
    → users_of (put_users r emoji users) k ≡ (if emoji == k then users else users_of r k)
unfolding put_users
users_of-put_users r emoji k [] = ground (arith, lookup-delete emoji k r)
users_of-put_users r emoji k (u ∷ users) = ground (arith, lookup-insert emoji k (u ∷ users) r)

-- On reactions that list somebody and nobody twice under each emoji, adding and removing set whether
-- the user has reacted with the emoji; every other pair of an emoji and a user is as it was.
pub has_reacted-apply_reaction :
    (r : Reactions) (emoji by : String) (add : Bool) (k who : String)
    → IsReactions r
    → has_reacted (apply_reaction r emoji by add) k who
      ≡ (if emoji == k && by == who then add else has_reacted r k who)
unfolding apply_reaction
has_reacted-apply_reaction r emoji by true k who h = ground (
  arith,
  lookup-insert emoji k
      (if member by (users_of r emoji) then users_of r emoji else users_of r emoji ++ by ∷ []) r,
  member-append who (users_of r emoji) (by ∷ []),
  eq_iff emoji k,
  eq_iff by who,
)
has_reacted-apply_reaction r emoji by false k who h = ground (
  arith,
  users_of-put_users r emoji k (
      if member by (users_of r emoji)
      then remove_first by (users_of r emoji)
      else users_of r emoji),
  member-remove_first who by (users_of r emoji) (users_of-Distinct r emoji h),
  eq_iff emoji k,
  eq_iff by who,
)
