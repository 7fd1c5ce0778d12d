-- ===== src/Account/Access/Roster.antt =====
-- The members of a client, as its methods leave them.
use notai_api.Account.Client.{add_member, is_member, remove_member, without_first}
use notai_api.Account.Types.{Client}
use notai_api.Base.{
  ==_iff, ==_refl, Bool-cases, List, [], arith, false, inl, inr, true, ◌++◌, ◌==◌, ◌∷◌, ◌≡◌,
}
use notai_api.Base.Values.{Time, Uuid}

pub is_member-append :
    (i j : Uuid) (xs : List Uuid) → is_member i xs ≡ true → is_member i (xs ++ (j ∷ [])) ≡ true
is_member-append i j [] h = ground arith
is_member-append i j (x ∷ xs) h = ground (arith, is_member-append i j xs)

pub is_member-last : (j : Uuid) (xs : List Uuid) → is_member j (xs ++ (j ∷ [])) ≡ true
is_member-last j [] = ground (arith, ==_refl j)
is_member-last j (x ∷ xs) = ground (arith, is_member-last j xs)

pub is_member-without_first :
    (i j : Uuid) (xs : List Uuid)
    → (i == j) ≡ false
    → is_member i xs ≡ true
    → is_member i (without_first j xs) ≡ true
unfolding without_first
is_member-without_first i j [] e h = h
is_member-without_first i j (x ∷ xs) e h =
    ground (arith, is_member-without_first i j xs, ==_iff x i, ==_iff x j, ==_iff i j)

pub add_member-id :
    (j : Uuid) (now : Time) (eid : Uuid) (c : Client) → (add_member j now eid c).0.id ≡ c.id
unfolding add_member
add_member-id j now eid c = ground arith

pub add_member-keeps :
    (i j : Uuid) (now : Time) (eid : Uuid) (c : Client)
    → is_member i c.member_ids ≡ true
    → is_member i (add_member j now eid c).0.member_ids ≡ true
unfolding add_member
add_member-keeps i j now eid c h = elim (Bool-cases (is_member j c.member_ids)) [
  | inl e ↦ rw e h
  | inr e ↦ rw e (is_member-append i j c.member_ids h)
]

pub add_member-joins :
    (j : Uuid) (now : Time) (eid : Uuid) (c : Client)
    → is_member j (add_member j now eid c).0.member_ids ≡ true
unfolding add_member
add_member-joins j now eid c = elim (Bool-cases (is_member j c.member_ids)) [
  | inl e ↦ rw e e
  | inr e ↦ rw e (is_member-last j c.member_ids)
]

pub remove_member-id :
    (j : Uuid) (now : Time) (eid : Uuid) (c : Client) → (remove_member j now eid c).0.id ≡ c.id
unfolding remove_member
remove_member-id j now eid c = ground arith

pub remove_member-keeps :
    (i j : Uuid) (now : Time) (eid : Uuid) (c : Client)
    → (i == j) ≡ false
    → is_member i c.member_ids ≡ true
    → is_member i (remove_member j now eid c).0.member_ids ≡ true
unfolding remove_member
remove_member-keeps i j now eid c e h = elim (Bool-cases (is_member j c.member_ids)) [
  | inl m ↦ rw m (is_member-without_first i j c.member_ids e h)
  | inr m ↦ rw m h
]
