-- ===== src/RoomState/Allowed.antt =====
-- What an accepted transition of a room keeps.
use purecheckers.Base.{◌≡◌, refl, ap, ◌∙◌, true, Option, none, some, List, [], ◌∷◌, arith, any_of}
use purecheckers.RoomState.{
  Origin, from_room, from_quickplay, from_bot, Member, Invite, RoomState, Context, member_ids,
  same_status, same_origin, same_members, same_challenge, transitions, allows, keeps_start,
  starts_ready,
}

origin_eq : (a b : Origin) → same_origin a b ≡ true → b ≡ a
origin_eq from_room from_room h = refl
origin_eq from_room from_quickplay h = absurd (ground (arith, h))
origin_eq from_room from_bot h = absurd (ground (arith, h))
origin_eq from_quickplay from_room h = absurd (ground (arith, h))
origin_eq from_quickplay from_quickplay h = refl
origin_eq from_quickplay from_bot h = absurd (ground (arith, h))
origin_eq from_bot from_room h = absurd (ground (arith, h))
origin_eq from_bot from_quickplay h = absurd (ground (arith, h))
origin_eq from_bot from_bot h = refl

challenge_eq : (a b : Option Invite) → same_challenge a b ≡ true → b ≡ a
challenge_eq none none h = refl
challenge_eq none (some b) h = absurd (ground (arith, h))
challenge_eq (some a) none h = absurd (ground (arith, h))
challenge_eq (some a) (some b) h =
    let user : b.user_id ≡ a.user_id = ground (arith, h) in
    let expiry : b.expires_at ≡ a.expires_at = ground (arith, h) in
    ap (λ u. some (record { user_id = u; expires_at = b.expires_at })) user
    ∙ ap (λ t. some (record { user_id = a.user_id; expires_at = t })) expiry

pub members-ids : (xs bs : List Member) → same_members xs bs ≡ true → member_ids xs ≡ member_ids bs
members-ids [] [] h = refl
members-ids [] (b ∷ bs) h = absurd (ground (arith, h))
members-ids (a ∷ xs) [] h = absurd (ground (arith, h))
members-ids (a ∷ xs) (b ∷ bs) h =
    let head : a.user_id ≡ b.user_id = ground (arith, h) in
    let rest : same_members xs bs ≡ true = ground (arith, h) in
    ap (λ z. z ∷ member_ids xs) head ∙ ap (λ z. b.user_id ∷ z) (members-ids xs bs rest)

-- The parts of an accepted transition that a history needs.
pub record Allowed (t u : RoomState) (ctx : Context) : Type 0 where
  pub by_table : any_of (same_status u.status) (transitions t.status) ≡ true
  pub origin : u.origin ≡ t.origin
  pub challenge : u.challenge ≡ t.challenge
  pub keeps : keeps_start t u ≡ true
  pub ready : starts_ready t u ctx ≡ true

pub allows-Allowed : (t u : RoomState) (ctx : Context) → allows t u ctx ≡ true → Allowed t u ctx
unfolding allows
allows-Allowed t u ctx h = record {
  by_table = ground (arith, h);
  origin = origin_eq t.origin u.origin (ground (arith, h));
  challenge = challenge_eq t.challenge u.challenge (ground (arith, h));
  keeps = ground (arith, h);
  ready = ground (arith, h);
}
