-- ===== src/Rooms/Notices.antt =====
-- Who is told that a room is left or closed.
use purecheckers.Base.{
  ℕ, ◌≡◌, refl, sym, ap, subst, inl, inr, ◌↔◌, Bool, false, ◌&&◌, ◌||◌, Bool-cases, Option, none,
  some, List, [], ◌∷◌, ◌++◌, ◌∈◌, if◌then◌else◌, mem-append_right, append-mem,
}
use purecheckers.Rooms.{
  Member, Room, Reason, some_member, is_user, is_closed, is_playing, members_of, reason_for,
  notice_to, notices_for, room_departure_notices,
}

module _ (is_bot_user : ℕ → Bool) (members : List Member) (departure : Option (ℕ × ℕ))
    (is_over : Bool) where
  -- `p` is told `reason`: no bot, no longer a member, and with a reason.
  unfoldable pub IsTold : ℕ → Reason → Member → Type 0
  IsTold user reason p =
      (p.user_id ≡ user)
      × ((is_bot_user p.user_id || some_member (is_user p.user_id) members) ≡ false)
      × (reason_for departure is_over p.user_id ≡ some reason)

  notice-reason :
      (user to : ℕ) (reason : Reason) (o : Option Reason)
      → (user, reason) ∈ notice_to to o
      → (to ≡ user) × (o ≡ some reason)
  notice-reason user to reason none h = absurd h
  notice-reason user to reason (some r) (inl e) =
      (sym (ap (λ z. z.0) e), ap some (sym (ap (λ z. z.1) e)))
  notice-reason user to reason (some r) (inr h) = absurd h

  notices-IsTold :
      (ps : List Member) (user : ℕ) (reason : Reason)
      → (user, reason) ∈ notices_for is_bot_user members departure is_over ps
      → (p : Member) × (p ∈ ps) × IsTold user reason p
  unfolding notices_for IsTold
  notices-IsTold [] user reason h = absurd h
  notices-IsTold (q ∷ ps) user reason h =
      let rest = notices_for is_bot_user members departure is_over ps in
      let mine = notice_to q.user_id (reason_for departure is_over q.user_id) in
      elim (Bool-cases (is_bot_user q.user_id || some_member (is_user q.user_id) members)) [
        | inl t ↦
            let k = subst (λ z. (user, reason) ∈ (if z then rest else mine ++ rest)) t h in
            let (p, m, told) = notices-IsTold ps user reason k in (p, inr m, told)
        | inr t ↦
            let k = subst (λ z. (user, reason) ∈ (if z then rest else mine ++ rest)) t h in
            elim (append-mem (user, reason) mine rest k) [
              | inl own ↦
                  let (e, o) =
                    notice-reason user q.user_id reason (reason_for departure is_over q.user_id)
                      own in
                  (q, inl refl, (e, t, o))
              | inr later ↦
                  let (p, m, told) = notices-IsTold ps user reason later in (p, inr m, told)
            ]
      ]

  IsTold-notices :
      (ps : List Member) (user : ℕ) (reason : Reason) (p : Member)
      → p ∈ ps
      → IsTold user reason p
      → (user, reason) ∈ notices_for is_bot_user members departure is_over ps
  unfolding notices_for IsTold
  IsTold-notices [] user reason p m told = absurd m
  IsTold-notices (q ∷ ps) user reason p (inl same) told =
      let (e, t, o) = subst (λ z. IsTold user reason z) same told in
      rw (t, o) (inl (ap (λ z. (z, reason)) (sym e)))
  IsTold-notices (q ∷ ps) user reason p (inr m) told =
      let rest = notices_for is_bot_user members departure is_over ps in
      let k = IsTold-notices ps user reason p m told in
      elim (Bool-cases (is_bot_user q.user_id || some_member (is_user q.user_id) members)) [
        | inl t ↦ rw t k
        | inr t ↦ rw t (
            mem-append_right (user, reason)
              (notice_to q.user_id (reason_for departure is_over q.user_id)) rest k)
      ]

-- When the change is not the closing of a room whose game was played, a user is sent a notice exactly
-- when the user was a member, is no bot, is no member of an open room after the change, and has that
-- reason: the departure's own for the one who departed, otherwise that the room is closed.
pub room_departure_notices_iff :
    (is_bot_user : ℕ → Bool) (before after : Room) (departure : Option (ℕ × ℕ)) (user : ℕ)
    (reason : Reason)
    → (is_playing before.status && is_closed after.status) ≡ false
    → ((user, reason) ∈ room_departure_notices is_bot_user before after departure) ↔ (
        (p : Member) × (p ∈ members_of before)
        × IsTold is_bot_user
            (if is_closed after.status then [] else members_of after)
            departure
            (is_closed after.status)
            user
            reason
            p)
unfolding room_departure_notices
room_departure_notices_iff is_bot_user before after departure user reason h =
    let over = is_closed after.status in
    let members = if over then [] else members_of after in
    rw (h, room_departure_notices)
      (
        notices-IsTold is_bot_user members departure over (members_of before) user reason,
        λ (p, m, told).
            IsTold-notices is_bot_user members departure over (members_of before) user reason p m
              told,
      )
