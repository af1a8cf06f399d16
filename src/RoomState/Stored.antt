-- ===== src/RoomState/Stored.antt =====
-- What normalizeRoomState stores, it accepts again and stores the same.
use purecheckers.Base.{
  ℕ, ◌≡◌, refl, ap, sym, subst, ◌∙◌, if_ind, Bool, true, false, not, ◌&&◌, ◌||◌, ltb, if◌then◌else◌,
  Option, none, some, List, [], ◌∷◌, length, arith, includes, is_some,
}
use purecheckers.RoomState.{Member, RoomState, Users, member_ids}
use purecheckers.RoomState.Normal.{
  safe_id, safe_deadline, is_invited, normalize_member, normalize_members, prepend, with_spectators,
  with_players, valid_room, valid_room_settings, normalize_room_state,
}

some_eq : {A : Type 0} (a b : A) → some a ≡ some b → a ≡ b
some_eq a b e = ap (λ z. elim z [ some x ↦ x | none ↦ a ]) e

abbrev Again : Users → Bool → List ℕ → Member → Option Member → Type 0
Again users spectator seen v none = Unit {0}
Again users spectator seen v (some p) =
    (p.user_id ≡ v.user_id) × (normalize_member users spectator seen p ≡ some p)

or_again : (b c : Bool) → (b || (b || c)) ≡ (b || c)
or_again true c = refl
or_again false c = refl

ready_again : (sp b c : Bool) → (not sp && (b || (not sp && (b || c)))) ≡ (not sp && (b || c))
ready_again true b c = refl
ready_again false b c = or_again b c

joined_again :
    (sp : Bool) (j : Option Bool)
    → (if sp then none else (if sp then none else j)) ≡ (if sp then none else j)
joined_again true j = refl
joined_again false j = refl

guard_again :
    (x y z sp b : Bool) (j : Option Bool)
    → (x || y || z || sp && b || (sp || b) && is_invited j) ≡ false
    → (x || y || z || sp && b || (sp || b) && is_invited (if sp then none else j)) ≡ false
guard_again x y z true b j h = ground (arith, h)
guard_again x y z false b j h = h

member-Again :
    (users : Users) (spectator : Bool) (seen : List ℕ) (v : Member)
    → Again users spectator seen v (normalize_member users spectator seen v)
unfolding normalize_member
member-Again users spectator seen v =
    let bot = users.is_bot v.user_id in
    let online = bot || v.online in
    if_ind {A = Option Member} (Again users spectator seen v)
      (not (safe_id v.user_id)
        || includes seen v.user_id
        || not (users.known v.user_id)
        || spectator && bot
        || (spectator || bot) && is_invited v.joined_via_invite)
      (λ _. tt)
      (λ a.
        if_ind {A = Option Member} (Again users spectator seen v)
          (not online && not (safe_deadline v.disconnect_deadline)
            || online && is_some v.disconnect_deadline)
          (λ _. tt)
          (λ b. (
            refl,
            rw
                (
                  guard_again (not (safe_id v.user_id)) (includes seen v.user_id)
                      (not (users.known v.user_id)) spectator bot v.joined_via_invite a,
                  or_again bot v.online,
                  b,
                  ready_again spectator bot v.ready,
                  joined_again spectator v.joined_via_invite,
                  normalize_member,
                )
                refl,
          )))

abbrev AllAgain : Users → Bool → List ℕ → List Member → Option (List Member) → Type 0
AllAgain users spectator seen vs none = Unit {0}
AllAgain users spectator seen vs (some ps) =
    (member_ids ps ≡ member_ids vs) × (normalize_members users spectator seen ps ≡ some ps)

prepend-AllAgain :
    (users : Users) (spectator : Bool) (seen : List ℕ) (v : Member) (vs : List Member)
    (o : Option Member) (os : Option (List Member))
    → Again users spectator seen v o
    → AllAgain users spectator (v.user_id ∷ seen) vs os
    → AllAgain users spectator seen (v ∷ vs) (prepend o os)
unfolding normalize_members
prepend-AllAgain users spectator seen v vs none os a b = tt
prepend-AllAgain users spectator seen v vs (some p) none a b = tt
prepend-AllAgain users spectator seen v vs (some p) (some ps) a b = (
  ap (λ z. z ∷ member_ids ps) a.0 ∙ ap (λ z. v.user_id ∷ z) b.0,
  ap (λ z. prepend z (normalize_members users spectator (p.user_id ∷ seen) ps)) a.1
      ∙ ap (λ z. prepend (some p) (normalize_members users spectator (z ∷ seen) ps)) a.0
      ∙ ap (prepend (some p)) b.1,
)

members-AllAgain :
    (users : Users) (spectator : Bool) (seen : List ℕ) (vs : List Member)
    → AllAgain users spectator seen vs (normalize_members users spectator seen vs)
unfolding normalize_members
members-AllAgain users spectator seen [] = (refl, refl)
members-AllAgain users spectator seen (v ∷ vs) =
    prepend-AllAgain users spectator seen v vs (normalize_member users spectator seen v)
      (normalize_members users spectator (v.user_id ∷ seen) vs)
      (member-Again users spectator seen v) (members-AllAgain users spectator (v.user_id ∷ seen) vs)

abbrev Stored : Users → Option RoomState → Type 0
Stored users none = Unit {0}
Stored users (some t) = normalize_room_state t users ≡ some t

spectators-Stored :
    (s : RoomState) (users : Users) (o : Option (List Member))
    → AllAgain users true (member_ids s.players) s.spectators o
    → normalize_members users false [] s.players ≡ some s.players
    → (not (valid_room_settings s.settings) || ltb 2 (length s.players)) ≡ false
    → Stored users (with_spectators s users o)
unfolding normalize_room_state
spectators-Stored s users none a p g = tt
spectators-Stored s users (some ws) a p g =
    if_ind {A = Option RoomState} (Stored users) (valid_room (record s { spectators = ws }) users)
      (λ v. rw (g, p, a.1, v) refl) (λ _. tt)

length-member_ids : (ps : List Member) → length (member_ids ps) ≡ length ps
length-member_ids [] = refl
length-member_ids (p ∷ ps) = omega (arith, length-member_ids ps)

same_length : (vs ps : List Member) → member_ids vs ≡ member_ids ps → length vs ≡ length ps
same_length vs ps e = sym (length-member_ids vs) ∙ ap length e ∙ length-member_ids ps

players-Stored :
    (s : RoomState) (users : Users) (o : Option (List Member))
    → AllAgain users false [] s.players o
    → (not (valid_room_settings s.settings) || ltb 2 (length s.players)) ≡ false
    → Stored users (with_players s users o)
players-Stored s users none a g = tt
players-Stored s users (some ps) a g =
    let t = record s { players = ps } in
    spectators-Stored t users (normalize_members users true (member_ids ps) s.spectators)
      (members-AllAgain users true (member_ids ps) s.spectators) a.1
      (sym (
          ap (λ n. not (valid_room_settings s.settings) || ltb 2 n)
            (same_length s.players ps (sym a.0)))
        ∙ g)

-- What normalizeRoomState returns it takes again, and returns the same.
pub normalize_room_state_again :
    (s t : RoomState) (users : Users)
    → normalize_room_state s users ≡ some t
    → normalize_room_state t users ≡ some t
unfolding normalize_room_state
normalize_room_state_again s t users e = subst (Stored users) e (
    if_ind {A = Option RoomState} (Stored users)
      (not (valid_room_settings s.settings) || ltb 2 (length s.players)) (λ _. tt)
      (λ g.
        players-Stored s users (normalize_members users false [] s.players)
          (members-AllAgain users false [] s.players) g))
