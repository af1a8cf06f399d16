-- ===== src/RoomState/Normal.antt =====
-- normalizeRoomState: which room states are accepted, and what of them is stored. `none` is an error.
use purecheckers.Base.{
  ℕ, Bool, true, false, not, ◌&&◌, ◌||◌, ltb, leb, ◌==◌, if◌then◌else◌, Option, none, some, List,
  [], ◌∷◌, map, length, includes, all_of, any_of, is_some,
}
use purecheckers.Game.{same_text}
use purecheckers.RoomState.Data.{
  Status, waiting, starting, playing, closed, from_room, Settings, Member, Invite, Attempt,
  RoomState, Users, member_ids, same_number, same_status, same_origin,
}

abbrev pub safe_id : ℕ → Bool
safe_id k = ltb 0 k && leb k 9007199254740991

unfoldable pub valid_room_settings : Settings → Bool
valid_room_settings s =
    leb s.buy_in 2147483647
    && (s.turn_timer == 0 || s.turn_timer == 30 || s.turn_timer == 60 || s.turn_timer == 90)
    && not (s.auto_ready && ltb 0 s.buy_in)

abbrev pub is_invited : Option Bool → Bool
is_invited none = false
is_invited (some flag) = flag

abbrev pub safe_deadline : Option ℕ → Bool
safe_deadline none = false
safe_deadline (some t) = safe_id t

-- `seen` has the members before this one.
unfoldable pub normalize_member : Users → Bool → List ℕ → Member → Option Member
normalize_member users spectator seen v =
    let bot = users.is_bot v.user_id in
    let online = bot || v.online in
    if not (safe_id v.user_id)
      || includes seen v.user_id
      || not (users.known v.user_id)
      || spectator && bot
      || (spectator || bot) && is_invited v.joined_via_invite
    then none
    else if not online && not (safe_deadline v.disconnect_deadline)
        || online && is_some v.disconnect_deadline
    then none
    else some (record v {
      online = online;
      ready = not spectator && (bot || v.ready);
      joined_via_invite = if spectator then none else v.joined_via_invite;
    })

abbrev pub prepend : Option Member → Option (List Member) → Option (List Member)
prepend none vs = none
prepend (some v) none = none
prepend (some v) (some vs) = some (v ∷ vs)

unfoldable pub normalize_members : Users → Bool → List ℕ → List Member → Option (List Member)
normalize_members users spectator seen [] = some []
normalize_members users spectator seen (v ∷ vs) =
    prepend (normalize_member users spectator seen v)
      (normalize_members users spectator (v.user_id ∷ seen) vs)

unfoldable pub insert_id : ℕ → List ℕ → List ℕ
insert_id x [] = x ∷ []
insert_id x (y ∷ ys) = if leb x y then x ∷ y ∷ ys else y ∷ insert_id x ys

unfoldable pub sort_ids : List ℕ → List ℕ
sort_ids [] = []
sort_ids (x ∷ xs) = insert_id x (sort_ids xs)

abbrev pub valid_host : Users → Status → Option ℕ → List Member → Bool
valid_host users status none players = same_status status closed
valid_host users status (some host) players =
    safe_id host
    && (same_status status closed
        || any_of (λ p. p.user_id == host && not (users.is_bot p.user_id)) players)

abbrev pub valid_attempt : Option Attempt → List Member → Bool
valid_attempt none players = true
valid_attempt (some a) players =
    ltb 0 (length a.key)
    && leb (length a.key) 100
    && length a.players == 2
    && same_text (sort_ids a.players) (sort_ids (member_ids players))

abbrev pub safe_game : Option ℕ → Bool
safe_game none = true
safe_game (some id) = safe_id id

unfoldable pub valid_association : Status → Option Attempt → Option ℕ → Bool
valid_association waiting attempt game = not (is_some attempt) && not (is_some game)
valid_association starting attempt game = is_some attempt && not (is_some game)
valid_association playing attempt game = is_some attempt && is_some game && safe_game game
valid_association closed attempt game = safe_game game

abbrev pub valid_challenge : RoomState → Option Invite → Bool
valid_challenge s none = true
valid_challenge s (some c) =
    safe_id c.user_id
    && safe_id c.expires_at
    && s.settings.is_private
    && s.settings.buy_in == 0
    && not s.settings.auto_ready
    && not s.settings.allow_spectators
    && same_origin s.origin from_room
    && (same_status s.status closed
        || all_of (λ p. same_number s.host_id (some p.user_id) || p.user_id == c.user_id) s.players
          && not (same_number s.host_id (some c.user_id)))

abbrev pub max_incoming_challenges : ℕ
max_incoming_challenges = 5

unfoldable pub distinct : List ℕ → Bool
distinct [] = true
distinct (x ∷ xs) = not (includes xs x) && distinct xs

abbrev pub valid_invites : RoomState → Option (List Invite) → Bool
valid_invites s none = true
valid_invites s (some invites) =
    not (is_some s.challenge)
    && leb (length invites) max_incoming_challenges
    && distinct (map (λ i. i.user_id) invites)
    && all_of
        (λ i.
          safe_id i.user_id && not (same_number s.host_id (some i.user_id)) && safe_id i.expires_at)
        invites

unfoldable pub valid_room : RoomState → Users → Bool
valid_room s users =
    valid_host users s.status s.host_id s.players
    && valid_attempt s.start_attempt s.players
    && valid_association s.status s.start_attempt s.game_id
    && valid_challenge s s.challenge
    && valid_invites s s.invites

abbrev pub checked_room : RoomState → Users → Option RoomState
checked_room s users = if valid_room s users then some s else none

abbrev pub with_spectators : RoomState → Users → Option (List Member) → Option RoomState
with_spectators s users none = none
with_spectators s users (some spectators) =
    checked_room (record s { spectators = spectators }) users

abbrev pub with_players : RoomState → Users → Option (List Member) → Option RoomState
with_players s users none = none
with_players s users (some players) =
    with_spectators (record s { players = players }) users
      (normalize_members users true (member_ids players) s.spectators)

unfoldable pub normalize_room_state : RoomState → Users → Option RoomState
normalize_room_state s users =
    if not (valid_room_settings s.settings) || ltb 2 (length s.players)
    then none
    else with_players s users (normalize_members users false [] s.players)
