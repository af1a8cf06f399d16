-- ===== src/Rooms.antt =====
-- The rules of rooms in server/domain/roomRules.js: who may start a room or edit it, and what a departure
-- leaves. A member's `online` is false only where the source's is `false`.
pub mod Departure
pub mod Closing
pub mod Notices
use package.purecheckers.Base.{
  ℕ, ◌+◌, Bool, true, false, not, ◌&&◌, ◌||◌, ◌==◌, if◌then◌else◌, Option, none, some, List, [],
  ◌∷◌, ◌++◌, length, is_empty,
}

-- 'waiting', 'WAITING', 'PLAYING', 'CLOSED' and any other status.
pub data RoomStatus : Type 0 where
  waiting stored_waiting playing closed other : RoomStatus

pub record Member : Type 0 where
  pub user_id : ℕ
  pub username : List ℕ
  pub ready : Bool
  pub is_bot : Bool
  pub online : Bool

pub record Room : Type 0 where
  pub status : RoomStatus
  pub challenge : Bool
  pub auto_ready : Bool
  pub buy_in : ℕ
  pub players : List Member
  pub spectators : List Member
  pub host_id : ℕ
  pub host_name : List ℕ

abbrev pub is_waiting : RoomStatus → Bool
is_waiting waiting = true
is_waiting _ = false

abbrev pub is_any_waiting : RoomStatus → Bool
is_any_waiting waiting = true
is_any_waiting stored_waiting = true
is_any_waiting _ = false

unfoldable pub every : (Member → Bool) → List Member → Bool
every test [] = true
every test (p ∷ ps) = test p && every test ps

unfoldable pub some_member : (Member → Bool) → List Member → Bool
some_member test [] = false
some_member test (p ∷ ps) = test p || some_member test ps

unfoldable pub kept : (Member → Bool) → List Member → List Member
kept test [] = []
kept test (p ∷ ps) = if test p then p ∷ kept test ps else kept test ps

unfoldable pub can_edit_room_settings : Room → Bool
can_edit_room_settings r =
    is_any_waiting r.status
    && not r.challenge
    && every (λ p. not p.ready) r.players
    && (not r.auto_ready || length r.players == 1)

unfoldable pub reset_readiness : List Member → List Member
reset_readiness [] = []
reset_readiness (p ∷ ps) = record p { ready = p.is_bot } ∷ reset_readiness ps

abbrev pub is_user : ℕ → Member → Bool
is_user user p = p.user_id == user

abbrev pub is_other : ℕ → Member → Bool
is_other user p = not (p.user_id == user)

abbrev pub is_human : Member → Bool
is_human p = not p.is_bot

-- The host's place goes to the first human unless a human has it.
unfoldable pub with_host : Room → Member → List Member → Room
with_host r first humans =
    if not (some_member (is_user r.host_id) humans)
    then record r { host_id = first.user_id; host_name = first.username }
    else r

-- `true` says that the room is to be closed.
unfoldable pub remove_member : Room → ℕ → Room × Bool
remove_member r user =
    let was_player = some_member (is_user user) r.players in
    let left = record r {
      players = kept (is_other user) r.players;
      spectators = kept (is_other user) r.spectators;
    } in
    if r.challenge && was_player then (left, true) else elim (kept is_human left.players) [
      | [] ↦ (left, true)
      | first ∷ others ↦
          let hosted = with_host left first (first ∷ others) in
          (
            if was_player
                then record hosted { players = reset_readiness hosted.players }
                else hosted,
            false,
          )
    ]

abbrev pub is_room_player_ready : Room → Member → Bool
is_room_player_ready r p = p.is_bot || ((r.auto_ready || p.ready) && p.online)

unfoldable pub can_start_room : Room → Bool
can_start_room r =
    is_waiting r.status
    && length r.players == 2
    && some_member is_human r.players
    && every (is_room_player_ready r) r.players

unfoldable pub can_add_room_bot : Room → Bool
can_add_room_bot r =
    not r.challenge && is_waiting r.status && r.buy_in == 0 && length r.players == 1

pub data Reason : Type 0 where
  room_closed : Reason
  departed : ℕ → Reason

abbrev pub is_playing : RoomStatus → Bool
is_playing playing = true
is_playing _ = false

abbrev pub is_closed : RoomStatus → Bool
is_closed closed = true
is_closed _ = false

abbrev pub members_of : Room → List Member
members_of r = r.players ++ r.spectators

-- The reason for one member: the departure's own, which is never an empty text, for the user it names.
unfoldable pub reason_for : Option (ℕ × ℕ) → Bool → ℕ → Option Reason
reason_for none is_over user = if is_over then some room_closed else none
reason_for (some (gone, reason)) is_over user =
    if user == gone then some (departed reason) else if is_over then some room_closed else none

abbrev pub notice_to : ℕ → Option Reason → List (ℕ × Reason)
notice_to user none = []
notice_to user (some reason) = (user, reason) ∷ []

unfoldable pub notices_for :
    (ℕ → Bool) → List Member → Option (ℕ × ℕ) → Bool → List Member → List (ℕ × Reason)
notices_for is_bot_user members departure is_over [] = []
notices_for is_bot_user members departure is_over (p ∷ ps) =
    let rest = notices_for is_bot_user members departure is_over ps in
    if is_bot_user p.user_id || some_member (is_user p.user_id) members
    then rest
    else notice_to p.user_id (reason_for departure is_over p.user_id) ++ rest

-- `is_bot_user` stands for the map of users, where a user that is missing is no bot.
unfoldable pub room_departure_notices :
    (ℕ → Bool) → Room → Room → Option (ℕ × ℕ) → List (ℕ × Reason)
room_departure_notices is_bot_user before after departure =
    let is_over = is_closed after.status in
    if is_playing before.status && is_over
    then []
    else notices_for is_bot_user (if is_over then [] else members_of after) departure is_over
        (members_of before)
