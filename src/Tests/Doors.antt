-- ===== src/Tests/Doors.antt =====
-- The theorems on stored rooms at a room of two humans that starts.
use purecheckers.Base.{
  ℕ, ◌≡◌, refl, true, false, none, some, [], ◌∷◌, includes, all_of, any_of, filter,
}
use purecheckers.Game.{same_text}
use purecheckers.Rooms
use purecheckers.RoomState
use purecheckers.RoomState.{
  Status, Member, RoomState, Users, Context, waiting, starting, from_room, allows,
}
use purecheckers.RoomState.Normal
use purecheckers.RoomState.Normal.{normalize_room_state}
use purecheckers.RoomState.History.{IsLawful, accepted, History-IsLawful}
use purecheckers.RoomState.Stored.{normalize_room_state_again}

-- Opens the rules of stored rooms.
unfoldable stored_rooms : Unit {0}
unfolding includes all_of any_of filter same_text Rooms.can_start_room Rooms.every Rooms.some_member
    RoomState.transitions RoomState.as_room RoomState.allows_settings RoomState.added_invites
    RoomState.allows_invites RoomState.find_member RoomState.keeps_start RoomState.starts_ready
    RoomState.allows_run RoomState.allows Normal.valid_room_settings Normal.normalize_member
    Normal.normalize_members Normal.insert_id Normal.sort_ids Normal.valid_association
    Normal.distinct Normal.valid_room Normal.normalize_room_state
stored_rooms = tt

abbrev guests : Users
guests = record { known = λ _. true; is_bot = λ _. false; is_guest = λ _. true; coins = λ _. 0 }

abbrev ready_member : ℕ → Member
ready_member user = record {
  user_id = user;
  online = true;
  disconnect_deadline = none;
  ready = true;
  joined_via_invite = none;
}

abbrev ready_room : RoomState
ready_room = record {
  status = waiting;
  host_id = some 1;
  challenge = none;
  invites = none;
  settings = record {
    buy_in = 0;
    turn_timer = 60;
    is_private = false;
    allow_spectators = true;
    auto_ready = false;
  };
  origin = from_room;
  players = ready_member 1 ∷ ready_member 2 ∷ [];
  spectators = ready_member 3 ∷ [];
  start_attempt = none;
  game_id = none;
}

abbrev started_room : RoomState
started_room = record ready_room {
  status = starting;
  start_attempt = some (record { key = 4 ∷ []; players = 2 ∷ 1 ∷ [] });
}

abbrev quiet : Context
quiet = record { users = guests; run = none; room_id = 5; command = none }

room_starts : allows ready_room started_room quiet ≡ true
unfolding stored_rooms
room_starts = refl

abbrev unready_watcher : Member
unready_watcher = record (ready_member 3) { ready = false }

room_stored :
    normalize_room_state started_room guests
    ≡ some (record started_room { spectators = unready_watcher ∷ [] })
unfolding stored_rooms
room_stored = refl

steps_accepted : accepted ready_room ((quiet, started_room) ∷ []) ≡ true
unfolding accepted stored_rooms
steps_accepted = refl

History-IsLawful_example : IsLawful ready_room ((quiet, started_room) ∷ [])
History-IsLawful_example =
    History-IsLawful ready_room ((quiet, started_room) ∷ []) refl steps_accepted

normalize_room_state_again_example :
    normalize_room_state (record started_room { spectators = unready_watcher ∷ [] }) guests
    ≡ some (record started_room { spectators = unready_watcher ∷ [] })
normalize_room_state_again_example =
    normalize_room_state_again started_room
      (record started_room { spectators = unready_watcher ∷ [] }) guests room_stored
