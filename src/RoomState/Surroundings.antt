-- ===== src/RoomState/Surroundings.antt =====
-- What a transition of a room is judged by: the run of its game, the command, and the rules of rooms.
use purecheckers.Base.{ℕ, Bool, Option, none, some, List, [], ◌∷◌, map, is_some}
use purecheckers.Rooms
use purecheckers.RoomState.Data.{
  RoomState, Users, Member, Status, waiting, starting, playing, closed,
}

pub data RunStatus : Type 0 where
  open_run aborted_run other_run : RunStatus

-- What is read of the run of a room's game.
pub record Run : Type 0 where
  pub id : ℕ
  pub room_id : Option ℕ
  pub key : List ℕ
  pub red_player_id : ℕ
  pub black_player_id : ℕ
  pub status : RunStatus
  pub started : Bool
  pub game_over : Bool
  pub has_moves : Bool

pub data Payload : Type 0 where
  room_settings room_invite_decline other_payload : Payload
  room_invite : Option ℕ → Payload

pub record Command : Type 0 where
  pub user_id : ℕ
  pub payload : Payload

pub record Context : Type 0 where
  pub users : Users
  pub run : Option Run
  pub room_id : ℕ
  pub command : Option Command

unfoldable pub transitions : Status → List Status
transitions waiting = waiting ∷ starting ∷ closed ∷ []
transitions starting = starting ∷ waiting ∷ playing ∷ closed ∷ []
transitions playing = playing ∷ waiting ∷ closed ∷ []
transitions closed = []

abbrev pub stored_status : Status → Rooms.RoomStatus
stored_status waiting = Rooms.stored_waiting
stored_status starting = Rooms.other
stored_status playing = Rooms.playing
stored_status closed = Rooms.closed

abbrev pub as_member : (ℕ → Bool) → Member → Rooms.Member
as_member is_bot p = record {
  user_id = p.user_id;
  username = [];
  ready = p.ready;
  is_bot = is_bot p.user_id;
  online = p.online;
}

abbrev pub host_or_zero : Option ℕ → ℕ
host_or_zero none = 0
host_or_zero (some host) = host

-- The room that the rules of rooms read.
unfoldable pub as_room : (ℕ → Bool) → Rooms.RoomStatus → RoomState → Rooms.Room
as_room is_bot status s = record {
  status = status;
  challenge = is_some s.challenge;
  auto_ready = s.settings.auto_ready;
  buy_in = s.settings.buy_in;
  players = map (as_member is_bot) s.players;
  spectators = map (as_member is_bot) s.spectators;
  host_id = host_or_zero s.host_id;
  host_name = [];
}
