-- ===== src/Sessions/Data.antt =====
-- The data of server/domain/sessions.js: phases and their transitions, sessions, and the functions of one
-- session.
use purecheckers.Base.{
  ℕ, Bool, true, false, ◌&&◌, ◌||◌, ltb, ◌==◌, if◌then◌else◌, Option, none, some, List, [], ◌∷◌,
  ◌++◌,
}
use purecheckers.Board.{Color}

pub data Phase : Type 0 where
  idle in_room matchmaking in_game spectating : Phase

-- `VALID_TRANSITIONS[from].includes(to)`.
abbrev pub allowed : Phase → Phase → Bool
allowed idle in_room = true
allowed idle matchmaking = true
allowed idle in_game = true
allowed idle spectating = true
allowed in_room in_game = true
allowed in_room idle = true
allowed matchmaking in_room = true
allowed matchmaking in_game = true
allowed matchmaking idle = true
allowed in_game idle = true
allowed spectating idle = true
allowed spectating spectating = true
allowed _ _ = false

pub record Context : Type 0 where
  pub room_id : Option ℕ
  pub game_id : Option ℕ
  pub game_color : Option Color
  pub spectating_room_id : Option ℕ
  pub spectating_game_id : Option ℕ

abbrev pub no_context : Context
no_context = record {
  room_id = none;
  game_id = none;
  game_color = none;
  spectating_room_id = none;
  spectating_game_id = none;
}

-- A stored notice: `dismissed` says that its `dismissedAt` is not null. Texts are lists of codes.
pub record Notice : Type 0 where
  pub sequence : ℕ
  pub dismissed : Bool
  pub id : ℕ
  pub reason : List ℕ
  pub context : List ℕ
  pub occurred_at : ℕ

-- What the client is shown of a notice.
pub record Shown : Type 0 where
  pub id : ℕ
  pub reason : List ℕ
  pub context : List ℕ
  pub occurred_at : ℕ

pub record Cursor : Type 0 where
  pub sequence : ℕ
  pub dismissed : Bool

pub record Session : Type 0 where
  pub username : List ℕ
  pub is_guest : Bool
  pub connection_id : Option ℕ
  pub phase : Phase
  pub notice : Option Shown
  pub notice_cursor : Cursor
  pub context : Context
  pub matchmaking_joined_at : Option ℕ
  pub matchmaking_fallback_at : Option ℕ
  pub fallback_timer : Option ℕ
  pub disconnected_at : Option ℕ
  pub disconnect_deadline : Option ℕ
  pub disconnect_timer : Option ℕ

pub data Event : Type 0 where
  phase_changed : Event
  game_timeout : ℕ → Option ℕ → Event
  search_deadline : ℕ → Event

-- The map of sessions, the number of the next timer, and the events so far.
pub record State : Type 0 where
  pub sessions : ℕ → Option Session
  pub next_timer : ℕ
  pub events : List Event

unfoldable pub put : State → ℕ → Option Session → State
put s user v = record s { sessions = λ k. if user == k then v else s.sessions k }

abbrev pub notify : State → Event → State
notify s e = record s { events = s.events ++ e ∷ [] }

unfoldable pub new_session : List ℕ → Bool → Session
new_session username is_guest = record {
  username = username;
  is_guest = is_guest;
  connection_id = none;
  phase = idle;
  notice = none;
  notice_cursor = record { sequence = 0; dismissed = false };
  context = no_context;
  matchmaking_joined_at = none;
  matchmaking_fallback_at = none;
  fallback_timer = none;
  disconnected_at = none;
  disconnect_deadline = none;
  disconnect_timer = none;
}

unfoldable pub clear_context : Session → Session
clear_context u = record u {
  disconnect_timer = none;
  disconnect_deadline = none;
  context = no_context;
  matchmaking_joined_at = none;
  matchmaking_fallback_at = none;
  fallback_timer = none;
}

unfoldable pub get_or_create_session : State → ℕ → List ℕ → Bool → State
get_or_create_session s user username is_guest = elim (s.sessions user) [
  | some u ↦ put s user (some (record u { username = username; is_guest = is_guest }))
  | none ↦ put s user (some (new_session username is_guest))
]

abbrev pub shown : Notice → Shown
shown n = record { id = n.id; reason = n.reason; context = n.context; occurred_at = n.occurred_at }

-- The session of `applySessionNotice`: an older notice, or one dismissed, does not come back.
unfoldable pub with_notice : Session → Notice → Session
with_notice u n =
    let cursor = u.notice_cursor in
    if ltb n.sequence cursor.sequence || (n.sequence == cursor.sequence && cursor.dismissed)
    then u
    else record u {
      notice_cursor = record { sequence = n.sequence; dismissed = n.dismissed };
      notice = if n.dismissed then none else some (shown n);
    }
