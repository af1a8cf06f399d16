-- ===== src/Sessions.antt =====
-- The sessions of server/domain/sessions.js: the phase of each user, its context, and the timers of
-- a lost connection and of a search. Identifiers are natural numbers, of which 0 is falsy; a timer is
-- the number of its `setTimeout` call, and stands for the identity of the search that armed it, and
-- the wall clock is an argument. What the callbacks are told is a list of events; the one for a lost
-- game's timeout is set, as configureLifecycle does.
mod Data
pub mod Laws
pub mod Timers
pub mod Reach
pub mod Phases
unfoldable pub use Data.*
use package.purecheckers.Base.{
  is_some, ℕ, ◌+◌, ◌-◌, Bool, true, false, not, ◌&&◌, ◌||◌, ltb, leb, ◌==◌, if◌then◌else◌, Option,
  none, some, List, [], ◌∷◌, ◌++◌,
}

unfoldable pub apply_session_notice : State → ℕ → Option Notice → State
apply_session_notice s user n = elim (s.sessions user) [
  | none ↦ s
  | some u ↦ elim n [ none ↦ s | some k ↦ put s user (some (with_notice u k)) ]
]

abbrev pub truthy : Option ℕ → Bool
truthy none = false
truthy (some n) = not (n == 0)

-- The context that a phase needs.
abbrev pub has_context : Phase → Context → Bool
has_context in_room c = truthy c.room_id
has_context in_game c = truthy c.game_id && is_some c.game_color
has_context spectating c = truthy c.spectating_room_id
has_context idle c = true
has_context matchmaking c = true

unfoldable pub enter_phase : Session → Phase → Context → Session
enter_phase u phase c = record (clear_context (record u { phase = phase })) { context = c }

unfoldable pub set_phase : State → ℕ → Phase → Context → State × Bool
set_phase s user phase c = elim (s.sessions user) [
  | none ↦ (s, false)
  | some u ↦
      if not (allowed u.phase phase)
      then (s, false)
      else if not (has_context phase c)
      then (s, false)
      else (notify (put s user (some (enter_phase u phase c))) phase_changed, true)
]

abbrev pub is_matchmaking : Phase → Bool
is_matchmaking matchmaking = true
is_matchmaking _ = false

abbrev pub is_idle : Phase → Bool
is_idle idle = true
is_idle _ = false

abbrev pub is_in_game : Phase → Bool
is_in_game in_game = true
is_in_game _ = false

unfoldable pub set_matchmaking_deadline : State → ℕ → ℕ → ℕ → ℕ → State × Bool
set_matchmaking_deadline s user joined_at fallback_at now = elim (s.sessions user) [
  | none ↦ (s, false)
  | some u ↦
      if not (is_matchmaking u.phase)
      then (s, false)
      else let searching = record u {
        matchmaking_joined_at = some joined_at;
        matchmaking_fallback_at = some fallback_at;
        fallback_timer = none;
      } in
        if leb fallback_at now then (put s user (some searching), true) else (
          record (put s user (some (record searching { fallback_timer = some s.next_timer }))) {
            next_timer = s.next_timer + 1;
          },
          true,
        )
]

abbrev pub is_this : Option ℕ → ℕ → Bool
is_this none n = false
is_this (some k) n = k == n

-- `checkDeadline`, when the timer `timer` of a search wakes: a timer of another search does nothing.
unfoldable pub check_deadline : State → ℕ → ℕ → ℕ → ℕ → ℕ → State
check_deadline s user timer joined_at fallback_at now = elim (s.sessions user) [
  | none ↦ s
  | some u ↦
      if not (
        is_matchmaking u.phase
        && is_this u.fallback_timer timer
        && is_this u.matchmaking_joined_at joined_at
        && is_this u.matchmaking_fallback_at fallback_at)
      then s
      else if ltb now fallback_at
      then record (put s user (some (record u { fallback_timer = some s.next_timer }))) {
        next_timer = s.next_timer + 1;
      }
      else notify (put s user (some (record u { fallback_timer = none }))) (search_deadline user)
]

unfoldable pub force_idle : State → ℕ → State
force_idle s user = elim (s.sessions user) [
  | none ↦ s
  | some u ↦
      let after = put s user (some (clear_context (record u { phase = idle }))) in
      if is_idle u.phase then after else notify after phase_changed
]

abbrev pub disconnect_ms : ℕ
disconnect_ms = 30000

-- The session of a user whose connection is lost during a game.
unfoldable pub lost_in_game : Session → ℕ → ℕ → Session
lost_in_game u timer now = record u {
  connection_id = none;
  disconnected_at = some now;
  disconnect_deadline = some (now + disconnect_ms);
  disconnect_timer = some timer;
}

unfoldable pub lost_elsewhere : Session → ℕ → Session
lost_elsewhere u now = record u {
  connection_id = none;
  disconnected_at = some now;
  disconnect_timer = none;
}

unfoldable pub handle_disconnect : State → ℕ → ℕ → State
handle_disconnect s user now = elim (s.sessions user) [
  | none ↦ s
  | some u ↦
      if not (is_some u.connection_id) && is_some u.disconnect_timer
      then s
      else if is_in_game u.phase
      then record (put s user (some (lost_in_game u s.next_timer now))) {
        next_timer = s.next_timer + 1;
      }
      else let lost = put s user (some (lost_elsewhere u now)) in
        if is_matchmaking u.phase then force_idle lost user else lost
]

-- The callback of a disconnect timer: it was armed for the session, whatever that holds by now.
unfoldable pub disconnect_timeout : State → ℕ → State
disconnect_timeout s user = elim (s.sessions user) [
  | none ↦ s
  | some u ↦
      let cleared =
        put s user (some (record u { disconnect_timer = none; disconnect_deadline = none })) in
      if is_in_game u.phase && not (is_some u.connection_id)
      then notify cleared (game_timeout user u.context.game_id)
      else cleared
]

unfoldable pub handle_reconnect : State → ℕ → ℕ → State
handle_reconnect s user connection = elim (s.sessions user) [
  | none ↦ s
  | some u ↦ put s user (
      some (record u {
        connection_id = some connection;
        disconnected_at = none;
        disconnect_deadline = none;
        disconnect_timer = none;
      }))
]

unfoldable pub remove_session : State → ℕ → State
remove_session s user = put s user none
