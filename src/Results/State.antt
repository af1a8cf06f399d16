-- ===== src/Results/State.antt =====
-- The state of a result, and when normalizeResultState takes it.
use package.purecheckers.Base.{
  ℕ, ◌+◌, Bool, true, false, not, ◌&&◌, ◌||◌, leb, ltb, ◌==◌, if◌then◌else◌, Option, none, some,
  List, [], ◌∷◌, map, length, is_empty, all_of, any_of, includes, is_some,
}
use package.purecheckers.Game.{same_text}

pub data Status : Type 0 where
  opened starting rematched closed : Status

pub record Player : Type 0 where
  pub user_id : ℕ
  pub viewing : Bool
  pub requested : Bool

pub record Spectator : Type 0 where
  pub user_id : ℕ
  pub room_id : ℕ
  pub deadline : ℕ

pub record Rematch : Type 0 where
  pub key : List ℕ
  pub players : List ℕ
  pub game_id : Option ℕ

pub record Result : Type 0 where
  pub status : Status
  pub deadline : ℕ
  pub players : List Player
  pub spectators : List Spectator
  pub rematch : Option Rematch

-- What the result needs of the run of its game.
pub record Run : Type 0 where
  pub id : ℕ
  pub schema : ℕ
  pub game_over : Bool
  pub ended_at : ℕ
  pub red_player_id : ℕ
  pub black_player_id : ℕ
  pub room_id : Option ℕ

pub record Users : Type 0 where
  pub known : ℕ → Bool
  pub is_bot : ℕ → Bool

abbrev pub game_over_linger_ms : ℕ
game_over_linger_ms = 180000

abbrev pub max_safe_integer : ℕ
max_safe_integer = 9007199254740991

unfoldable pub valid_id : ℕ → Bool
valid_id k = ltb 0 k && leb k max_safe_integer

unfoldable pub valid_key : List ℕ → Bool
valid_key t = ltb 0 (length t) && leb (length t) 100

abbrev pub is_closed : Status → Bool
is_closed opened = false
is_closed starting = false
is_closed rematched = false
is_closed closed = true

abbrev pub is_starting : Status → Bool
is_starting opened = false
is_starting starting = true
is_starting rematched = false
is_starting closed = false

abbrev pub is_open : Status → Bool
is_open opened = true
is_open starting = false
is_open rematched = false
is_open closed = false

abbrev pub player_ids : List Player → List ℕ
player_ids = map (λ p. p.user_id)

-- `seen` has the users before this one.
unfoldable pub valid_player : Users → List ℕ → Player → Bool
valid_player users seen p =
    let bot = users.is_bot p.user_id in
    valid_id p.user_id
    && users.known p.user_id
    && not (includes seen p.user_id)
    && not (
        (bot && p.viewing) || (bot && not p.requested) || (not bot && not p.viewing && p.requested))

unfoldable pub valid_players : Users → List ℕ → List Player → Bool
valid_players users seen [] = true
valid_players users seen (p ∷ ps) =
    valid_player users seen p && valid_players users (p.user_id ∷ seen) ps

abbrev pub is_room : Option ℕ → ℕ → Bool
is_room none k = false
is_room (some room) k = k == room

unfoldable pub valid_spectators : Users → Option ℕ → ℕ → List ℕ → List Spectator → Bool
valid_spectators users room deadline seen [] = true
valid_spectators users room deadline seen (w ∷ ws) =
    valid_id w.user_id
    && users.known w.user_id
    && not (users.is_bot w.user_id)
    && not (includes seen w.user_id)
    && valid_id w.room_id
    && is_room room w.room_id
    && valid_id w.deadline
    && leb w.deadline deadline
    && valid_spectators users room deadline (w.user_id ∷ seen) ws

abbrev pub valid_game : Option ℕ → Bool
valid_game none = true
valid_game (some id) = valid_id id

unfoldable pub valid_rematch : Run → Option Rematch → Bool
valid_rematch run none = true
valid_rematch run (some r) =
    valid_key r.key
    && same_text r.players (run.black_player_id ∷ run.red_player_id ∷ [])
    && valid_game r.game_id

abbrev pub rematch_game : Option Rematch → Option ℕ
rematch_game none = none
rematch_game (some r) = r.game_id

unfoldable pub valid_phase : Users → Result → Status → Bool
valid_phase users s opened = not (is_some s.rematch)
valid_phase users s starting =
    is_some s.rematch
    && not (is_some (rematch_game s.rematch))
    && all_of (λ p. users.is_bot p.user_id || p.viewing && p.requested) s.players
valid_phase users s rematched =
    is_some (rematch_game s.rematch) && not (any_of (λ p. p.viewing) s.players)
valid_phase users s closed = not (any_of (λ p. p.viewing) s.players) && is_empty s.spectators

unfoldable pub valid_frame : Run → ℕ → List ℕ → Bool
valid_frame run deadline ids =
    run.schema == 1
    && run.game_over
    && valid_id deadline
    && deadline == (run.ended_at + game_over_linger_ms)
    && same_text ids (run.red_player_id ∷ run.black_player_id ∷ [])

unfoldable pub is_valid : Result → Run → Users → Bool
is_valid s run users =
    valid_frame run s.deadline (player_ids s.players)
    && valid_players users [] s.players
    && valid_spectators users run.room_id s.deadline (player_ids s.players) s.spectators
    && valid_rematch run s.rematch
    && valid_phase users s s.status

unfoldable pub normalize_result_state : Result → Run → Users → Option Result
normalize_result_state s run users = if is_valid s run users then some s else none
