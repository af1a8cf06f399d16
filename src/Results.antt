-- ===== src/Results.antt =====
-- The result of a finished game: server/domain/resultState.js. Every error that the code throws is
-- `none`. The map of users is two functions, who is known and who is a bot. A text is a list of codes;
-- times and keys are natural numbers.
mod State
pub mod Withdraw
pub mod Expiry
pub mod Consent
pub mod Viewers
pub mod Cancel
use package.purecheckers.Base.{
  ℕ, ◌+◌, Bool, true, false, not, ◌&&◌, ◌||◌, leb, ltb, ◌==◌, if◌then◌else◌, Option, none, some,
  List, [], ◌∷◌, ◌++◌, map, length, is_empty, min, all_of, any_of, filter, includes, is_some,
}
use package.purecheckers.Game.{same_text}
unfoldable pub use State.*

pub data Role : Type 0 where
  player_role spectator_role : Role

unfoldable pub result_viewers : Result → List (ℕ × Role)
result_viewers s =
    map (λ p. (p.user_id, player_role)) (filter (λ p. p.viewing) s.players)
    ++ map (λ w. (w.user_id, spectator_role)) s.spectators

unfoldable pub close_if_empty : Result → Result
close_if_empty s = if is_empty (result_viewers s) then record s { status = closed } else s

abbrev pub gone : Player → Player
gone p = if p.viewing then record p { viewing = false; requested = false } else p

unfoldable pub withdraw_player : ℕ → List Player → List Player
withdraw_player user [] = []
withdraw_player user (p ∷ ps) =
    if p.user_id == user then gone p ∷ ps else p ∷ withdraw_player user ps

unfoldable pub withdraw : ℕ → Result → Result
withdraw user s = record s {
  players = withdraw_player user s.players;
  spectators = filter (λ w. not (w.user_id == user)) s.spectators;
}

unfoldable pub withdraw_all : List ℕ → Result → Result
withdraw_all [] s = s
withdraw_all (user ∷ users) s = withdraw_all users (withdraw user s)

unfoldable pub find_player : ℕ → List Player → Option Player
find_player user [] = none
find_player user (p ∷ ps) = if p.user_id == user then some p else find_player user ps

-- The player found has asked for a rematch.
unfoldable pub ask : ℕ → List Player → List Player
ask user [] = []
ask user (p ∷ ps) =
    if p.user_id == user then record p { requested = true } ∷ ps else p ∷ ask user ps

abbrev pub start_rematch : List ℕ → Run → Result → Result
start_rematch key run s =
    if all_of (λ p. p.requested) s.players
    then record s {
      status = starting;
      rematch = some (record {
        key = key;
        players = run.black_player_id ∷ run.red_player_id ∷ [];
        game_id = none;
      });
    }
    else s

unfoldable pub asked : ℕ → Result → Run → Users → List ℕ → Option Player → Option Result
asked user s run users key none = none
asked user s run users key (some p) =
    if not p.viewing || users.is_bot p.user_id
    then none
    else if any_of (λ q. not (users.is_bot q.user_id) && not q.viewing) s.players
    then none
    else some (start_rematch key run (record s { players = ask user s.players }))

unfoldable pub request_rematch : ℕ → Result → Run → Users → ℕ → List ℕ → Option Result
request_rematch user s run users now key =
    if not (is_open s.status) || leb s.deadline now
    then none
    else asked user s run users key (find_player user s.players)

unfoldable pub dismiss : ℕ → Result → Option Result
dismiss user s =
    if not (any_of (λ v. v.0 == user) (result_viewers s))
    then none
    else if is_starting s.status && any_of (λ p. p.user_id == user) s.players
    then none
    else some (close_if_empty (withdraw user s))

unfoldable pub expired : Result → ℕ → List ℕ
expired s now =
    (if leb s.deadline now then player_ids (filter (λ p. p.viewing) s.players) else [])
    ++ map (λ w. w.user_id) (filter (λ w. leb w.deadline now) s.spectators)

unfoldable pub expire : Result → ℕ → Option Result
expire s now =
    let users = expired s now in
    if is_starting s.status && any_of (λ user. any_of (λ p. p.user_id == user) s.players) users
    then none
    else some (close_if_empty (withdraw_all users s))

pub data Action : Type 0 where
  request_rematch_action dismiss_action : ℕ → Action
  expire_action : Action

-- The users whom an action tells that the result of the game has expired.
pub record Notice : Type 0 where
  pub user_id : ℕ
  pub game_id : ℕ

unfoldable pub act : Result → Action → Run → Users → ℕ → List ℕ → Option Result
act s (request_rematch_action user) run users now key = request_rematch user s run users now key
act s (dismiss_action user) run users now key = dismiss user s
act s expire_action run users now key = expire s now

unfoldable pub notices_of : Result → Action → Run → ℕ → List Notice
notices_of s (request_rematch_action user) run now = []
notices_of s (dismiss_action user) run now = []
notices_of s expire_action run now =
    map (λ user. record { user_id = user; game_id = run.id }) (expired s now)

abbrev pub normalized : Option Result → Run → Users → Option Result
normalized none run users = none
normalized (some s) run users = normalize_result_state s run users

abbrev pub with_notices : List Notice → Option Result → Option (Result × List Notice)
with_notices ns none = none
with_notices ns (some s) = some (s, ns)

unfoldable pub transition_result :
    Result → Action → Run → Users → ℕ → List ℕ → Option (Result × List Notice)
transition_result s action run users now key =
    if not (valid_id now) || is_closed s.status
    then none
    else with_notices (notices_of s action run now)
        (normalized (act s action run users now key) run users)

unfoldable pub reset_player : Users → Player → Player
reset_player users p = record p {
  viewing = not (users.is_bot p.user_id);
  requested = users.is_bot p.user_id;
}

abbrev pub is_rematching : Status → Bool
is_rematching opened = false
is_rematching starting = true
is_rematching rematched = true
is_rematching closed = false

unfoldable pub result_after_cancelled_rematch : Result → Run → Users → Option Result
result_after_cancelled_rematch s run users =
    if not (is_rematching s.status) || not (is_some s.rematch)
    then none
    else normalize_result_state
        (record s { status = opened; rematch = none; players = map (reset_player users) s.players })
        run users

abbrev pub then_expired : Run → Users → ℕ → Option Result → Option (Result × List Notice)
then_expired run users now none = none
then_expired run users now (some s) = transition_result s expire_action run users now []

-- What cancelResultRematch saves of a result whose rematch has no game yet, and restoreAbortedResult of one
-- whose game was aborted, with the notices. The expiry reads no key.
unfoldable pub cancel_rematch : Result → Run → Users → ℕ → Option (Result × List Notice)
cancel_rematch s run users now =
    then_expired run users now (result_after_cancelled_rematch s run users)

unfoldable pub initial_player : Users → ℕ → Player
initial_player users user = record {
  user_id = user;
  viewing = not (users.is_bot user);
  requested = users.is_bot user;
}

-- A spectator of the room that the game was played in.
pub record Watching : Type 0 where
  pub user_id : ℕ
  pub online : Bool
  pub disconnect_deadline : ℕ

pub record SourceRoom : Type 0 where
  pub id : ℕ
  pub playing : Bool
  pub game_id : ℕ
  pub spectators : List Watching

abbrev pub watches : ℕ → ℕ → Watching → Spectator
watches room deadline p = record {
  user_id = p.user_id;
  room_id = room;
  deadline = if p.online then deadline else min deadline p.disconnect_deadline;
}

unfoldable pub room_spectators : Run → ℕ → Option SourceRoom → List Spectator
room_spectators run deadline none = []
room_spectators run deadline (some room) =
    if room.playing && room.game_id == run.id
    then map (watches room.id deadline) room.spectators
    else []

unfoldable pub initial_result_state : Run → Users → Option SourceRoom → Option Result
initial_result_state run users source =
    if not run.game_over || not (valid_id run.ended_at)
    then none
    else let deadline = run.ended_at + game_over_linger_ms in
      normalize_result_state
        (record {
          status = opened;
          deadline = deadline;
          players =
              initial_player users run.red_player_id
              ∷ initial_player users run.black_player_id
              ∷ [];
          spectators = room_spectators run deadline source;
          rematch = none;
        })
        run users
