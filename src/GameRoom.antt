-- ===== src/GameRoom.antt =====
-- The running game of server/domain/games.js: what the commands and timers of the class GameRoom do to the
-- draft of its state, and what a commit makes of it. A room's own state is the draft last committed,
-- since each commit works on a copy of it. Players are numbers; times are natural numbers, and the
-- time since the last clock update is an argument, `none` when there was none.
mod State
mod Opening
pub mod Kept
pub mod Keeps
pub mod Final
pub mod Reach
pub mod Turns
pub mod Draws
use package.purecheckers.Base.{
  is_some, includes, ℕ, ◌+◌, Bool, true, false, not, ◌&&◌, ◌||◌, ltb, leb, ◌==◌, if◌then◌else◌,
  Option, none, some, List, [], ◌∷◌, ◌++◌, length,
}
use package.purecheckers.Board.{Color, red, black, same_color}
use package.purecheckers.Game.{
  Game, MoveResult, DrawReason, agreement, new_game, make_move, tick_time,
}
use package.purecheckers.Recovery.{
  Recovery, Decision, resume, wait, abort, forfeit, recovery_decision,
}
unfoldable pub use State.*
unfoldable pub use Opening.*

-- `advanceDraftClock`.
unfoldable pub advance_clock : Option ℕ → Draft → Draft
advance_clock none d = d
advance_clock (some elapsed) d =
    if not d.started || is_some d.restart || d.game.game_over
    then d
    else let g = tick_time d.game elapsed in
      if g.game_over
      then record d { game = g; end_reason = some out_of_time }
      else record d { game = g }

-- The timer's call every second.
unfoldable pub tick : Option ℕ → Draft → Mutation
tick elapsed d =
    if not d.started || is_some d.restart || d.game.game_over || d.game.turn_time == 0
    then unchanged
    else changed (advance_clock elapsed d)

-- `endGame`, which a game that is over has already been through.
unfoldable pub end_game : Option Color → Reason → Option ℕ → Draft → Mutation
end_game winner reason elapsed d =
    if d.game.game_over
    then unchanged
    else let ticked = advance_clock elapsed d in
      changed (if ticked.game.game_over then ticked else end_with winner reason ticked)

abbrev pub other_color : Color → Color
other_color red = black
other_color black = red

unfoldable pub resign_game : Seats → ℕ → Option ℕ → Draft → Mutation
resign_game s user elapsed d = elim (player_color s user) [
  | none ↦ unchanged
  | some color ↦ end_game (some (other_color color)) resign elapsed d
]

abbrev pub moved : Draft → Option (Game × MoveResult) → Mutation
moved d none = rejected
moved d (some after) = changed (record d { game = after.0 })

-- `game:move`, for the move number `ply` that the player saw.
unfoldable pub move : Seats → ℕ → ℕ → ℕ → ℕ → ℕ → ℕ → Option ℕ → Draft → Mutation
move s user ply fr fc tr tc elapsed d = elim (player_color s user) [
  | none ↦ rejected
  | some color ↦
      if not d.started
      then rejected
      else let ticked = advance_clock elapsed d in
        if is_some ticked.restart
        then rejected
        else if ticked.game.game_over
        then changed ticked
        else if not (ply == length ticked.game.move_history)
        then rejected
        else if not (same_color ticked.game.current_player color)
        then rejected
        else moved ticked (make_move ticked.game fr fc tr tc)
]

-- The move of a bot that was asked when the game had `ply` moves and `color` was to move. A game that
-- has not started asks no bot, and a recovery calls off the bot that was asked.
unfoldable pub bot_move : Color → ℕ → ℕ → ℕ → ℕ → ℕ → Option ℕ → Draft → Mutation
bot_move color ply fr fc tr tc elapsed d =
    if not d.started
      || is_some d.restart
      || d.game.game_over
      || not (same_color d.game.current_player color)
      || not (ply == length d.game.move_history)
    then unchanged
    else let ticked = advance_clock elapsed d in
      if ticked.game.game_over
      then changed ticked
      else moved ticked (make_move ticked.game fr fc tr tc)

abbrev pub draw_offer_cooldown_ms : ℕ
draw_offer_cooldown_ms = 30000

unfoldable pub draw_offer : Seats → ℕ → ℕ → Option ℕ → Draft → Mutation
draw_offer s user now elapsed d =
    if not (is_some (player_color s user)) || d.game.game_over
    then unchanged
    else if s.is_bot (opponent_id s user)
    then rejected
    else if is_some d.restart
    then rejected
    else if is_some d.pending_draw_offer
    then unchanged
    else if ltb now (d.last_draw_offer user + draw_offer_cooldown_ms)
    then rejected
    else let ticked = advance_clock elapsed d in
      changed (
        if ticked.game.game_over then ticked else record ticked {
          pending_draw_offer = some user;
          last_draw_offer = λ k. if k == user then now else ticked.last_draw_offer k;
        })

abbrev pub agree : Draft → Draft
agree d = record d {
  game = record d.game { draw_reason = some agreement; game_over = true; winner = none };
  end_reason = some agreed;
}

-- The answer to an offer `offered`, if there is one.
unfoldable pub answer : ℕ → Bool → Option ℕ → Draft → Option ℕ → Mutation
answer user accepted elapsed d none = unchanged
answer user accepted elapsed d (some offered) =
    if offered == user
    then unchanged
    else let ticked = record (advance_clock elapsed d) { pending_draw_offer = none } in
      changed (if accepted && not ticked.game.game_over then agree ticked else ticked)

unfoldable pub draw_response : Seats → ℕ → Bool → Option ℕ → Draft → Mutation
draw_response s user accepted elapsed d =
    if d.game.game_over || not (is_some (player_color s user))
    then unchanged
    else if is_some d.restart
    then rejected
    else answer user accepted elapsed d d.pending_draw_offer

-- A restart of the server gives a game that is not over a recovery.
unfoldable pub restore : ℕ → ℕ → Draft → Mutation
restore generation deadline d =
    if d.game.game_over
    then unchanged
    else changed (record d {
      restart = some (record {
        generation = generation;
        recovery = record { deadline = deadline; ready_connections = λ _. none };
      });
    })

-- The commands of players and bots, and the timers.
pub data Command : Type 0 where
  reveals : List ℕ → ℕ → Command
  recovers : (ℕ → Option ℕ) → Command
  readies : (ℕ → Option ℕ) → ℕ → ℕ → Command
  reveal_done : ℕ → Command
  begins : Command
  ticks : Command
  resigns : ℕ → Command
  ends : Option Color → Reason → Command
  moves : ℕ → ℕ → ℕ → ℕ → ℕ → ℕ → Command
  bot_moves : Color → ℕ → ℕ → ℕ → ℕ → ℕ → Command
  offers_draw : ℕ → Command
  answers_draw : ℕ → Bool → Command
  restores : ℕ → ℕ → Command

unfoldable pub mutation : Seats → ℕ → Option ℕ → Draft → Command → Mutation
mutation s now elapsed d (reveals bots timeout_ms) = open_reveal bots timeout_ms now d
mutation s now elapsed d (recovers connection_for) = evaluate_recovery s connection_for now d
mutation s now elapsed d (readies connection_for user generation) =
    acknowledge_recovery s connection_for user generation now d
mutation s now elapsed d (reveal_done user) = acknowledge_reveal s user now d
mutation s now elapsed d begins = begin now d
mutation s now elapsed d ticks = tick elapsed d
mutation s now elapsed d (resigns user) = resign_game s user elapsed d
mutation s now elapsed d (ends winner reason) = end_game winner reason elapsed d
mutation s now elapsed d (moves user ply fr fc tr tc) = move s user ply fr fc tr tc elapsed d
mutation s now elapsed d (bot_moves color ply fr fc tr tc) =
    bot_move color ply fr fc tr tc elapsed d
mutation s now elapsed d (offers_draw user) = draw_offer s user now elapsed d
mutation s now elapsed d (answers_draw user accepted) = draw_response s user accepted elapsed d
mutation s now elapsed d (restores generation deadline) = restore generation deadline d

unfoldable pub step : Seats → ℕ → Option ℕ → Draft → Command → Draft
step s now elapsed d c = commit now d (mutation s now elapsed d c)
