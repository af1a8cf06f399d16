-- ===== src/Tests.antt =====
-- Runs of the engine on small positions, and the theorems applied to them.
mod Play
mod Search
mod Queues
mod Server
mod Lobby
mod Table
mod Endings
mod Doors
mod Line
mod Turns
mod Worker
mod Bank
use package.purecheckers.Base.{
  ◌≡◌, refl, length, none, some, Option, ◌∷◌, [], ℕ, Bool, true, false, List,
}
use package.purecheckers.Board.{red, black, Cell, Board, Piece}
use package.purecheckers.Moves.{Move}
use package.purecheckers.Game
use package.purecheckers.Game.{Game, MoveResult}
use package.purecheckers.Game.Engine.{engine}

abbrev pub rm : Cell
rm = some (record { color = red; queen = false })

abbrev pub bm : Cell
bm = some (record { color = black; queen = false })

abbrev pub rq : Cell
rq = some (record { color = red; queen = true })

abbrev pub oo : Cell
oo = none

abbrev pub vacant : List Cell
vacant = oo ∷ oo ∷ oo ∷ oo ∷ oo ∷ oo ∷ oo ∷ oo ∷ []

-- A red man at (4, 3) takes (3, 4), and goes on over (1, 4) to be crowned at (0, 3); the red queen
-- at (7, 0) has a long way.
abbrev pub duel_board : Board
duel_board =
    (bm ∷ oo ∷ oo ∷ oo ∷ oo ∷ oo ∷ oo ∷ oo ∷ [])
    ∷ (oo ∷ oo ∷ oo ∷ oo ∷ bm ∷ oo ∷ oo ∷ oo ∷ [])
    ∷ vacant
    ∷ (oo ∷ oo ∷ oo ∷ oo ∷ bm ∷ oo ∷ oo ∷ oo ∷ [])
    ∷ (oo ∷ oo ∷ oo ∷ rm ∷ oo ∷ oo ∷ oo ∷ oo ∷ [])
    ∷ vacant
    ∷ vacant
    ∷ (rq ∷ oo ∷ oo ∷ oo ∷ oo ∷ oo ∷ oo ∷ oo ∷ [])
    ∷ []

abbrev pub duel : Game
duel = record {
  turn_time = 60;
  board = duel_board;
  current_player = red;
  chain_piece = none;
  game_over = false;
  winner = none;
  draw_reason = none;
  red_time = 60;
  black_time = 60;
  move_history = [];
  position_history = [];
  moves_without_capture = 7;
}

abbrev pub duel_move : Move
duel_move = record { from_row = 4; from_col = 3; to_row = 2; to_col = 5; captured = (3, 4) ∷ [] }

-- The move that `makeMove` finds first, if any.
abbrev pub or_else : Option (Game × MoveResult) → Game × MoveResult → Game × MoveResult
or_else none d = d
or_else (some a) d = a

abbrev pub refused : Game × MoveResult
refused = (duel, record { captured = []; promoted = false; chain_continues = false })

abbrev pub duel_after : Game × MoveResult
duel_after = or_else (Game.make_move duel 4 3 2 5) refused
