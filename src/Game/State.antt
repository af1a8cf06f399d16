-- ===== src/Game/State.antt =====
-- The fields of the class CheckersGame of shared/game.js, its starting state, and the text that
-- names a position. Times are natural numbers of some fixed fraction of a second.
use purecheckers.Base.{
  ℕ, Bool, true, false, ◌&&◌, ◌==◌, if◌then◌else◌, Option, none, some, List, [], ◌∷◌, ◌++◌,
  flat_map,
}
use purecheckers.Board.{Color, red, black, Cell, Board, cell, squares, start_board}

-- One entry of `moveHistory`.
pub record Played : Type 0 where
  pub from_row : ℕ
  pub from_col : ℕ
  pub to_row : ℕ
  pub to_col : ℕ
  pub captured : List (ℕ × ℕ)
  pub promoted : Bool
  pub chain_continues : Bool

-- `drawReason`; `agreement` is set by the server's draw response.
pub data DrawReason : Type 0 where
  repetition no_capture_limit agreement : DrawReason

pub record Game : Type 0 where
  pub turn_time : ℕ
  pub board : Board
  pub current_player : Color
  pub chain_piece : Option (ℕ × ℕ)
  pub game_over : Bool
  pub winner : Option Color
  pub draw_reason : Option DrawReason
  pub red_time : ℕ
  pub black_time : ℕ
  pub move_history : List Played
  pub position_history : List (List ℕ)
  pub moves_without_capture : ℕ

abbrev pub draw_repetition_count : ℕ
draw_repetition_count = 3

abbrev pub draw_no_capture_moves : ℕ
draw_no_capture_moves = 50

-- The text that one cell adds to the hash, as character codes.
abbrev pub cell_code : Cell → List ℕ
cell_code none = b'.' ∷ []
cell_code (some p) =
    elim p.color [ red ↦ b'r' | black ↦ b'b' ] ∷ (if p.queen then b'Q' else b'M') ∷ []

abbrev pub color_code : Color → List ℕ
color_code red = b'r' ∷ b'e' ∷ b'd' ∷ []
color_code black = b'b' ∷ b'l' ∷ b'a' ∷ b'c' ∷ b'k' ∷ []

abbrev pub square_code : Board → ℕ × ℕ → List ℕ
square_code b (r, c) = cell_code (cell b r c)

unfoldable pub board_hash : Board → Color → List ℕ
board_hash b current = flat_map (square_code b) squares ++ color_code current

-- `===` on the texts.
unfoldable pub same_text : List ℕ → List ℕ → Bool
same_text [] [] = true
same_text [] (y ∷ ys) = false
same_text (x ∷ xs) [] = false
same_text (x ∷ xs) (y ∷ ys) = x == y && same_text xs ys

unfoldable pub new_game : ℕ → Game
new_game turn_time = record {
  turn_time = turn_time;
  board = start_board;
  current_player = red;
  chain_piece = none;
  game_over = false;
  winner = none;
  draw_reason = none;
  red_time = turn_time;
  black_time = turn_time;
  move_history = [];
  position_history = board_hash start_board red ∷ [];
  moves_without_capture = 0;
}
