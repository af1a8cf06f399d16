-- ===== src/Game.antt =====
-- The class CheckersGame of shared/game.js: its methods as functions that return the new record.
mod State
mod Listing
pub mod Rules
pub mod Legal
pub mod Turns
pub mod Count
pub mod Effect
pub mod Material
pub mod Invariant
pub mod Progress
pub mod Engine
pub mod Reach
unfoldable pub use State.*
unfoldable pub use Listing.*
use package.purecheckers.Base.{
  ℕ, ◌+◌, ◌-◌, Bool, true, false, not, ◌&&◌, ◌||◌, leb, ◌==◌, if◌then◌else◌, Option, none, some,
  List, [], ◌∷◌, ◌++◌, map, flat_map, is_empty,
}
use package.purecheckers.Board.{
  Color, red, black, opponent, same_color, Piece, Cell, Board, cell, write, at, squares,
  start_board, in_board,
}
use package.purecheckers.Moves.{Move, move_from, is_color, captures, simple_moves}

unfoldable pub remove_all : Board → List (ℕ × ℕ) → Board
remove_all b [] = b
remove_all b ((r, c) ∷ rest) = remove_all (write b r c none) rest

unfoldable pub promotes : Piece → ℕ → Bool
promotes p tr =
    not p.queen && ((same_color p.color red && tr == 0) || (same_color p.color black && tr == 7))

-- The piece object stands on its new square when `queen` is set, so the board shows it.
unfoldable pub moved_board : Board → Piece → Move → Board
moved_board b p m =
    let placed = write b m.to_row m.to_col (some p) in
    let cleared = remove_all (write placed m.from_row m.from_col none) m.captured in
    if promotes p m.to_row
    then write cleared m.to_row m.to_col (some (record p { queen = true }))
    else cleared

unfoldable pub continues : Board → Piece → Move → Bool
continues after p m =
    not (is_empty m.captured)
    && not (promotes p m.to_row)
    && not (is_empty (captures after m.to_row m.to_col))

unfoldable pub check_game_over : Game → Game
check_game_over g =
    if is_empty (all_valid_moves g g.current_player)
    then record g { game_over = true; winner = some (opponent g.current_player) }
    else g

unfoldable pub count_text : List ℕ → List (List ℕ) → ℕ
count_text t [] = 0
count_text t (h ∷ hs) = (if same_text h t then 1 else 0) + count_text t hs

unfoldable pub check_forced_draw : Game → Game
check_forced_draw g =
    let hash = board_hash g.board g.current_player in
    let history = g.position_history ++ hash ∷ [] in
    if leb draw_repetition_count (count_text hash history)
    then record g {
      position_history = history;
      game_over = true;
      winner = none;
      draw_reason = some repetition;
    }
    else if leb draw_no_capture_moves g.moves_without_capture
    then record g {
      position_history = history;
      game_over = true;
      winner = none;
      draw_reason = some no_capture_limit;
    }
    else record g { position_history = history }

unfoldable pub pass_turn : Game → Bool → Game
pass_turn g captured =
    let next = opponent g.current_player in
    record g {
      moves_without_capture = if captured then 0 else g.moves_without_capture + 1;
      chain_piece = none;
      current_player = next;
      red_time = if same_color next red then g.turn_time else g.red_time;
      black_time = if same_color next red then g.black_time else g.turn_time;
    }

-- The rest of the turn's end: no move left ends the game, else a forced draw may.
unfoldable pub end_turn : Game → Bool → Game
end_turn g captured =
    let checked = check_game_over (pass_turn g captured) in
    if checked.game_over then checked else check_forced_draw checked

-- What `makeMove` returns when it plays the move.
pub record MoveResult : Type 0 where
  pub captured : List (ℕ × ℕ)
  pub promoted : Bool
  pub chain_continues : Bool

abbrev pub record_move : Game → Played → Game
record_move g entry = record g { move_history = g.move_history ++ entry ∷ [] }

unfoldable pub play : Game → Piece → Move → Game × MoveResult
play g p m =
    let after = moved_board g.board p m in
    let promoted = promotes p m.to_row in
    let chain = continues after p m in
    let moved = record g { board = after } in
    let turned =
      if chain
      then record moved { chain_piece = some (m.to_row, m.to_col) }
      else end_turn moved (not (is_empty m.captured)) in
    (
      record_move turned (record {
        from_row = m.from_row;
        from_col = m.from_col;
        to_row = m.to_row;
        to_col = m.to_col;
        captured = m.captured;
        promoted = promoted;
        chain_continues = chain;
      }),
      record { captured = m.captured; promoted = promoted; chain_continues = chain },
    )

-- `makeMove`: `none` is `null`, with the game unchanged. A found move starts at a piece.
unfoldable pub make_move : Game → ℕ → ℕ → ℕ → ℕ → Option (Game × MoveResult)
make_move g fr fc tr tc =
    if g.game_over || not (in_board fr fc && in_board tr tc)
    then none
    else elim (find_move (valid_moves_for g fr fc) tr tc) [
      | none ↦ none
      | some m ↦ elim (cell g.board fr fc) [ none ↦ none | some p ↦ some (play g p m) ]
    ]

unfoldable pub tick_time : Game → ℕ → Game
tick_time g seconds =
    if g.game_over || g.turn_time == 0 || seconds == 0
    then g
    else if same_color g.current_player red
    then (let t = g.red_time - seconds in
        if t == 0
        then record g { red_time = t; game_over = true; winner = some black }
        else record g { red_time = t })
    else (let t = g.black_time - seconds in
        if t == 0
        then record g { black_time = t; game_over = true; winner = some red }
        else record g { black_time = t })

-- `countPieces`.
unfoldable pub count_on : Board → Color → List (ℕ × ℕ) → ℕ
count_on b color [] = 0
count_on b color ((r, c) ∷ rest) =
    (if is_color color (at b r c) then 1 else 0) + count_on b color rest

unfoldable pub count_pieces : Board → Color → ℕ
count_pieces b color = count_on b color squares
