-- ===== src/Game/Engine.antt =====
-- One name that opens the whole engine, for runs at concrete games.
use purecheckers.Base.{flat_map}
use purecheckers.Board.{cell, at, start_board, write, look, squares}
use purecheckers.Moves.{
  captures, man_captures, man_capture, simple_moves, man_moves, man_step, queen_captures,
  queen_capture, queen_moves, scan, slide,
}
use purecheckers.Game.{
  board_hash, find_move, remove_all, pass_turn, check_game_over, check_forced_draw, same_text,
  count_pieces, count_on, valid_moves_for, new_game, all_valid_moves, all_captures, all_simple,
  count_text, end_turn, promotes, moved_board, continues, play, make_move, tick_time,
}

-- Opens the whole engine, for runs at concrete games.
unfoldable pub engine : Unit {0}
unfolding all_valid_moves all_captures all_simple flat_map squares at cell start_board captures
    man_captures man_capture look simple_moves man_moves man_step valid_moves_for new_game
    queen_captures queen_capture queen_moves scan slide make_move find_move play moved_board
    remove_all promotes continues end_turn pass_turn check_game_over check_forced_draw board_hash
    same_text count_text write tick_time count_pieces count_on
engine = tt
