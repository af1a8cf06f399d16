-- ===== src/GameHistory/Timeless.antt =====
-- The clocks of a game have no part in its moves.
use purecheckers.Base.{
  ℕ, leb, ◌≡◌, refl, ap, sym, ◌∙◌, inl, inr, if_both, Bool, true, false, not, if◌then◌else◌,
  Bool-cases, Option, none, some, List, [], ◌∷◌, ◌++◌, is_empty,
}
use purecheckers.Board.{red, opponent, same_color, Piece}
use purecheckers.Moves.{Move}
use purecheckers.Game.{
  Game, MoveResult, repetition, no_capture_limit, all_valid_moves, valid_moves_for, board_hash,
  count_text, moved_board, continues, promotes, pass_turn, check_game_over, check_forced_draw,
  end_turn, record_move, play, make_move, draw_repetition_count, draw_no_capture_moves,
}
use purecheckers.PuzzleSearch.Spot.{found, played_by, make_move-found}

-- The game without its clocks.
unfoldable pub timeless : Game → Game
timeless g = record g { turn_time = 0; red_time = 0; black_time = 0 }

pass_turn-timeless :
    (g : Game) (captured : Bool) → pass_turn (timeless g) captured ≡ timeless (pass_turn g captured)
unfolding timeless pass_turn
pass_turn-timeless g captured = elim (Bool-cases (same_color (opponent g.current_player) red)) [
  | inl e ↦ rw e refl
  | inr e ↦ rw e refl
]

abbrev over_if : Bool → Game → Game
over_if stuck g =
    if stuck then record g { game_over = true; winner = some (opponent g.current_player) } else g

over_if-timeless :
    (stuck : Bool) (g : Game) → over_if stuck (timeless g) ≡ timeless (over_if stuck g)
unfolding timeless
over_if-timeless true g = refl
over_if-timeless false g = refl

check_game_over-timeless : (g : Game) → check_game_over (timeless g) ≡ timeless (check_game_over g)
unfolding timeless check_game_over all_valid_moves valid_moves_for
check_game_over-timeless g = over_if-timeless (is_empty (all_valid_moves g g.current_player)) g

abbrev drawn_if : Bool → Bool → List (List ℕ) → Game → Game
drawn_if repeated quiet history g =
    if repeated
    then record g {
      position_history = history;
      game_over = true;
      winner = none;
      draw_reason = some repetition;
    }
    else if quiet
    then record g {
      position_history = history;
      game_over = true;
      winner = none;
      draw_reason = some no_capture_limit;
    }
    else record g { position_history = history }

drawn_if-timeless :
    (repeated quiet : Bool) (history : List (List ℕ)) (g : Game)
    → drawn_if repeated quiet history (timeless g) ≡ timeless (drawn_if repeated quiet history g)
unfolding timeless
drawn_if-timeless true quiet history g = refl
drawn_if-timeless false true history g = refl
drawn_if-timeless false false history g = refl

check_forced_draw-timeless :
    (g : Game) → check_forced_draw (timeless g) ≡ timeless (check_forced_draw g)
unfolding timeless check_forced_draw
check_forced_draw-timeless g =
    let hash = board_hash g.board g.current_player in
    let history = g.position_history ++ hash ∷ [] in
    drawn_if-timeless (leb draw_repetition_count (count_text hash history))
      (leb draw_no_capture_moves g.moves_without_capture) history g

abbrev ended_with : Game → Game
ended_with g = if g.game_over then g else check_forced_draw g

ended_with-timeless : (g : Game) → ended_with (timeless g) ≡ timeless (ended_with g)
unfolding timeless
ended_with-timeless g =
    if_both g.game_over (λ a b. a ≡ timeless b) refl (check_forced_draw-timeless g)

end_turn-timeless :
    (g : Game) (captured : Bool) → end_turn (timeless g) captured ≡ timeless (end_turn g captured)
unfolding end_turn
end_turn-timeless g captured =
    ap (λ z. ended_with (check_game_over z)) (pass_turn-timeless g captured)
    ∙ ap ended_with (check_game_over-timeless (pass_turn g captured))
    ∙ ended_with-timeless (check_game_over (pass_turn g captured))

abbrev pub timeless_play : Game × MoveResult → Game × MoveResult
timeless_play after = (timeless after.0, after.1)

play-timeless :
    (g : Game) (p : Piece) (m : Move) → play (timeless g) p m ≡ timeless_play (play g p m)
unfolding timeless play
play-timeless g p m =
    let moved = record g { board = moved_board g.board p m } in
    elim (Bool-cases (continues (moved_board g.board p m) p m)) [
      | inl e ↦ rw e refl
      | inr e ↦ rw e (
          ap
            (λ z. (
              record_move z (record {
                from_row = m.from_row;
                from_col = m.from_col;
                to_row = m.to_row;
                to_col = m.to_col;
                captured = m.captured;
                promoted = promotes p m.to_row;
                chain_continues = false;
              }),
              record {
                captured = m.captured;
                promoted = promotes p m.to_row;
                chain_continues = false;
              },
            ))
            (end_turn-timeless moved (not (is_empty m.captured))))
    ]

abbrev pub timeless_option : Option (Game × MoveResult) → Option (Game × MoveResult)
timeless_option none = none
timeless_option (some after) = some (timeless_play after)

played_by-timeless :
    (g : Game) (o : Option (Move × Piece))
    → played_by (play (timeless g)) o ≡ timeless_option (played_by (play g) o)
played_by-timeless g none = refl
played_by-timeless g (some (m, p)) = ap some (play-timeless g p m)

found-timeless : (g : Game) (fr fc tr tc : ℕ) → found (timeless g) fr fc tr tc ≡ found g fr fc tr tc
unfolding timeless valid_moves_for
found-timeless g fr fc tr tc = refl

pub make_move-timeless :
    (g : Game) (fr fc tr tc : ℕ)
    → make_move (timeless g) fr fc tr tc ≡ timeless_option (make_move g fr fc tr tc)
make_move-timeless g fr fc tr tc =
    make_move-found (timeless g) fr fc tr tc
    ∙ ap (played_by (play (timeless g))) (found-timeless g fr fc tr tc)
    ∙ played_by-timeless g (found g fr fc tr tc)
    ∙ ap timeless_option (sym (make_move-found g fr fc tr tc))
