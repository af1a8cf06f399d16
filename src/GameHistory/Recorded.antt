-- ===== src/GameHistory/Recorded.antt =====
-- What a played move adds to the history of a game.
use purecheckers.Base.{
  ℕ, ◌≡◌, refl, ap, ◌∙◌, inl, inr, Bool, false, not, Bool-cases, Option, some, List, [], ◌∷◌, ◌++◌,
  arith, is_empty,
}
use purecheckers.Board.{Piece}
use purecheckers.Moves.{Move}
use purecheckers.Game.{
  Game, MoveResult, Played, pass_turn, check_game_over, check_forced_draw, end_turn, continues,
  moved_board, promotes, play, make_move,
}
use purecheckers.Game.Turns.{make_move-Plays}
use purecheckers.Puzzle.{Hop}

-- The entry of a history that a recorded move is.
abbrev pub entry_of : Played → Option Hop
entry_of p =
    some (record {
      from_row = p.from_row;
      from_col = p.from_col;
      to_row = p.to_row;
      to_col = p.to_col;
    })

end_turn-history :
    (g : Game) (captured : Bool) → (end_turn g captured).move_history ≡ g.move_history
unfolding end_turn check_game_over check_forced_draw pass_turn
end_turn-history g captured = ground arith

-- What a played move adds to the history.
pub record Recorded (g : Game) (fr fc tr tc : ℕ) (after : Game) : Type 0 where
  pub entry : Played
  pub added : after.move_history ≡ g.move_history ++ entry ∷ []
  pub is_hop :
      entry_of entry ≡ some (record { from_row = fr; from_col = fc; to_row = tr; to_col = tc })

play-history :
    (g : Game) (p : Piece) (m : Move)
    → (play g p m).0.move_history
      ≡ g.move_history
        ++ record {
          from_row = m.from_row;
          from_col = m.from_col;
          to_row = m.to_row;
          to_col = m.to_col;
          captured = m.captured;
          promoted = promotes p m.to_row;
          chain_continues = continues (moved_board g.board p m) p m;
        }
          ∷ []
unfolding play
play-history g p m =
    let moved = record g { board = moved_board g.board p m } in
    elim (Bool-cases (continues (moved_board g.board p m) p m)) [
      | inl e ↦ rw e refl
      | inr e ↦ rw e (
          ap
            (λ z.
              z
              ++ record {
                from_row = m.from_row;
                from_col = m.from_col;
                to_row = m.to_row;
                to_col = m.to_col;
                captured = m.captured;
                promoted = promotes p m.to_row;
                chain_continues = false;
              }
                ∷ [])
            (end_turn-history moved (not (is_empty m.captured))))
    ]

recorded_entry :
    (m : Move) (fr fc tr tc : ℕ) (captured : List (ℕ × ℕ)) (promoted chain : Bool)
    → (m.from_row ≡ fr) × (m.from_col ≡ fc)
    → (m.to_row ≡ tr) × (m.to_col ≡ tc)
    → entry_of (record {
      from_row = m.from_row;
      from_col = m.from_col;
      to_row = m.to_row;
      to_col = m.to_col;
      captured = captured;
      promoted = promoted;
      chain_continues = chain;
    })
      ≡ some (record { from_row = fr; from_col = fc; to_row = tr; to_col = tc })
recorded_entry m fr fc tr tc captured promoted chain (a, b) (c, d) = rw (a, b, c, d) refl

pub make_move-Recorded :
    (g : Game) (fr fc tr tc : ℕ) (after : Game × MoveResult)
    → make_move g fr fc tr tc ≡ some after
    → Recorded g fr fc tr tc after.0
make_move-Recorded g fr fc tr tc after e =
    let plays = make_move-Plays g fr fc tr tc after e in
    let m = plays.move in
    let p = plays.piece in
    record {
      entry = record {
        from_row = m.from_row;
        from_col = m.from_col;
        to_row = m.to_row;
        to_col = m.to_col;
        captured = m.captured;
        promoted = promotes p m.to_row;
        chain_continues = continues (moved_board g.board p m) p m;
      };
      added = ap (λ z. z.0.move_history) plays.result ∙ play-history g p m;
      is_hop =
          recorded_entry m fr fc tr tc m.captured (promotes p m.to_row)
            (continues (moved_board g.board p m) p m) plays.from plays.to;
    }
