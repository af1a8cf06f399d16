-- ===== src/Bot/Ended.antt =====
-- Each chain that `chooseMove` finishes on a game that is not over comes to its end.
use purecheckers.Base.{
  ◌≡◌, refl, ◌∙◌, ◌∈◌, true, false, Option, none, some, all_of_lem, is_some, arith,
}
use purecheckers.Board.{opponent}
use purecheckers.Moves.{Move}
use purecheckers.Game.{Game, all_valid_moves}
use purecheckers.Game.Count.{count_pieces_le}
use purecheckers.Game.Invariant.{Inv}
use purecheckers.Game.Legal.{all_valid_moves_iff}
use purecheckers.Game.Progress.{make_move-Inv}
use purecheckers.Game.Turns.{IsLegal-make_move}
use purecheckers.Bot.{apply_move, finish_chain}
use purecheckers.Bot.Chain.{done, more, make_move-Round, is_done, none-is_done, finish_chain-done}
use purecheckers.Bot.Search.{chains_end}

done-is_some : (o : Option Game) → is_done o ≡ true → is_some o ≡ true
done-is_some none h = absurd (ground (arith, h))
done-is_some (some g) h = refl

finish_chain-apply_move :
    (g : Game) (m : Move)
    → Inv g
    → g.game_over ≡ false
    → m ∈ all_valid_moves g g.current_player
    → is_done (finish_chain 65 (apply_move g m)) ≡ true
unfolding apply_move
finish_chain-apply_move g m i o l =
    let (after, k) = IsLegal-make_move g m o ((all_valid_moves_iff g m).0 l) in
    let inv = make_move-Inv g m.from_row m.from_col m.to_row m.to_col after i k in
    rw k (elim (make_move-Round g m.from_row m.from_col m.to_row m.to_col after k) [
      | done d ↦ none-is_done 65 after.0 d
      | more go same some_piece ↦
          finish_chain-done 65 after.0 inv (go ∙ o)
            (omega (arith, count_pieces_le after.0.board (opponent after.0.current_player)))
    ])

pub ongoing-chains_end : (g : Game) → Inv g → g.game_over ≡ false → chains_end g ≡ true
unfolding chains_end
ongoing-chains_end g i o =
    all_of_lem (λ m. is_some (finish_chain 65 (apply_move g m)))
      (all_valid_moves g g.current_player)
      (λ m l. done-is_some (finish_chain 65 (apply_move g m)) (finish_chain-apply_move g m i o l))
