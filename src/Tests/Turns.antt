-- ===== src/Tests/Turns.antt =====
-- The theorems on the search for puzzles at a position whose red man takes two pieces in one turn.
use purecheckers.Base.{ℕ, ◌≡◌, refl, false, Option, some, none, List, [], ◌∷◌, inl, ◌∈◌, map, arith}
use purecheckers.Base.Int.{pos}
use purecheckers.Board.{red}
use purecheckers.Board.Cells.{IsBoard-rows}
use purecheckers.Game.{Game}
use purecheckers.Game.Engine.{engine}
use purecheckers.Bot.Search.{neg_inf, pos_inf}
use purecheckers.PuzzleSearch.Position.{search_clone, mirror}
use purecheckers.PuzzleSearch.Turns.{
  FullMove, finish_move, search_play, search_move, extend_from, extend_chain, full_moves,
}
use purecheckers.PuzzleSearch.Replay.{IsReplayed, full_moves-IsReplayed}
use purecheckers.Puzzle.{Hop, next_game, play_hops}
use purecheckers.PuzzleSearch.Hops.{IsListed}
use purecheckers.PuzzleSearch.Complete.{full_moves-IsListed}
use purecheckers.PuzzleSearch.Mirror.{mirror-mirror}
use purecheckers.PuzzleSearch.Deepening.{Options, search, score_moves}
use purecheckers.PuzzleSearch.Budget.{IsBudgeted, search-IsBudgeted}
use purecheckers.PuzzleSearch.Scoring.{IsScored, score_moves-IsScored}
use purecheckers.PuzzleSearch.Exact.{IsExact, search-IsExact}
use purecheckers.Tests.{duel, duel_board}

abbrev quick : Options
quick = record {
  depth = 1;
  color = red;
  node_budget = 12;
  ply = 0;
  alpha = neg_inf;
  beta = pos_inf;
  max_quiescence = 1;
}

search-IsBudgeted_example : IsBudgeted 12 (search duel quick)
search-IsBudgeted_example = search-IsBudgeted duel quick

score_moves-IsScored_example : IsScored duel quick (score_moves duel quick (some (pos 10)))
score_moves-IsScored_example = score_moves-IsScored duel quick (some (pos 10))

search-IsExact_example : IsExact quick duel (search duel quick)
search-IsExact_example = search-IsExact quick duel refl refl

mirror-mirror_example :
    mirror (mirror (record { board = duel_board; current_player = red }))
    ≡ record { board = duel_board; current_player = red }
mirror-mirror_example =
    mirror-mirror (record { board = duel_board; current_player = red })
      (IsBoard-rows duel_board refl (omega arith))

abbrev no_turn : FullMove
no_turn = record {
  from_row = 0;
  from_col = 0;
  to_row = 0;
  to_col = 0;
  hops = [];
  captured = [];
  promoted = false;
  after = duel;
}

abbrev first_turn : List FullMove → FullMove
first_turn [] = no_turn
first_turn (x ∷ xs) = x

unfoldable double_take : FullMove
double_take = first_turn (full_moves duel)

double_take_hops :
    map {B = ℕ × ℕ} (λ h. (h.to_row, h.to_col)) double_take.hops ≡ (2, 5) ∷ (0, 3) ∷ []
unfolding engine double_take search_clone search_play search_move finish_move extend_from
    extend_chain full_moves
double_take_hops = refl

double_take_listed : double_take ∈ full_moves duel
unfolding engine double_take search_clone search_play search_move finish_move extend_from
    extend_chain full_moves
double_take_listed = inl refl

full_moves-IsReplayed_example : IsReplayed duel double_take
full_moves-IsReplayed_example = full_moves-IsReplayed duel double_take double_take_listed

abbrev take_one : Hop
take_one = record { from_row = 4; from_col = 3; to_row = 2; to_col = 5 }

abbrev take_two : Hop
take_two = record { from_row = 2; from_col = 5; to_row = 0; to_col = 3 }

abbrev or_duel : Option Game → Game
or_duel none = duel
or_duel (some g) = g

unfoldable taken_twice : Game
taken_twice = or_duel (play_hops duel (take_one ∷ take_two ∷ []))

takes_twice : play_hops duel (take_one ∷ take_two ∷ []) ≡ some taken_twice
unfolding engine taken_twice play_hops next_game
takes_twice = refl

full_moves-IsListed_example : IsListed (full_moves duel) (take_one ∷ take_two ∷ []) taken_twice
full_moves-IsListed_example =
    full_moves-IsListed duel take_one (take_two ∷ []) taken_twice
      (IsBoard-rows duel_board refl (omega arith)) takes_twice
