-- ===== src/Tests/Worker.antt =====
-- The theorems on the search that the bots play by at a small position.
use purecheckers.Base.{leb, refl, Option, some, none, List, [], ◌∷◌, inl, ◌∈◌, arith}
use purecheckers.Board.{red}
use purecheckers.Board.Cells.{IsBoard-rows}
use purecheckers.Game.{all_valid_moves}
use purecheckers.Game.Engine.{engine}
use purecheckers.BotSearch.{Limits, BotScore, score_bot_moves, choose_search_move}
use purecheckers.BotSearch.Exact.{IsPublished, score_bot_moves-IsPublished}
use purecheckers.BotSearch.Stops.{IsTimed, score_bot_moves-IsTimed}
use purecheckers.BotSearch.Choice.{IsPick, IsChosen, choose_search_move-IsChosen}
use purecheckers.Tests.{duel, duel_board, duel_move}

-- The clock is late from the ninth node on.
abbrev brisk : Limits
brisk = record { depth = 2; node_budget = 12; late = λ n. leb 9 n }

score_bot_moves-IsPublished_example : IsPublished duel brisk (score_bot_moves duel brisk)
score_bot_moves-IsPublished_example = score_bot_moves-IsPublished duel brisk

score_bot_moves-IsTimed_example : IsTimed brisk (score_bot_moves duel brisk)
score_bot_moves-IsTimed_example =
    score_bot_moves-IsTimed duel brisk (IsBoard-rows duel_board refl (omega arith)) refl

abbrev first_of : List BotScore → Option BotScore
first_of [] = none
first_of (s ∷ ss) = some s

first_of-IsPick : IsPick first_of
unfolding IsPick
first_of-IsPick s ss = (s, refl, inl refl)

duel_move_legal : duel_move ∈ all_valid_moves duel red
unfolding engine
duel_move_legal = inl refl

choose_search_move-IsChosen_example : IsChosen duel brisk (choose_search_move first_of duel brisk)
choose_search_move-IsChosen_example =
    choose_search_move-IsChosen first_of duel brisk duel_move first_of-IsPick duel_move_legal
