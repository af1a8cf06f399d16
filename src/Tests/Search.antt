-- ===== src/Tests/Search.antt =====
-- The theorems on the bot's search at a small position.
use purecheckers.Base.{◌≡◌, refl, true, Option, some, none, List, [], ◌∷◌, inl, ◌↔◌, ◌∈◌}
use purecheckers.Board.{red}
use purecheckers.Moves.{Move}
use purecheckers.Game.{all_valid_moves}
use purecheckers.Bot.Search.{neg_inf, pos_inf, minimax, plain, best_moves, choose_move, chains_end}
use purecheckers.Bot.Draw.{IsDraw, choose_move-IsGreatest}
use purecheckers.Game.Engine.{engine}
use purecheckers.Bot.Value.{minimax-plain}
use purecheckers.Bot.Choice.{IsGreatest, move_value, best_moves_iff}
use purecheckers.Tests.Play.{duel-Inv}
use purecheckers.Tests.{duel, duel_move}

minimax-plain_example : minimax 3 red true neg_inf pos_inf duel ≡ plain 3 red true duel
minimax-plain_example = minimax-plain 3 red true duel

best_moves_iff_example :
    (chains_end duel ≡ true)
    × ((m : Move)
        → m ∈ best_moves 2 duel ↔ IsGreatest (move_value 2 duel) (all_valid_moves duel red) m)
best_moves_iff_example = best_moves_iff 2 duel duel-Inv refl

abbrev first_of : List Move → Option Move
first_of [] = none
first_of (m ∷ ms) = some m

first_of-IsDraw : IsDraw first_of
unfolding IsDraw
first_of-IsDraw m ms = (m, refl, inl refl)

duel_move_listed : duel_move ∈ all_valid_moves duel red
unfolding engine
duel_move_listed = inl refl

choose_move-IsGreatest_example :
    (n : Move) × (choose_move first_of 2 duel ≡ some (some n))
    × IsGreatest (move_value 2 duel) (all_valid_moves duel red) n
choose_move-IsGreatest_example =
    choose_move-IsGreatest first_of 2 duel duel_move duel-Inv refl first_of-IsDraw duel_move_listed
