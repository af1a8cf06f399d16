-- ===== src/Tests/Endings.antt =====
-- The theorems on results at a game of two humans and a spectator.
use purecheckers.Base.{
  ◌≡◌, refl, ◌⊎◌, leb, Bool, true, false, none, some, [], ◌∷◌, all_of, any_of, filter, includes,
}
use purecheckers.Game.{same_text}
use purecheckers.Results
use purecheckers.Results.{
  Player, Result, Run, Users, opened, starting, rematched, closed, is_valid, expire_action,
  request_rematch_action, transition_result, cancel_rematch,
}
use purecheckers.Results.Expiry.{Closes, expire-Closes}
use purecheckers.Results.Consent.{IsAgreed, transition_result-IsAgreed}
use purecheckers.Results.Viewers.{Stay, transition_result-Stay}
use purecheckers.Results.Cancel.{Reopens, reopened, some_human, cancel_rematch-Decides}

-- Opens the transitions of a result.
unfoldable results : Unit {0}
unfolding all_of any_of filter includes same_text Results.valid_id Results.valid_key
    Results.valid_player Results.valid_players Results.valid_spectators Results.valid_rematch
    Results.valid_phase Results.valid_frame Results.is_valid Results.normalize_result_state
    Results.result_viewers Results.close_if_empty Results.ask Results.find_player Results.asked
    Results.request_rematch Results.act Results.notices_of Results.transition_result
results = tt

abbrev game_run : Run
game_run = record {
  id = 9;
  schema = 1;
  game_over = true;
  ended_at = 1000;
  red_player_id = 1;
  black_player_id = 2;
  room_id = some 5;
}

abbrev people : Users
people = record { known = λ _. true; is_bot = λ _. false }

abbrev viewing_result : Bool → Bool → Result
viewing_result red black = record {
  status = opened;
  deadline = 181000;
  players =
      record { user_id = 1; viewing = true; requested = red }
      ∷ record { user_id = 2; viewing = true; requested = black }
      ∷ [];
  spectators = record { user_id = 3; room_id = 5; deadline = 181000 } ∷ [];
  rematch = none;
}

abbrev one_asked : Result
one_asked = viewing_result true false

abbrev both_asked : Result
both_asked = record (viewing_result true true) {
  status = starting;
  rematch = some (record { key = 7 ∷ []; players = 2 ∷ 1 ∷ []; game_id = none });
}

one_asked_valid : is_valid one_asked game_run people ≡ true
unfolding results
one_asked_valid = refl

both_asked_valid : is_valid both_asked game_run people ≡ true
unfolding results
both_asked_valid = refl

second_asks :
    transition_result one_asked (request_rematch_action 2) game_run people 2000 (7 ∷ [])
    ≡ some (both_asked, [])
unfolding results
second_asks = refl

clock_valid : Results.valid_id 181000 ≡ true
unfolding results
clock_valid = refl

expire-Closes_example :
    Closes one_asked game_run (transition_result one_asked expire_action game_run people 181000 [])
expire-Closes_example =
    expire-Closes one_asked game_run people 181000 [] one_asked_valid refl refl clock_valid refl

transition_result-IsAgreed_example :
    IsAgreed one_asked (request_rematch_action 2) people 2000 both_asked
transition_result-IsAgreed_example =
    transition_result-IsAgreed one_asked both_asked (request_rematch_action 2) game_run people 2000
      (7 ∷ []) [] second_asks refl refl

transition_result-Stay_example :
    (is_valid both_asked game_run people ≡ true) × Stay one_asked both_asked
transition_result-Stay_example =
    transition_result-Stay one_asked both_asked (request_rematch_action 2) game_run people 2000
      (7 ∷ []) [] second_asks

before_any_deadline : filter (λ w. leb w.deadline 2000) both_asked.spectators ≡ []
unfolding results
before_any_deadline = refl

early_clock_valid : Results.valid_id 2000 ≡ true
unfolding results
early_clock_valid = refl

some_human_asked : some_human people both_asked.players ≡ true
unfolding results
some_human_asked = refl

cancel_rematch-Decides_example :
    ((leb both_asked.deadline 2000 ≡ true)
      × Closes
          (reopened people both_asked)
          game_run
          (cancel_rematch both_asked game_run people 2000))
    ⊎ ((leb both_asked.deadline 2000 ≡ false)
        × Reopens both_asked people (cancel_rematch both_asked game_run people 2000))
cancel_rematch-Decides_example =
    cancel_rematch-Decides both_asked game_run people 2000 both_asked_valid refl some_human_asked
      early_clock_valid (λ _. before_any_deadline)
