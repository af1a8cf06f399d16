-- ===== src/Tests/Table.antt =====
-- The theorems on running games at a game that its two players begin, play and agree to draw.
use purecheckers.Base.{◌≡◌, refl, none, some, true, false}
use purecheckers.Game.Engine.{engine}
use purecheckers.GameRoom.{
  Seats, Draft, new_draft, changed, draft_of, begin, move, player_color, step, mutation, commit,
  complete, begins, offers_draw, answers_draw, draw_offer, draw_response, answer, advance_clock,
  ticks,
}
use purecheckers.GameRoom.Final.{IsClosed, SameResult, step-SameResult}
use purecheckers.GameRoom.Kept.{IsKept}
use purecheckers.GameRoom.Reach.{opens, steps, Reached-IsKept}
use purecheckers.GameRoom.Turns.{MoveDone, move-MoveDone}
use purecheckers.GameRoom.Draws.{IsAnswered, draw_response-IsAnswered}

abbrev seats : Seats
seats = record { red_user = 1; black_user = 2; is_bot = λ _. false }

abbrev begun : Draft
begun = step seats 5 none (new_draft 60 0) begins

abbrev offered : Draft
offered = step seats 40000 none begun (offers_draw 1)

abbrev drawn : Draft
drawn = step seats 41000 none offered (answers_draw 2 true)

abbrev played : Draft
played = draft_of begun (move seats 1 0 5 0 4 1 (some 3) begun)

-- Opens the running game and the engine.
unfoldable table : Unit {0}
unfolding engine new_draft step mutation commit complete begin move draw_offer draw_response answer
    player_color advance_clock
table = tt

played_changes : move seats 1 0 5 0 4 1 (some 3) begun ≡ changed played
unfolding table
played_changes = refl

drawn_changes :
    draw_response seats 2 true none offered
    ≡ changed (draft_of offered (draw_response seats 2 true none offered))
unfolding table
drawn_changes = refl

drawn_over : drawn.game.game_over ≡ true
unfolding table
drawn_over = refl

drawn-IsClosed : IsClosed drawn
unfolding table
drawn-IsClosed = (refl, refl, refl)

Reached-IsKept_example : IsKept 60 seats drawn
Reached-IsKept_example = Reached-IsKept 60 seats (
    steps 41000 none (answers_draw 2 true)
      (steps 40000 none (offers_draw 1) (steps 5 none begins (opens 0))))

step-SameResult_example : SameResult drawn (step seats 42000 (some 3) drawn ticks)
step-SameResult_example = step-SameResult seats 42000 (some 3) drawn ticks drawn_over drawn-IsClosed

move-MoveDone_example : MoveDone seats 1 0 begun played
move-MoveDone_example = move-MoveDone seats 1 0 5 0 4 1 (some 3) begun played played_changes

draw_response-IsAnswered_example :
    IsAnswered 2 true none offered (draft_of offered (draw_response seats 2 true none offered))
draw_response-IsAnswered_example =
    draw_response-IsAnswered seats 2 true none offered _ drawn_changes
