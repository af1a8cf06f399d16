-- ===== src/Tests/Server.antt =====
-- The theorems on square numbers, recovery and sessions at small inputs.
use purecheckers.Base.{
  is_some, ℕ, ◌≡◌, refl, ◌⊎◌, true, false, Option, none, some, [], ◌∷◌, arith, ◌==◌, if◌then◌else◌,
}
use purecheckers.Board.{red}
use purecheckers.Notation.{square_coords, square_coords_total}
use purecheckers.Recovery.{Recovery, Decides, recovery_decision, recovery_decision-Decides}
use purecheckers.Sessions
use purecheckers.Sessions.{
  Phase, idle, in_game, matchmaking, allowed, Context, no_context, Notice, Session, Event, State,
  new_session, has_context, truthy, with_notice, set_phase, check_deadline, disconnect_timeout,
  get_or_create_session, put, enter_phase, clear_context, handle_disconnect, lost_in_game,
  set_matchmaking_deadline,
}
use purecheckers.Sessions.Laws.{IsFit}
use purecheckers.Sessions.Timers.{is_current}
use purecheckers.Sessions.Phases.{Follows, Given, Entered, set_phase-Decides}
use purecheckers.Sessions.Reach.{
  Reached, start, begins, creates, enters, disconnects, Reached-IsFit,
}

square_coords_total_example : (row col : ℕ) × (square_coords 32 ≡ some (row, col))
square_coords_total_example = square_coords_total 32 (omega arith) (omega arith)

abbrev restart : Recovery
restart = record { deadline = 100; ready_connections = λ id. if id == 4 then some 11 else none }

abbrev connected : ℕ → Option ℕ
connected _ = some 11

recovery_decision-Decides_example :
    Decides restart connected
      (4 ∷ 5 ∷ [])
      100
      (recovery_decision restart connected (4 ∷ 5 ∷ []) 100)
recovery_decision-Decides_example =
    recovery_decision-Decides restart connected (4 ∷ 5 ∷ []) 100 (omega arith)

abbrev playing : Context
playing = record no_context { game_id = some 3; game_color = some red }

abbrev joined : State
joined = Sessions.get_or_create_session start 1 [] false

abbrev in_play : State
in_play = (set_phase joined 1 in_game playing).0

abbrev lost : State
lost = Sessions.handle_disconnect in_play 1 500

joined-Reached : Reached joined
joined-Reached = creates 1 [] false begins

lost-Reached : Reached lost
lost-Reached = disconnects 1 500 (enters 1 in_game playing joined-Reached)

Reached-IsFit_example : IsFit lost
Reached-IsFit_example = Reached-IsFit lost-Reached

set_phase-Decides_example :
    ((u : Session) × (joined.sessions 1 ≡ some u)
      × Follows u.phase in_game
      × Given in_game playing
      × ((set_phase joined 1 in_game playing).1 ≡ true)
      × Entered joined 1 u in_game playing (set_phase joined 1 in_game playing).0)
    ⊎ (((u : Session)
          → joined.sessions 1 ≡ some u
          → Follows u.phase in_game
          → ¬ Given in_game playing)
        × ((set_phase joined 1 in_game playing).1 ≡ false)
        × ((set_phase joined 1 in_game playing).0 ≡ joined))
set_phase-Decides_example = set_phase-Decides joined 1 in_game playing

abbrev or_new : Option Session → Session
or_new none = new_session [] false
or_new (some u) = u

abbrev lost_session : Session
lost_session = or_new (lost.sessions 1)

lost_found : (lost.sessions 1 ≡ some lost_session) × (is_some lost_session.disconnect_timer ≡ true)
unfolding get_or_create_session set_phase put enter_phase clear_context handle_disconnect
    lost_in_game new_session
lost_found = (refl, refl)

abbrev searching : State
searching =
    (Sessions.set_matchmaking_deadline (set_phase joined 1 matchmaking no_context).0 1 100 200
      150).0

abbrev searching_session : Session
searching_session = or_new (searching.sessions 1)

searching_found : searching.sessions 1 ≡ some searching_session
unfolding get_or_create_session set_phase put enter_phase clear_context set_matchmaking_deadline
    new_session
searching_found = refl

searching_timer : is_current searching_session 0 100 200 ≡ true
unfolding get_or_create_session set_phase put enter_phase clear_context set_matchmaking_deadline
    new_session
searching_timer = refl

abbrev outage : Notice
outage = record {
  sequence = 4;
  dismissed = false;
  id = 9;
  reason = 1 ∷ [];
  context = [];
  occurred_at = 30;
}

abbrev dismissal : Notice
dismissal = record {
  sequence = 4;
  dismissed = true;
  id = 9;
  reason = 1 ∷ [];
  context = [];
  occurred_at = 30;
}
