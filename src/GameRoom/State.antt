-- ===== src/GameRoom/State.antt =====
-- The state of the class GameRoom of server/domain/games.js, its commit, and its seats.
use purecheckers.Base.{
  includes, ℕ, Bool, false, ◌==◌, if◌then◌else◌, Option, none, some, List, [], ◌∷◌, ◌++◌,
}
use purecheckers.Board.{Color, red, black}
use purecheckers.Game.{Game, DrawReason, new_game}
use purecheckers.Recovery.{Recovery}

pub data Reason : Type 0 where
  resign out_of_time no_moves agreed restart_disconnect restart_abandoned : Reason
  drawn : DrawReason → Reason
  other_reason : ℕ → Reason

pub record Seats : Type 0 where
  pub red_user : ℕ
  pub black_user : ℕ
  pub is_bot : ℕ → Bool

-- A recovery after a restart of the server: its generation, and what Recovery decides by.
pub record Restart : Type 0 where
  pub generation : ℕ
  pub recovery : Recovery

pub record Draft : Type 0 where
  pub game : Game
  pub started : Bool
  pub started_at : ℕ
  pub ended_at : Option ℕ
  pub end_reason : Option Reason
  pub reveal_acks : List ℕ
  pub reveal_deadline : Option ℕ
  pub pending_draw_offer : Option ℕ
  pub last_draw_offer : ℕ → ℕ
  pub restart : Option Restart

-- What a mutation asks of the commit: nothing (`false`), a rejection, or the changed draft.
pub data Mutation : Type 0 where
  unchanged rejected : Mutation
  changed : Draft → Mutation

abbrev pub or_else : {A : Type 0} → Option A → A → Option A
or_else none b = some b
or_else (some a) b = some a

abbrev pub draw_text : Option DrawReason → Reason
draw_text none = no_moves
draw_text (some r) = drawn r

-- A commit completes a draft whose game is over.
unfoldable pub complete : ℕ → Draft → Draft
complete now d =
    if d.game.game_over
    then record d {
      ended_at = or_else d.ended_at now;
      pending_draw_offer = none;
      end_reason = or_else d.end_reason (draw_text d.game.draw_reason);
    }
    else d

unfoldable pub commit : ℕ → Draft → Mutation → Draft
commit now d unchanged = d
commit now d rejected = d
commit now d (changed d') = complete now d'

unfoldable pub new_draft : ℕ → ℕ → Draft
new_draft turn_time now = record {
  game = new_game turn_time;
  started = false;
  started_at = now;
  ended_at = none;
  end_reason = none;
  reveal_acks = [];
  reveal_deadline = none;
  pending_draw_offer = none;
  last_draw_offer = λ _. 0;
  restart = none;
}

-- `Set.add`.
unfoldable pub add_ack : List ℕ → ℕ → List ℕ
add_ack acks k = if includes acks k then acks else acks ++ k ∷ []

unfoldable pub add_acks : List ℕ → List ℕ → List ℕ
add_acks acks [] = acks
add_acks acks (k ∷ ks) = add_acks (add_ack acks k) ks

unfoldable pub player_color : Seats → ℕ → Option Color
player_color s user =
    if user == s.red_user then some red else if user == s.black_user then some black else none

unfoldable pub opponent_id : Seats → ℕ → ℕ
opponent_id s user = if user == s.red_user then s.black_user else s.red_user

abbrev pub human : Seats → ℕ → List ℕ
human s id = if s.is_bot id then [] else id ∷ []

unfoldable pub recovery_humans : Seats → List ℕ
recovery_humans s = human s s.red_user ++ human s s.black_user
