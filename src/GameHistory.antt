-- ===== src/GameHistory.antt =====
-- The replay of a recorded game: describeHistory of shared/gameHistory.js. What is not an array, and an
-- entry that is no move, is `none`; of a turn's notation the text is its parts.
pub mod Timeless
pub mod Recorded
pub mod Log
pub mod Replayed
use package.purecheckers.Base.{
  ℕ, ◌+◌, ◌<◌, ltb, Bool, true, false, not, ◌&&◌, ◌||◌, if◌then◌else◌, Option, none, some, List, [],
  ◌∷◌, ◌++◌, length, map, is_empty,
}
use package.purecheckers.Board.{Color, red, black, Cell, cell}
use package.purecheckers.Game.{Game, MoveResult, Played, new_game, make_move}
use package.purecheckers.Notation.{square_number}
use package.purecheckers.Puzzle.{Hop}

-- The parts of a text of moveNotation: is the separator "x", the numbers of the squares, where `none` is
-- "null", and does " K" follow?
pub record MoveText : Type 0 where
  pub crossed : Bool
  pub numbers : List (Option ℕ)
  pub crowned : Bool

pub record LoggedTurn : Type 0 where
  pub num : ℕ
  pub color : Color
  pub hops : List Played
  pub captured : List (ℕ × ℕ)
  pub promoted : Bool
  pub notation : MoveText

pub record Described : Type 0 where
  pub captured_red : List Cell
  pub captured_black : List Cell
  pub moves : List Played
  pub move_log : List LoggedTurn
  pub invalid_move_index : Option ℕ

abbrev pub blank_text : MoveText
blank_text = record { crossed = false; numbers = []; crowned = false }

abbrev pub start_number : List Played → List (Option ℕ)
start_number [] = []
start_number (h ∷ hs) = square_number h.from_row h.from_col ∷ []

-- `moveNotation(turn) + (turn.promoted ? ' K' : '')`.
unfoldable pub move_notation : LoggedTurn → MoveText
move_notation t = record {
  crossed = not (is_empty t.captured) || ltb 1 (length t.hops);
  numbers = start_number t.hops ++ map (λ h. square_number h.to_row h.to_col) t.hops;
  crowned = t.promoted;
}

-- `at(-1)`, as the list of what is there.
unfoldable pub at_last : List Played → List Played
at_last [] = []
at_last (h ∷ []) = h ∷ []
at_last (h ∷ k ∷ hs) = at_last (k ∷ hs)

abbrev pub add_hops : List Played → MoveResult → LoggedTurn → LoggedTurn
add_hops hops result t =
    let t' = record t {
      hops = t.hops ++ hops;
      captured = t.captured ++ result.captured;
      promoted = t.promoted || result.promoted;
    } in
    record t' { notation = move_notation t' }

-- The turn in progress is the last of the log.
unfoldable pub on_last : (LoggedTurn → LoggedTurn) → List LoggedTurn → List LoggedTurn
on_last f [] = []
on_last f (t ∷ []) = f t ∷ []
on_last f (t ∷ u ∷ ts) = t ∷ on_last f (u ∷ ts)

abbrev pub new_turn : ℕ → Color → LoggedTurn
new_turn num color = record {
  num = num;
  color = color;
  hops = [];
  captured = [];
  promoted = false;
  notation = blank_text;
}

abbrev pub with_captured : Color → List Cell → Described → Described
with_captured red taken d = record d { captured_red = d.captured_red ++ taken }
with_captured black taken d = record d { captured_black = d.captured_black ++ taken }

-- One step of the loop, from the replayed game `g` to `after`; `going` says that a turn is in progress.
unfoldable pub describe_step : Game → Game × MoveResult → Bool → Described → Described
describe_step g after going d =
    let normalized = at_last after.0.move_history in
    let log =
      if going
      then d.move_log
      else d.move_log ++ new_turn (length d.move_log + 1) g.current_player ∷ [] in
    let taken =
      with_captured g.current_player (map (λ (r, c). cell g.board r c) after.1.captured) d in
    record taken {
      moves = d.moves ++ normalized;
      move_log = on_last (add_hops normalized after.1) log;
    }

abbrev pub stop_at : ℕ → Described → Described
stop_at index d = record d { invalid_move_index = some index }

-- `move && replay.makeMove(…)`.
abbrev pub replay_move : Game → Option Hop → Option (Game × MoveResult)
replay_move g none = none
replay_move g (some h) = make_move g h.from_row h.from_col h.to_row h.to_col

-- Goes on with `go` after a played step, or stops at the index.
abbrev pub replay_or_stop :
    Game
    → ℕ
    → Bool
    → Described
    → (Game → Bool → Described → Described)
    → Option (Game × MoveResult)
    → Described
replay_or_stop g index going d go none = stop_at index d
replay_or_stop g index going d go (some after) =
    go after.0 after.1.chain_continues (describe_step g after going d)

unfoldable pub describe_from : Game → ℕ → Bool → Described → List (Option Hop) → Described
describe_from g index going d [] = d
describe_from g index going d (h ∷ hs) =
    replay_or_stop g index going d (λ g' going' d'. describe_from g' (index + 1) going' d' hs)
      (replay_move g h)

abbrev pub nothing_yet : Described
nothing_yet = record {
  captured_red = [];
  captured_black = [];
  moves = [];
  move_log = [];
  invalid_move_index = none;
}

-- `turn_time` is that of a new game.
unfoldable pub describe_history : ℕ → Option (List (Option Hop)) → Described
describe_history turn_time none = stop_at 0 nothing_yet
describe_history turn_time (some history) =
    describe_from (new_game turn_time) 0 false nothing_yet history
