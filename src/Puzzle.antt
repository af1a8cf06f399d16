-- ===== src/Puzzle.antt =====
-- Puzzles that players solve: shared/puzzleProgress.js. The server plays the stored line on the engine and
-- takes of the player only the turns of the player's side.
pub mod Solve
use package.purecheckers.Base.{
  ℕ, ◌+◌, ◌/◌, Bool, true, false, not, ◌&&◌, ◌||◌, leb, ◌==◌, if◌then◌else◌, Option, none, some,
  List, [], ◌∷◌, length, is_empty,
}
use package.purecheckers.Board.{Board, Color}
use package.purecheckers.Game.{Game, MoveResult, new_game, board_hash, make_move}

pub record Position : Type 0 where
  pub board : Board
  pub current_player : Color

pub record Hop : Type 0 where
  pub from_row : ℕ
  pub from_col : ℕ
  pub to_row : ℕ
  pub to_col : ℕ

-- A stored move: its start and goal, and its hops when it is a chain.
pub record StoredMove : Type 0 where
  pub whole : Hop
  pub hops : Option (List Hop)

pub record Puzzle : Type 0 where
  pub position : Position
  pub solution : List StoredMove

unfoldable pub puzzle_game : Position → Game
puzzle_game position = record (new_game 0) {
  board = position.board;
  current_player = position.current_player;
  position_history = board_hash position.board position.current_player ∷ [];
}

abbrev pub hops_or : Hop → Option (List Hop) → List Hop
hops_or whole none = whole ∷ []
hops_or whole (some hops) = hops

unfoldable pub move_hops : StoredMove → List Hop
move_hops m = hops_or m.whole m.hops

unfoldable pub same_hop : Hop → Hop → Bool
same_hop a b =
    a.from_row == b.from_row
    && a.from_col == b.from_col
    && a.to_row == b.to_row
    && a.to_col == b.to_col

unfoldable pub same_turn : List Hop → List Hop → Bool
same_turn [] [] = true
same_turn [] (b ∷ bs) = false
same_turn (a ∷ hops) [] = false
same_turn (a ∷ hops) (b ∷ bs) = same_hop a b && same_turn hops bs

-- The game after a hop, which ends the turn exactly when it is the last.
unfoldable pub next_game : Option (Game × MoveResult) → Bool → Option Game
next_game none last = none
next_game (some after) last =
    if after.1.chain_continues
    then (if last then none else some after.0)
    else (if last then some after.0 else none)

abbrev pub and_then : {A : Type 0} → Option Game → A → (Game → A) → A
and_then none stop go = stop
and_then (some g) stop go = go g

-- Plays the hops of one stored move, which must be a whole turn.
unfoldable pub play_hops : Game → List Hop → Option Game
play_hops g [] = some g
play_hops g (h ∷ hs) =
    and_then (next_game (make_move g h.from_row h.from_col h.to_row h.to_col) (is_empty hs)) none
      (λ after. play_hops after hs)

-- Is the turn at the head of `turns` the stored one?
abbrev pub gives : List (List Hop) → List Hop → Bool
gives [] hops = false
gives (turn ∷ turns) hops = same_turn turn hops

abbrev pub after_turn : List (List Hop) → List (List Hop)
after_turn [] = []
after_turn (turn ∷ turns) = turns

-- The loop over the solution; `own` says that the move is the player's, and `turns` has the turns from
-- that one on.
unfoldable pub follows : Game → Bool → List (List Hop) → List StoredMove → Bool
follows g own turns [] = true
follows g own turns (m ∷ ms) =
    if own && not (gives turns (move_hops m))
    then false
    else and_then (play_hops g (move_hops m)) false
        (λ after. follows after (not own) (if own then after_turn turns else turns) ms)

unfoldable pub validate_puzzle_solve : Puzzle → List (List Hop) → Bool
validate_puzzle_solve puzzle turns =
    if is_empty puzzle.solution || not (length turns == (length puzzle.solution + 1) / 2)
    then false
    else follows (puzzle_game puzzle.position) true turns puzzle.solution
