-- ===== src/PuzzleSearch/Turns.antt =====
-- Whole turns: fullMoves, extendChain, describeSquare, finishMove, moveKey, sameMove, serializeMove and
-- applyFullMove of shared/puzzleSearch.js. The class SearchGame leaves out the test for forced draws.
use purecheckers.Base.{
  ℕ, zero, suc, ◌==◌, Bool, true, false, not, ◌&&◌, ◌||◌, if◌then◌else◌, Option, none, some, List,
  [], ◌∷◌, ◌++◌, map, is_empty,
}
use purecheckers.Board.{Color, Piece, Cell, Board, cell, in_board}
use purecheckers.Moves.{Move}
use purecheckers.Game.{
  Game, MoveResult, all_valid_moves, valid_moves_for, find_move, record_move, moved_board, promotes,
  continues, pass_turn, check_game_over,
}
use purecheckers.Puzzle.{Hop, StoredMove, move_hops, play_hops}
use purecheckers.PuzzleSearch.Position.{search_clone}

-- What `makeMove` of a SearchGame returns when it plays the move.
unfoldable pub search_play : Game → Piece → Move → Game × MoveResult
search_play g p m =
    let after = moved_board g.board p m in
    let promoted = promotes p m.to_row in
    let chain = continues after p m in
    let moved = record g { board = after } in
    let turned =
      if chain
      then record moved { chain_piece = some (m.to_row, m.to_col) }
      else check_game_over (pass_turn moved (not (is_empty m.captured))) in
    (
      record_move turned (record {
        from_row = m.from_row;
        from_col = m.from_col;
        to_row = m.to_row;
        to_col = m.to_col;
        captured = m.captured;
        promoted = promoted;
        chain_continues = chain;
      }),
      record { captured = m.captured; promoted = promoted; chain_continues = chain },
    )

-- `makeMove` of a SearchGame.
unfoldable pub search_move : Game → ℕ → ℕ → ℕ → ℕ → Option (Game × MoveResult)
search_move g fr fc tr tc =
    if g.game_over || not (in_board fr fc && in_board tr tc)
    then none
    else elim (find_move (valid_moves_for g fr fc) tr tc) [
      | none ↦ none
      | some m ↦ elim (cell g.board fr fc) [ none ↦ none | some p ↦ some (search_play g p m) ]
    ]

-- A captured piece, of which the color is `null` on a square without one.
pub record Taken : Type 0 where
  pub row : ℕ
  pub col : ℕ
  pub color : Option Color
  pub queen : Bool

pub record FullMove : Type 0 where
  pub from_row : ℕ
  pub from_col : ℕ
  pub to_row : ℕ
  pub to_col : ℕ
  pub hops : List Hop
  pub captured : List Taken
  pub promoted : Bool
  pub after : Game

abbrev pub taken_at : ℕ → ℕ → Cell → Taken
taken_at r c none = record { row = r; col = c; color = none; queen = false }
taken_at r c (some p) = record { row = r; col = c; color = some p.color; queen = p.queen }

abbrev pub describe_square : Board → ℕ × ℕ → Taken
describe_square b (r, c) = taken_at r c (cell b r c)

abbrev pub hop_of : Move → Hop
hop_of m = record {
  from_row = m.from_row;
  from_col = m.from_col;
  to_row = m.to_row;
  to_col = m.to_col;
}

abbrev pub first_hop : Hop → List Hop → Hop
first_hop h [] = h
first_hop h (k ∷ hs) = k

-- A turn whose last hop is `last`.
unfoldable pub finish_move : List Hop → Hop → List Taken → Bool → Game → FullMove
finish_move hops last captured promoted after =
    let first = first_hop last hops in
    record {
      from_row = first.from_row;
      from_col = first.from_col;
      to_row = last.to_row;
      to_col = last.to_col;
      hops = hops ++ last ∷ [];
      captured = captured;
      promoted = promoted;
      after = after;
    }

-- What one listed move adds to the turns, where `extend` goes on with a chain.
abbrev pub branch :
    (Game → List Hop → List Taken → List FullMove)
    → List Hop
    → List Taken
    → Move
    → Option (Game × MoveResult)
    → List FullMove
branch extend hops captured m none = []
branch extend hops captured m (some after) =
    if after.1.chain_continues
    then extend after.0 (hops ++ hop_of m ∷ []) captured
    else finish_move hops (hop_of m) captured after.1.promoted after.0 ∷ []

-- The loops of `fullMoves`, for no hop yet, and of `extendChain`, with one round of fuel for each hop.
unfoldable pub extend_from :
    (Game → List Hop → List Taken → List FullMove)
    → Game
    → List Hop
    → List Taken
    → List Move
    → List FullMove
extend_from extend g hops captured [] = []
extend_from extend g hops captured (m ∷ ms) =
    branch extend hops (captured ++ map (describe_square g.board) m.captured) m
      (search_move (search_clone g) m.from_row m.from_col m.to_row m.to_col)
    ++ extend_from extend g hops captured ms

unfoldable pub extend_chain : ℕ → Game → List Hop → List Taken → List FullMove
extend_chain zero g hops captured = []
extend_chain (suc fuel) g hops captured =
    extend_from (extend_chain fuel) g hops captured (all_valid_moves g g.current_player)

-- A board has 64 squares.
unfoldable pub full_moves : Game → List FullMove
full_moves g = if g.game_over then [] else extend_chain 65 g [] []

-- The squares that the text of `moveKey` names: the start, and the goal of each hop.
unfoldable pub move_key : FullMove → List (ℕ × ℕ)
move_key m =
    let start =
      first_hop
        (record {
          from_row = m.from_row;
          from_col = m.from_col;
          to_row = m.to_row;
          to_col = m.to_col;
        })
        m.hops in
    (start.from_row, start.from_col) ∷ map (λ h. (h.to_row, h.to_col)) m.hops

abbrev pub same_keys : List (ℕ × ℕ) → List (ℕ × ℕ) → Bool
same_keys [] [] = true
same_keys [] (k ∷ ks) = false
same_keys (k ∷ ks) [] = false
same_keys ((r, c) ∷ ks) ((i, j) ∷ ls) = r == i && c == j && same_keys ks ls

unfoldable pub same_move : FullMove → FullMove → Bool
same_move a b = same_keys (move_key a) (move_key b)

-- The stored move, as far as it can be played again.
unfoldable pub serialize_move : FullMove → StoredMove
serialize_move m = record {
  whole = record {
    from_row = m.from_row;
    from_col = m.from_col;
    to_row = m.to_row;
    to_col = m.to_col;
  };
  hops = some m.hops;
}

-- `applyFullMove`, whose loop over the hops is that of the check of a solution.
unfoldable pub apply_full_move : Game → StoredMove → Option Game
apply_full_move g m = play_hops g (move_hops m)
