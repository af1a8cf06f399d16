-- ===== src/PuzzleSearch/Spot.antt =====
-- A move of the class SearchGame beside the same move of the game itself.
use purecheckers.Base.{
  ℕ, ◌≡◌, refl, ap, sym, ◌∙◌, inl, inr, Bool, true, false, not, ◌&&◌, ◌||◌, if◌then◌else◌,
  Bool-cases, Option, none, some, List, [], ◌∷◌, ◌++◌, arith, is_empty,
}
use purecheckers.Board.{opponent, Piece, Cell, cell, in_board}
use purecheckers.Moves.{Move}
use purecheckers.Game.{
  Game, MoveResult, valid_moves_for, find_move, moved_board, continues, pass_turn, check_game_over,
  play, make_move,
}
use purecheckers.Game.Material.{play-board}
use purecheckers.Bot.Chain.{ended_turn}
use purecheckers.Puzzle.{Hop}
use purecheckers.PuzzleSearch.Position.{search_clone}
use purecheckers.PuzzleSearch.Turns.{Taken, finish_move, search_play, search_move}

abbrev pub result_or : Game × MoveResult → Option (Game × MoveResult) → Game × MoveResult
result_or d none = d
result_or d (some a) = a

-- The move and the piece that both engines find.
abbrev pub found_at : Bool → Option Move → Cell → Option (Move × Piece)
found_at true o c = none
found_at false none c = none
found_at false (some m) none = none
found_at false (some m) (some p) = some (m, p)

abbrev pub found : Game → ℕ → ℕ → ℕ → ℕ → Option (Move × Piece)
found g fr fc tr tc =
    found_at (g.game_over || not (in_board fr fc && in_board tr tc))
      (find_move (valid_moves_for g fr fc) tr tc) (cell g.board fr fc)

abbrev pub played_by :
    (Piece → Move → Game × MoveResult) → Option (Move × Piece) → Option (Game × MoveResult)
played_by f none = none
played_by f (some (m, p)) = some (f p m)

found_split :
    (f : Piece → Move → Game × MoveResult) (b : Bool) (o : Option Move) (c : Cell)
    → (if b
        then none
        else elim o [ none ↦ none | some m ↦ elim c [ none ↦ none | some p ↦ some (f p m) ] ])
      ≡ played_by f (found_at b o c)
found_split f true o c = refl
found_split f false none c = refl
found_split f false (some m) none = refl
found_split f false (some m) (some p) = refl

pub make_move-found :
    (g : Game) (fr fc tr tc : ℕ)
    → make_move g fr fc tr tc ≡ played_by (play g) (found g fr fc tr tc)
unfolding make_move
make_move-found g fr fc tr tc =
    found_split (play g) (g.game_over || not (in_board fr fc && in_board tr tc))
      (find_move (valid_moves_for g fr fc) tr tc) (cell g.board fr fc)

pub search_move-found :
    (g : Game) (fr fc tr tc : ℕ)
    → search_move g fr fc tr tc ≡ played_by (search_play g) (found g fr fc tr tc)
unfolding search_move
search_move-found g fr fc tr tc =
    found_split (search_play g) (g.game_over || not (in_board fr fc && in_board tr tc))
      (find_move (valid_moves_for g fr fc) tr tc) (cell g.board fr fc)

-- The games have the same board, turn and chain.
pub record SameSpot (g h : Game) : Type 0 where
  pub board : h.board ≡ g.board
  pub turn : h.current_player ≡ g.current_player
  pub chain : h.chain_piece ≡ g.chain_piece
  pub over : h.game_over ≡ g.game_over

pub SameSpot-found :
    (g h : Game) (fr fc tr tc : ℕ) → SameSpot g h → found h fr fc tr tc ≡ found g fr fc tr tc
unfolding valid_moves_for
SameSpot-found g h fr fc tr tc s = rw (s.board, s.turn, s.chain, s.over) refl

-- A move of the real engine and the same one of the search.
pub record SamePlay (a b : Game × MoveResult) : Type 0 where
  pub chain : b.1.chain_continues ≡ a.1.chain_continues
  pub board : b.0.board ≡ a.0.board
  pub turn : b.0.current_player ≡ a.0.current_player
  pub goes_on : a.1.chain_continues ≡ true → SameSpot a.0 b.0

search_play-board :
    (g : Game) (p : Piece) (m : Move) → (search_play g p m).0.board ≡ moved_board g.board p m
unfolding search_play check_game_over pass_turn
search_play-board g p m = ground arith

passed_turn :
    (g : Game) (captured : Bool)
    → (check_game_over (pass_turn g captured)).current_player ≡ opponent g.current_player
unfolding check_game_over pass_turn
passed_turn g captured = ground arith

pub play-SamePlay :
    (g h : Game) (p : Piece) (m : Move) → SameSpot g h → SamePlay (search_play g p m) (play h p m)
unfolding play search_play
play-SamePlay g h p m s =
    let flag : continues (moved_board h.board p m) p m ≡ continues (moved_board g.board p m) p m =
      ap (λ b. continues (moved_board b p m) p m) s.board in
    let board =
      play-board h p m ∙ ap (λ b. moved_board b p m) s.board ∙ sym (search_play-board g p m) in
    let moved_g = record g { board = moved_board g.board p m } in
    let moved_h = record h { board = moved_board h.board p m } in
    let captured = not (is_empty m.captured) in
    elim (Bool-cases (continues (moved_board g.board p m) p m)) [
      | inl t ↦
          let turn : (play h p m).0.current_player ≡ (search_play g p m).0.current_player =
            rw (flag ∙ t, t) s.turn in
          record {
            chain = flag;
            board = board;
            turn = turn;
            goes_on = λ _. record {
              board = board;
              turn = turn;
              chain = rw (flag ∙ t, t) refl;
              over = rw (flag ∙ t, t) s.over;
            };
          }
      | inr f ↦ record {
        chain = flag;
        board = board;
        turn =
            rw (flag ∙ f, f)
              (ended_turn moved_h captured
                ∙ ap opponent s.turn
                ∙ sym (passed_turn moved_g captured));
        goes_on = λ c. absurd (ground (arith, c, f));
      }
    ]

pub clone-SameSpot : (g h : Game) → SameSpot g h → SameSpot (search_clone g) h
unfolding search_clone
clone-SameSpot g h s = record { board = s.board; turn = s.turn; chain = s.chain; over = s.over }

pub finish_move-hops :
    (hops : List Hop) (last : Hop) (captured : List Taken) (promoted : Bool) (after : Game)
    → (finish_move hops last captured promoted after).hops ≡ hops ++ last ∷ []
unfolding finish_move
finish_move-hops hops last captured promoted after = refl

pub finish_move-board :
    (hops : List Hop) (last : Hop) (captured : List Taken) (promoted : Bool) (after : Game)
    → (finish_move hops last captured promoted after).after.board ≡ after.board
unfolding finish_move
finish_move-board hops last captured promoted after = refl

pub finish_move-turn :
    (hops : List Hop) (last : Hop) (captured : List Taken) (promoted : Bool) (after : Game)
    → (finish_move hops last captured promoted after).after.current_player ≡ after.current_player
unfolding finish_move
finish_move-turn hops last captured promoted after = refl
