-- ===== src/Game/Invariant.antt =====
-- What holds of a game between two calls of its methods.
use purecheckers.Base.{
  ℕ, ◌+◌, ◌<◌, ◌≡◌, refl, subst, ap, ◌∙◌, inl, inr, Bool, true, false, if◌then◌else◌, Bool-cases,
  List, [], ◌∷◌, ◌++◌, arith, is_empty,
}
use purecheckers.Board.{Color, opponent}
use purecheckers.Board.Cells.{IsBoard}
use purecheckers.Game.{
  Game, board_hash, all_valid_moves, valid_moves_for, count_text, same_text, check_game_over,
  check_forced_draw, pass_turn, end_turn, tick_time, draw_repetition_count, draw_no_capture_moves,
}

-- An unfinished game has a legal move, and no draw is due.
pub record Live (g : Game) : Type 0 where
  pub moves : is_empty (all_valid_moves g g.current_player) ≡ false
  pub repeats : (t : List ℕ) → count_text t g.position_history < draw_repetition_count
  pub captures_due : g.moves_without_capture < draw_no_capture_moves

abbrev pub LiveIfOngoing : Game → Type 0
LiveIfOngoing g = g.game_over ≡ false → Live g

count_text-append :
    (t h : List ℕ) (hs : List (List ℕ))
    → count_text t (hs ++ h ∷ []) ≡ count_text t hs + (if same_text h t then 1 else 0)
unfolding count_text
count_text-append t h [] = omega arith
count_text-append t h (x ∷ hs) = omega (arith, count_text-append t h hs)

pub same_text_iff : (s t : List ℕ) → (same_text s t ≡ true → s ≡ t) × (s ≡ t → same_text s t ≡ true)
unfolding same_text
same_text_iff [] [] = (λ _. refl, λ _. refl)
same_text_iff [] (y ∷ ys) = (λ h. cc, λ h. cc)
same_text_iff (x ∷ xs) [] = (λ h. cc, λ h. cc)
same_text_iff (x ∷ xs) (y ∷ ys) =
    let ih = same_text_iff xs ys in (λ h. ground (arith, ih.0), λ h. ground (arith, ih.1))

-- A board that the forced draws pass has no text three times.
forced_repeats :
    (g : Game)
    → ((t : List ℕ) → count_text t g.position_history < draw_repetition_count)
    → (check_forced_draw g).game_over ≡ false
    → (t : List ℕ) → count_text t (check_forced_draw g).position_history < draw_repetition_count
unfolding check_forced_draw
forced_repeats g h o t =
    let hash = board_hash g.board g.current_player in
    elim (Bool-cases (same_text hash t)) [
      | inl e ↦
          let s = (same_text_iff hash t).0 e in
          subst (λ x. count_text x (check_forced_draw g).position_history < draw_repetition_count) s
            (ground arith)
      | inr n ↦ ground (arith, count_text-append t hash g.position_history, h t)
    ]

check_game_over_moves :
    (g : Game)
    → (check_game_over g).game_over ≡ false
    → (check_game_over g ≡ g) × (is_empty (all_valid_moves g g.current_player) ≡ false)
unfolding check_game_over
check_game_over_moves g h = ground arith

-- The moves depend on the board, the turn and the chain only.
pub all_valid_moves-ext :
    (g h : Game) (color : Color)
    → g.board ≡ h.board
    → g.current_player ≡ h.current_player
    → g.chain_piece ≡ h.chain_piece
    → all_valid_moves g color ≡ all_valid_moves h color
unfolding all_valid_moves valid_moves_for
all_valid_moves-ext g h color p q r = ground arith

-- What a game that passed both draw tests looks like.
pub record Passed (g h : Game) : Type 0 where
  pub board : h.board ≡ g.board
  pub turn : h.current_player ≡ g.current_player
  pub chain : h.chain_piece ≡ g.chain_piece
  pub count : h.moves_without_capture < draw_no_capture_moves
  pub ongoing : g.game_over ≡ false

check_forced_draw-Passed :
    (g : Game) → (check_forced_draw g).game_over ≡ false → Passed g (check_forced_draw g)
unfolding check_forced_draw
check_forced_draw-Passed g h = ground arith

end_turn_open :
    (g : Game) (captured : Bool)
    → (end_turn g captured).game_over ≡ false
    → (end_turn g captured ≡ check_forced_draw (pass_turn g captured))
      × (is_empty (all_valid_moves (pass_turn g captured) (opponent g.current_player)) ≡ false)
unfolding end_turn check_game_over pass_turn
end_turn_open g captured h = ground arith

pass_turn_history :
    (g : Game) (captured : Bool) → (pass_turn g captured).position_history ≡ g.position_history
unfolding pass_turn
pass_turn_history g captured = refl

pass_turn_player :
    (g : Game) (captured : Bool) → (pass_turn g captured).current_player ≡ opponent g.current_player
unfolding pass_turn
pass_turn_player g captured = refl

-- The end of a turn leaves a finished game or a live one.
pub end_turn-Live :
    (g : Game) (captured : Bool)
    → ((t : List ℕ) → count_text t g.position_history < draw_repetition_count)
    → LiveIfOngoing (end_turn g captured)
end_turn-Live g captured h live =
    let (e, some_move) = end_turn_open g captured live in
    let p = pass_turn g captured in
    let drawn = check_forced_draw p in
    let open_ : drawn.game_over ≡ false = rw e at live in
    let passed = check_forced_draw-Passed p open_ in
    let player : drawn.current_player ≡ opponent g.current_player =
      passed.turn ∙ pass_turn_player g captured in
    rw e (record {
      moves =
          ap (λ z. is_empty (all_valid_moves drawn z)) player
          ∙ ap is_empty (
              all_valid_moves-ext drawn p (opponent g.current_player) passed.board passed.turn
                passed.chain)
          ∙ some_move;
      repeats = forced_repeats p (λ t. rw (pass_turn_history g captured) (h t)) open_;
      captures_due = passed.count;
    })

-- `h` differs from `g` in clocks, history of moves or the end only.
pub record SamePlay (g h : Game) : Type 0 where
  pub board : h.board ≡ g.board
  pub turn : h.current_player ≡ g.current_player
  pub chain : h.chain_piece ≡ g.chain_piece
  pub positions : h.position_history ≡ g.position_history
  pub quiet : h.moves_without_capture ≡ g.moves_without_capture

pub SamePlay-Live : (g h : Game) → SamePlay g h → Live g → Live h
SamePlay-Live g h s l = record {
  moves =
      ap is_empty (
        all_valid_moves-ext h g h.current_player s.board s.turn s.chain
        ∙ ap (all_valid_moves g) s.turn)
      ∙ l.moves;
  repeats = λ t. rw s.positions (l.repeats t);
  captures_due = rw s.quiet l.captures_due;
}

pub tick_time-SamePlay : (g : Game) (seconds : ℕ) → SamePlay g (tick_time g seconds)
unfolding tick_time
tick_time-SamePlay g seconds = ground arith

pub record Inv (g : Game) : Type 0 where
  pub board : IsBoard g.board
  pub live : LiveIfOngoing g

tick_time_over :
    (g : Game) (seconds : ℕ) → (tick_time g seconds).game_over ≡ false → g.game_over ≡ false
unfolding tick_time
tick_time_over g seconds h = ground arith

-- The clock keeps the invariant.
pub tick_time-Inv : (g : Game) (seconds : ℕ) → Inv g → Inv (tick_time g seconds)
tick_time-Inv g seconds i = record {
  board = rw (tick_time-SamePlay g seconds).board i.board;
  live = λ o.
      SamePlay-Live g (tick_time g seconds) (tick_time-SamePlay g seconds)
        (i.live (tick_time_over g seconds o));
}
