-- ===== src/GameRoom/Turns.antt =====
-- A player moves in turn, and for the move number that the player saw.
use purecheckers.Base.{
  is_some, ℕ, ◌+◌, ◌≡◌, refl, ap, sym, subst, ◌∙◌, ◌⊎◌, if_ind, Bool, true, false, not, ◌||◌, ◌==◌,
  if◌then◌else◌, Option-cases, Option, none, some, inl, inr, arith, length, length-append_one,
  is_empty,
}
use purecheckers.Board.{Color, red, black, Piece, same_color}
use purecheckers.Moves.{Move}
use purecheckers.Game.{
  continues, moved_board, Game, MoveResult, make_move, tick_time, play, end_turn, check_game_over,
  check_forced_draw, pass_turn,
}
use purecheckers.Game.Turns.{make_move-Plays}
use purecheckers.GameRoom.{
  Seats, Draft, Mutation, unchanged, rejected, changed, advance_clock, moved, move, player_color,
}

pub end_turn-history :
    (g : Game) (captured : Bool) → (end_turn g captured).move_history ≡ g.move_history
unfolding end_turn check_game_over check_forced_draw pass_turn
end_turn-history g captured =
    let checked : (check_game_over (pass_turn g captured)).move_history ≡ g.move_history =
      ground arith in
    let drawn : (check_forced_draw (check_game_over (pass_turn g captured))).move_history
        ≡ g.move_history =
      ground (arith, checked) in
    if_ind {A = Game} (λ z. z.move_history ≡ g.move_history)
      (check_game_over (pass_turn g captured)).game_over (λ _. checked) (λ _. drawn)

play-history :
    (g : Game) (p : Piece) (m : Move)
    → length (play g p m).0.move_history ≡ length g.move_history + 1
unfolding play
play-history g p m =
    let moved = record g { board = moved_board g.board p m } in
    let chain = continues moved.board p m in
    let turned =
      if chain
      then record moved { chain_piece = some (m.to_row, m.to_col) }
      else end_turn moved (not (is_empty m.captured)) in
    let kept : turned.move_history ≡ g.move_history =
      if_ind {A = Game} (λ z. z.move_history ≡ g.move_history) chain (λ _. refl)
        (λ _. end_turn-history moved (not (is_empty m.captured))) in
    length-append_one turned.move_history _ ∙ ap (λ z. length z + 1) kept

move-history :
    (g : Game) (fr fc tr tc : ℕ) (after : Game × MoveResult)
    → make_move g fr fc tr tc ≡ some after
    → length after.0.move_history ≡ length g.move_history + 1
move-history g fr fc tr tc after e =
    let plays = make_move-Plays g fr fc tr tc after e in
    ap (λ z. length z.0.move_history) plays.result ∙ play-history g plays.piece plays.move

tick-history :
    (g : Game) (seconds : ℕ)
    → ((tick_time g seconds).move_history ≡ g.move_history)
      × ((tick_time g seconds).current_player ≡ g.current_player)
unfolding tick_time
tick-history g seconds = (ground arith, ground arith)

clock-history :
    (elapsed : Option ℕ) (d : Draft)
    → ((advance_clock elapsed d).game.move_history ≡ d.game.move_history)
      × ((advance_clock elapsed d).game.current_player ≡ d.game.current_player)
unfolding advance_clock
clock-history none d = (refl, refl)
clock-history (some elapsed) d =
    let t = tick-history d.game elapsed in
    if_ind {A = Draft}
      (λ z.
        (z.game.move_history ≡ d.game.move_history)
        × (z.game.current_player ≡ d.game.current_player))
      (not d.started || is_some d.restart || d.game.game_over) (λ _. (refl, refl))
      (λ _.
        if_ind {A = Draft}
          (λ z.
            (z.game.move_history ≡ d.game.move_history)
            × (z.game.current_player ≡ d.game.current_player))
          (tick_time d.game elapsed).game_over (λ _. t) (λ _. t))

-- The time ran out before the move, or the move was played: by the side to move, as the move number
-- `ply`, and the history has one move more.
abbrev pub MoveDone : Seats → ℕ → ℕ → Draft → Draft → Type 0
MoveDone s user ply d d' =
    ((d'.game.game_over ≡ true) × (d'.game.move_history ≡ d.game.move_history))
    ⊎ ((player_color s user ≡ some d.game.current_player)
        × (length d.game.move_history ≡ ply)
        × (length d'.game.move_history ≡ ply + 1))

abbrev Done : Seats → ℕ → ℕ → Draft → Mutation → Type 0
Done s user ply d unchanged = Unit {0}
Done s user ply d rejected = Unit {0}
Done s user ply d (changed d') = MoveDone s user ply d d'

moved-Done :
    (s : Seats) (user ply : ℕ) (d e : Draft) (fr fc tr tc : ℕ) (o : Option (Game × MoveResult))
    → make_move e.game fr fc tr tc ≡ o
    → player_color s user ≡ some d.game.current_player
    → length d.game.move_history ≡ ply
    → e.game.move_history ≡ d.game.move_history
    → Done s user ply d (moved e o)
moved-Done s user ply d e fr fc tr tc none r c l h = tt
moved-Done s user ply d e fr fc tr tc (some after) r c l h =
    inr (
      (
        c,
        l,
        move-history e.game fr fc tr tc after r ∙ ap (λ z. length z + 1) h ∙ ap (λ z. z + 1) l,
      ))

same_color_eq : (a b : Color) → not (same_color a b) ≡ false → a ≡ b
same_color_eq red red h = refl
same_color_eq red black h = cc
same_color_eq black red h = cc
same_color_eq black black h = refl

ply_eq : (a b : ℕ) → not (a == b) ≡ false → b ≡ a
ply_eq a b h = ground arith

move-Done :
    (s : Seats) (user ply fr fc tr tc : ℕ) (elapsed : Option ℕ) (d : Draft)
    → Done s user ply d (move s user ply fr fc tr tc elapsed d)
unfolding move
move-Done s user ply fr fc tr tc elapsed d = elim (Option-cases (player_color s user)) [
  | inl e ↦ rw (e, move) tt
  | inr (color, e) ↦
      let ticked = advance_clock elapsed d in
      let c = clock-history elapsed d in
      let P = Done s user ply d in
      rw (e, move)
        (if_ind P (not d.started) (λ _. tt)
          (λ _.
            if_ind P (is_some ticked.restart) (λ _. tt)
              (λ _.
                if_ind P ticked.game.game_over (λ over. inl ((over, c.0)))
                  (λ _.
                    if_ind P (not (ply == length ticked.game.move_history)) (λ _. tt)
                      (λ seen.
                        if_ind P (not (same_color ticked.game.current_player color)) (λ _. tt)
                          (λ turn.
                            moved-Done s user ply d ticked fr fc tr tc
                              (make_move ticked.game fr fc tr tc) refl
                              (e
                                ∙ ap some (
                                    sym (same_color_eq ticked.game.current_player color turn)
                                    ∙ c.1))
                              (ap length (sym c.0)
                                ∙ ply_eq ply (length ticked.game.move_history) seen)
                              c.0))))))
]

-- A move command changes the draft only when the time ran out, which plays nothing, or when the game
-- had as many moves as the player saw and the player's side was to move, and then one move was added.
pub move-MoveDone :
    (s : Seats) (user ply fr fc tr tc : ℕ) (elapsed : Option ℕ) (d d' : Draft)
    → move s user ply fr fc tr tc elapsed d ≡ changed d'
    → MoveDone s user ply d d'
move-MoveDone s user ply fr fc tr tc elapsed d d' e =
    subst (Done s user ply d) e (move-Done s user ply fr fc tr tc elapsed d)
