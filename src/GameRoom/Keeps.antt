-- ===== src/GameRoom/Keeps.antt =====
-- Every command keeps what holds of a draft.
use purecheckers.Base.{
  is_some, includes, ℕ, ◌≡◌, refl, ◌∙◌, if_ind, Bool, true, false, not, ◌&&◌, ◌||◌, leb, ltb, ◌==◌,
  ◌+◌, ◌++◌, ◌∷◌, Option-cases, Option, none, some, [], inl, inr, arith, length,
}
use purecheckers.Board.{Color, same_color}
use purecheckers.Game.{Game, MoveResult, make_move}
use purecheckers.Game.Reach.{starts}
use purecheckers.Game.Reach
use purecheckers.GameRoom.{
  Seats, Draft, Reason, resign, Command, open_reveal, start_at, with_ready, evaluate_recovery,
  acknowledge_recovery, acknowledge_reveal, begin, advance_clock, tick, end_game, resign_game,
  other_color, moved, move, bot_move, opponent_id, draw_offer_cooldown_ms, draw_offer, agree,
  answer, draw_response, restore, mutation, player_color, reveals, recovers, readies, reveal_done,
  begins, ticks, resigns, ends, moves, bot_moves, offers_draw, answers_draw, restores,
}
use purecheckers.GameRoom.Kept.{
  Going, Keeps, same_game, over, clock-Going, clock-started, end_with-Going, recovery-Keeps,
  draft_of-Going,
}

module _ (turn_time : ℕ) (s : Seats) where
  readies-Keeps :
      (connection_for : ℕ → Option ℕ) (user generation now : ℕ) (d : Draft)
      → Going turn_time s d
      → Keeps turn_time s (acknowledge_recovery s connection_for user generation now d)
  unfolding acknowledge_recovery
  readies-Keeps connection_for user generation now d k = elim (Option-cases d.restart) [
    | inl e ↦ rw (e, acknowledge_recovery) tt
    | inr (r, e) ↦
        let ready = record d { restart = some (with_ready user (connection_for user) r) } in
        let going : Going turn_time s ready = same_game turn_time s d ready refl (λ f. f) refl k in
        rw (e, acknowledge_recovery)
          (if_ind (Keeps turn_time s) d.game.game_over (λ _. tt)
            (λ _.
              if_ind (Keeps turn_time s) (not (generation == r.generation)) (λ _. tt)
                (λ _.
                  if_ind (Keeps turn_time s)
                    (not (is_some (player_color s user)) || not (is_some (connection_for user)))
                    (λ _. tt)
                    (λ _.
                      if_ind (Keeps turn_time s) (leb r.recovery.deadline now)
                        (λ _. recovery-Keeps turn_time s connection_for now d k)
                        (λ _.
                          draft_of-Going turn_time s ready
                            (evaluate_recovery s connection_for now ready) going
                            (recovery-Keeps turn_time s connection_for now ready going))))))
  ]

  reveal-Keeps :
      (user now : ℕ) (d : Draft)
      → Going turn_time s d
      → Keeps turn_time s (acknowledge_reveal s user now d)
  unfolding acknowledge_reveal
  reveal-Keeps user now d k =
      if_ind (Keeps turn_time s) (not (is_some (player_color s user))) (λ _. tt)
        (λ _.
          if_ind (Keeps turn_time s)
            (is_some d.restart || d.started || d.game.game_over || includes d.reveal_acks user)
            (λ _. tt)
            (λ free.
              let acked = record d { reveal_acks = d.reveal_acks ++ user ∷ [] } in
              if_ind (Going turn_time s)
                (includes acked.reveal_acks s.red_user && includes acked.reveal_acks s.black_user)
                (λ _. same_game turn_time s d (start_at now acked) refl (λ _. ground arith) refl k)
                (λ _. same_game turn_time s d acked refl (λ f. f) refl k)))

  begin-Keeps : (now : ℕ) (d : Draft) → Going turn_time s d → Keeps turn_time s (begin now d)
  unfolding begin
  begin-Keeps now d k =
      if_ind (Keeps turn_time s) (d.started || d.game.game_over) (λ _. tt)
        (λ free.
          if_ind (Keeps turn_time s) (is_some d.restart) (λ _. tt)
            (λ _. same_game turn_time s d (start_at now d) refl (λ _. ground arith) refl k))

  end-Keeps :
      (winner : Option Color) (reason : Reason) (elapsed : Option ℕ) (d : Draft)
      → Going turn_time s d
      → Keeps turn_time s (end_game winner reason elapsed d)
  unfolding end_game
  end-Keeps winner reason elapsed d k =
      let clocked = clock-Going turn_time s elapsed d k in
      if_ind (Keeps turn_time s) d.game.game_over (λ _. tt)
        (λ _.
          if_ind (Going turn_time s) (advance_clock elapsed d).game.game_over (λ _. clocked)
            (λ _. end_with-Going turn_time s (advance_clock elapsed d) winner reason clocked))

  resign-Keeps :
      (user : ℕ) (elapsed : Option ℕ) (d : Draft)
      → Going turn_time s d
      → Keeps turn_time s (resign_game s user elapsed d)
  unfolding resign_game
  resign-Keeps user elapsed d k = elim (Option-cases (player_color s user)) [
    | inl e ↦ rw (e, resign_game) tt
    | inr (color, e) ↦ rw (e, resign_game) (end-Keeps (some (other_color color)) resign elapsed d k)
  ]

  moved-Keeps :
      (d : Draft) (o : Option (Game × MoveResult)) (fr fc tr tc : ℕ)
      → Going turn_time s d
      → d.game.game_over ≡ false
      → d.started ≡ true
      → make_move d.game fr fc tr tc ≡ o
      → Keeps turn_time s (moved d o)
  moved-Keeps d none fr fc tr tc k o t e = tt
  moved-Keeps d (some after) fr fc tr tc k o t e = record {
    playable = λ _. Reach.moves fr fc tr tc after (k.playable o) e;
    unstarted = λ _ f. cc;
    offers = k.offers;
  }

  move-Keeps :
      (user ply fr fc tr tc : ℕ) (elapsed : Option ℕ) (d : Draft)
      → Going turn_time s d
      → Keeps turn_time s (move s user ply fr fc tr tc elapsed d)
  unfolding move
  move-Keeps user ply fr fc tr tc elapsed d k = elim (Option-cases (player_color s user)) [
    | inl e ↦ rw (e, move) tt
    | inr (color, e) ↦
        let ticked = advance_clock elapsed d in
        let clocked = clock-Going turn_time s elapsed d k in
        rw (e, move)
          (if_ind (Keeps turn_time s) (not d.started) (λ _. tt)
            (λ on.
              if_ind (Keeps turn_time s) (is_some ticked.restart) (λ _. tt)
                (λ _.
                  if_ind (Keeps turn_time s) ticked.game.game_over (λ _. clocked)
                    (λ o.
                      if_ind (Keeps turn_time s) (not (ply == length ticked.game.move_history))
                        (λ _. tt)
                        (λ _.
                          if_ind (Keeps turn_time s)
                            (not (same_color ticked.game.current_player color)) (λ _. tt)
                            (λ _.
                              moved-Keeps ticked (make_move ticked.game fr fc tr tc) fr fc tr tc
                                clocked o (clock-started turn_time s elapsed d ∙ ground arith)
                                refl))))))
  ]

  bot_move-Keeps :
      (color : Color) (ply fr fc tr tc : ℕ) (elapsed : Option ℕ) (d : Draft)
      → Going turn_time s d
      → Keeps turn_time s (bot_move color ply fr fc tr tc elapsed d)
  unfolding bot_move
  bot_move-Keeps color ply fr fc tr tc elapsed d k =
      let ticked = advance_clock elapsed d in
      let clocked = clock-Going turn_time s elapsed d k in
      if_ind (Keeps turn_time s)
        (not d.started
          || is_some d.restart
          || d.game.game_over
          || not (same_color d.game.current_player color)
          || not (ply == length d.game.move_history))
        (λ _. tt)
        (λ on.
          if_ind (Keeps turn_time s) ticked.game.game_over (λ _. clocked)
            (λ o.
              moved-Keeps ticked (make_move ticked.game fr fc tr tc) fr fc tr tc clocked o
                (clock-started turn_time s elapsed d ∙ ground arith) refl))

  offer-Keeps :
      (user now : ℕ) (elapsed : Option ℕ) (d : Draft)
      → Going turn_time s d
      → Keeps turn_time s (draw_offer s user now elapsed d)
  unfolding draw_offer
  offer-Keeps user now elapsed d k =
      let clocked = clock-Going turn_time s elapsed d k in
      if_ind (Keeps turn_time s) (not (is_some (player_color s user)) || d.game.game_over) (λ _. tt)
        (λ sits.
          if_ind (Keeps turn_time s) (s.is_bot (opponent_id s user)) (λ _. tt)
            (λ _.
              if_ind (Keeps turn_time s) (is_some d.restart) (λ _. tt)
                (λ _.
                  if_ind (Keeps turn_time s) (is_some d.pending_draw_offer) (λ _. tt)
                    (λ _.
                      if_ind (Keeps turn_time s)
                        (ltb now (d.last_draw_offer user + draw_offer_cooldown_ms)) (λ _. tt)
                        (λ _.
                          if_ind (Going turn_time s) (advance_clock elapsed d).game.game_over
                            (λ _. clocked)
                            (λ _. record {
                              playable = clocked.playable;
                              unstarted = clocked.unstarted;
                              offers = λ other e. ground arith;
                            }))))))

  answer-Keeps :
      (user : ℕ) (accepted : Bool) (elapsed : Option ℕ) (d : Draft) (o : Option ℕ)
      → Going turn_time s d
      → Keeps turn_time s (answer user accepted elapsed d o)
  unfolding answer
  answer-Keeps user accepted elapsed d none k = tt
  answer-Keeps user accepted elapsed d (some offered) k =
      let clocked = clock-Going turn_time s elapsed d k in
      let ticked = record (advance_clock elapsed d) { pending_draw_offer = none } in
      let none_now : Going turn_time s ticked = record {
        playable = clocked.playable;
        unstarted = clocked.unstarted;
        offers = λ other e. cc;
      } in
      if_ind (Keeps turn_time s) (offered == user) (λ _. tt)
        (λ _.
          if_ind (Going turn_time s) (accepted && not ticked.game.game_over)
            (λ _. over turn_time s ticked (agree ticked) refl refl none_now) (λ _. none_now))

  pub mutation-Keeps :
      (now : ℕ) (elapsed : Option ℕ) (d : Draft) (c : Command)
      → Going turn_time s d
      → Keeps turn_time s (mutation s now elapsed d c)
  unfolding mutation open_reveal tick draw_response restore
  mutation-Keeps now elapsed d (reveals bots timeout_ms) k =
      if_ind (Keeps turn_time s) (is_some d.reveal_deadline) (λ _. tt)
        (λ _. record { playable = k.playable; unstarted = k.unstarted; offers = k.offers })
  mutation-Keeps now elapsed d (recovers connection_for) k =
      recovery-Keeps turn_time s connection_for now d k
  mutation-Keeps now elapsed d (readies connection_for user generation) k =
      readies-Keeps connection_for user generation now d k
  mutation-Keeps now elapsed d (reveal_done user) k = reveal-Keeps user now d k
  mutation-Keeps now elapsed d begins k = begin-Keeps now d k
  mutation-Keeps now elapsed d ticks k =
      if_ind (Keeps turn_time s)
        (not d.started || is_some d.restart || d.game.game_over || d.game.turn_time == 0) (λ _. tt)
        (λ _. clock-Going turn_time s elapsed d k)
  mutation-Keeps now elapsed d (resigns user) k = resign-Keeps user elapsed d k
  mutation-Keeps now elapsed d (ends winner reason) k = end-Keeps winner reason elapsed d k
  mutation-Keeps now elapsed d (moves user ply fr fc tr tc) k =
      move-Keeps user ply fr fc tr tc elapsed d k
  mutation-Keeps now elapsed d (bot_moves color ply fr fc tr tc) k =
      bot_move-Keeps color ply fr fc tr tc elapsed d k
  mutation-Keeps now elapsed d (offers_draw user) k = offer-Keeps user now elapsed d k
  mutation-Keeps now elapsed d (answers_draw user accepted) k =
      if_ind (Keeps turn_time s) (d.game.game_over || not (is_some (player_color s user))) (λ _. tt)
        (λ _.
          if_ind (Keeps turn_time s) (is_some d.restart) (λ _. tt)
            (λ _. answer-Keeps user accepted elapsed d d.pending_draw_offer k))
  mutation-Keeps now elapsed d (restores generation deadline) k =
      if_ind (Keeps turn_time s) d.game.game_over (λ _. tt)
        (λ _. record { playable = k.playable; unstarted = k.unstarted; offers = k.offers })
