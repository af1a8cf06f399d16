-- ===== src/GameRoom/Draws.antt =====
-- How a draw is agreed.
use purecheckers.Base.{
  is_some, ℕ, ◌≡◌, ◌≢◌, refl, subst, ◌⊎◌, if_ind, Bool, true, false, not, ◌&&◌, ◌||◌, ◌==◌, Option,
  none, some, inl, inr, arith,
}
use purecheckers.GameRoom.{
  Seats, Draft, Mutation, unchanged, rejected, changed, agreed, advance_clock, answer,
  draw_response, player_color,
}

-- Another player had offered a draw, no offer is left, and the game is a draw when the answer accepts it
-- in time, else it is the game with the clock advanced.
pub record IsAnswered (user : ℕ) (accepted : Bool) (elapsed : Option ℕ) (d d' : Draft)
    : Type 0 where
  pub offered : ℕ
  pub pending : d.pending_draw_offer ≡ some offered
  pub other : offered ≢ user
  pub cleared : d'.pending_draw_offer ≡ none
  pub outcome :
      ((accepted ≡ true)
        × (d'.game.game_over ≡ true)
        × (d'.game.winner ≡ none)
        × (d'.end_reason ≡ some agreed))
      ⊎ (((accepted ≡ false) ⊎ ((advance_clock elapsed d).game.game_over ≡ true))
          × (d'.game ≡ (advance_clock elapsed d).game))

abbrev Answers : ℕ → Bool → Option ℕ → Draft → Mutation → Type 0
Answers user accepted elapsed d unchanged = Unit {0}
Answers user accepted elapsed d rejected = Unit {0}
Answers user accepted elapsed d (changed d') = IsAnswered user accepted elapsed d d'

other_user : (a b : ℕ) → (a == b) ≡ false → a ≢ b
other_user a b h = ground arith

declined :
    (accepted over : Bool) → (accepted && not over) ≡ false → (accepted ≡ false) ⊎ (over ≡ true)
declined false over h = inl refl
declined true false h = cc
declined true true h = inr refl

accepted_in_time : (accepted over : Bool) → (accepted && not over) ≡ true → accepted ≡ true
accepted_in_time false over h = cc
accepted_in_time true over h = refl

answer-Answers :
    (user : ℕ) (accepted : Bool) (elapsed : Option ℕ) (d : Draft) (o : Option ℕ)
    → d.pending_draw_offer ≡ o
    → Answers user accepted elapsed d (answer user accepted elapsed d o)
unfolding answer
answer-Answers user accepted elapsed d none e = tt
answer-Answers user accepted elapsed d (some offered) e =
    let ticked = record (advance_clock elapsed d) { pending_draw_offer = none } in
    if_ind (Answers user accepted elapsed d) (offered == user) (λ _. tt)
      (λ other.
        if_ind (IsAnswered user accepted elapsed d) (accepted && not ticked.game.game_over)
          (λ t. record {
            offered = offered;
            pending = e;
            other = other_user offered user other;
            cleared = refl;
            outcome = inl ((accepted_in_time accepted ticked.game.game_over t, refl, refl, refl));
          })
          (λ f. record {
            offered = offered;
            pending = e;
            other = other_user offered user other;
            cleared = refl;
            outcome = inr ((declined accepted ticked.game.game_over f, refl));
          }))

-- An answer to a draw offer changes the draft only when another player's offer is pending. It clears
-- the offer, and the game ends in a draw without a winner only when the answer accepts; else the game
-- is the one with the clock advanced, and the answer declined or the time ran out.
pub draw_response-IsAnswered :
    (s : Seats) (user : ℕ) (accepted : Bool) (elapsed : Option ℕ) (d d' : Draft)
    → draw_response s user accepted elapsed d ≡ changed d'
    → IsAnswered user accepted elapsed d d'
unfolding draw_response
draw_response-IsAnswered s user accepted elapsed d d' e =
    let P = Answers user accepted elapsed d in
    subst P e (
      if_ind P (d.game.game_over || not (is_some (player_color s user))) (λ _. tt)
        (λ _.
          if_ind P (is_some d.restart) (λ _. tt)
            (λ _. answer-Answers user accepted elapsed d d.pending_draw_offer refl)))
