-- ===== src/GameRoom/Final.antt =====
-- A finished game stays as it ended.
use purecheckers.Base.{
  is_some, ℕ, ◌≡◌, refl, ap, sym, subst, ◌∙◌, if_ind, true, not, Option-cases, Option, none, some,
  inl, inr, arith,
}
use purecheckers.GameRoom.{
  Seats, or_else, draw_text, Draft, Mutation, unchanged, rejected, changed, Command, complete,
  commit, open_reveal, evaluate_recovery, acknowledge_recovery, acknowledge_reveal, begin,
  advance_clock, tick, end_game, resign_game, move, bot_move, draw_offer, draw_response, restore,
  mutation, step, player_color, reveals, recovers, readies, reveal_done, begins, ticks, resigns,
  ends, moves, bot_moves, offers_draw, answers_draw, restores,
}

-- The books of a game that is over are closed.
abbrev pub IsClosed : Draft → Type 0
IsClosed d =
    (is_some d.ended_at ≡ true) × (is_some d.end_reason ≡ true) × (d.pending_draw_offer ≡ none)

-- What a finished game keeps.
pub record SameResult (d d' : Draft) : Type 0 where
  pub game : d'.game ≡ d.game
  pub ended_at : d'.ended_at ≡ d.ended_at
  pub end_reason : d'.end_reason ≡ d.end_reason
  pub pending : d'.pending_draw_offer ≡ d.pending_draw_offer

advance_clock-over :
    (elapsed : Option ℕ) (d : Draft) → d.game.game_over ≡ true → advance_clock elapsed d ≡ d
unfolding advance_clock
advance_clock-over none d h = refl
advance_clock-over (some e) d h = ground arith

-- A mutation that keeps the result.
abbrev Keeping : Draft → Mutation → Type 0
Keeping d unchanged = Unit {0}
Keeping d rejected = Unit {0}
Keeping d (changed d') = SameResult d d'

same_refl : (d : Draft) → SameResult d d
same_refl d = record { game = refl; ended_at = refl; end_reason = refl; pending = refl }

kept : {A : Type 0} (o : Option A) (b : A) → is_some o ≡ true → or_else o b ≡ o
kept none b h = cc
kept (some a) b h = refl

complete-Same :
    (now : ℕ) (d d' : Draft)
    → d.game.game_over ≡ true
    → IsClosed d
    → SameResult d d'
    → SameResult d (complete now d')
unfolding complete
complete-Same now d d' h c s =
    let ended : is_some d'.ended_at ≡ true = ap is_some s.ended_at ∙ c.0 in
    let reason : is_some d'.end_reason ≡ true = ap is_some s.end_reason ∙ c.1 in
    if_ind (SameResult d) d'.game.game_over
      (λ _. record {
        game = s.game;
        ended_at = kept d'.ended_at now ended ∙ s.ended_at;
        end_reason = kept d'.end_reason (draw_text d'.game.draw_reason) reason ∙ s.end_reason;
        pending = sym c.2;
      })
      (λ _. s)

commit-Same :
    (now : ℕ) (d : Draft) (m : Mutation)
    → d.game.game_over ≡ true
    → IsClosed d
    → Keeping d m
    → SameResult d (commit now d m)
unfolding commit
commit-Same now d unchanged h c k = same_refl d
commit-Same now d rejected h c k = same_refl d
commit-Same now d (changed d') h c k = complete-Same now d d' h c k

still : (d : Draft) (m : Mutation) → m ≡ unchanged → Keeping d m
still d m e = subst (Keeping d) (sym e) tt

move-Keeping :
    (s : Seats) (user ply fr fc tr tc : ℕ) (elapsed : Option ℕ) (d : Draft)
    → d.game.game_over ≡ true
    → Keeping d (move s user ply fr fc tr tc elapsed d)
unfolding move
move-Keeping s user ply fr fc tr tc elapsed d h = elim (Option-cases (player_color s user)) [
  | inl e ↦ rw (e, move) tt
  | inr (color, e) ↦
      rw (e, move, advance_clock-over elapsed d h)
        (if_ind (Keeping d) (not d.started) (λ _. tt)
          (λ _.
            if_ind (Keeping d) (is_some d.restart) (λ _. tt)
              (λ _. if_ind (Keeping d) d.game.game_over (λ _. same_refl d) (λ f. cc))))
]

-- Every mutation of a finished game.
mutation-Keeping :
    (s : Seats) (now : ℕ) (elapsed : Option ℕ) (d : Draft) (c : Command)
    → d.game.game_over ≡ true
    → Keeping d (mutation s now elapsed d c)
unfolding mutation open_reveal evaluate_recovery acknowledge_recovery acknowledge_reveal begin tick
    end_game resign_game bot_move draw_offer draw_response restore
mutation-Keeping s now elapsed d (reveals bots timeout_ms) h =
    if_ind (Keeping d) (is_some d.reveal_deadline) (λ _. tt)
      (λ _. record { game = refl; ended_at = refl; end_reason = refl; pending = refl })
mutation-Keeping s now elapsed d (recovers connection_for) h = still d _ (ground arith)
mutation-Keeping s now elapsed d (readies connection_for user generation) h =
    still d _ (ground arith)
mutation-Keeping s now elapsed d (reveal_done user) h = still d _ (ground arith)
mutation-Keeping s now elapsed d begins h = still d _ (ground arith)
mutation-Keeping s now elapsed d ticks h = still d _ (ground arith)
mutation-Keeping s now elapsed d (resigns user) h = still d _ (ground arith)
mutation-Keeping s now elapsed d (ends winner reason) h = still d _ (ground arith)
mutation-Keeping s now elapsed d (moves user ply fr fc tr tc) h =
    move-Keeping s user ply fr fc tr tc elapsed d h
mutation-Keeping s now elapsed d (bot_moves color ply fr fc tr tc) h = still d _ (ground arith)
mutation-Keeping s now elapsed d (offers_draw user) h = still d _ (ground arith)
mutation-Keeping s now elapsed d (answers_draw user accepted) h = still d _ (ground arith)
mutation-Keeping s now elapsed d (restores generation deadline) h = still d _ (ground arith)

-- Once the game is over and its end is in the books, no command and no timer changes the game, its end
-- or its reason.
pub step-SameResult :
    (s : Seats) (now : ℕ) (elapsed : Option ℕ) (d : Draft) (c : Command)
    → d.game.game_over ≡ true
    → IsClosed d
    → SameResult d (step s now elapsed d c)
unfolding step
step-SameResult s now elapsed d c h k =
    commit-Same now d (mutation s now elapsed d c) h k (mutation-Keeping s now elapsed d c h)
