-- ===== src/GameRoom/Kept.antt =====
-- What holds of every draft that commands and timers reach.
use purecheckers.Base.{
  is_some, ℕ, ◌≡◌, refl, ap, sym, subst, ◌∙◌, if_ind, true, false, not, ◌||◌, Option-cases, Option,
  none, some, [], inl, inr, arith,
}
use purecheckers.Board.{Color}
use purecheckers.Game.{tick_time}
use purecheckers.Game.Reach.{starts}
use purecheckers.Game.Reach
use purecheckers.Recovery.{Decision, resume, wait, abort, forfeit, recovery_decision}
use purecheckers.GameRoom.{
  Seats, Draft, Mutation, Reason, restart_disconnect, restart_abandoned, unchanged, rejected,
  changed, complete, commit, start_at, end_with, apply_decision, draft_of, evaluate_recovery,
  recovery_humans, advance_clock, player_color,
}
use purecheckers.GameRoom.Final.{IsClosed}

module _ (turn_time : ℕ) (s : Seats) where
  -- What holds of a draft also before it is complete.
  pub record Going (d : Draft) : Type 0 where
    pub playable : d.game.game_over ≡ false → Reach.Reached turn_time d.game
    pub unstarted : d.game.game_over ≡ false → d.started ≡ false → d.game.move_history ≡ []
    pub offers :
        (user : ℕ) → d.pending_draw_offer ≡ some user → is_some (player_color s user) ≡ true

  pub record IsKept (d : Draft) : Type 0 where
    pub going : Going d
    pub closed : d.game.game_over ≡ true → IsClosed d

  pub same_game :
      (d d' : Draft)
      → d'.game ≡ d.game
      → (d'.started ≡ false → d.started ≡ false)
      → d'.pending_draw_offer ≡ d.pending_draw_offer
      → Going d
      → Going d'
  same_game d d' g t p k = record {
    playable = λ o.
        subst (Reach.Reached turn_time) (sym g) (k.playable (sym (ap (λ z. z.game_over) g) ∙ o));
    unstarted =
        λ o f. ap (λ z. z.move_history) g ∙ k.unstarted (sym (ap (λ z. z.game_over) g) ∙ o) (t f);
    offers = λ user e. k.offers user (sym p ∙ e);
  }

  pub over :
      (d d' : Draft)
      → d'.game.game_over ≡ true
      → d'.pending_draw_offer ≡ d.pending_draw_offer
      → Going d
      → Going d'
  over d d' o p k = record {
    playable = λ f. cc;
    unstarted = λ f _. cc;
    offers = λ user e. k.offers user (sym p ∙ e);
  }

  complete-IsKept : (now : ℕ) (d : Draft) → Going d → IsKept (complete now d)
  unfolding complete
  complete-IsKept now d k =
      if_ind IsKept d.game.game_over
        (λ o. record {
          going = record { playable = k.playable; unstarted = k.unstarted; offers = λ user e. cc };
          closed = λ _. (ground arith, ground arith, refl);
        })
        (λ o. record { going = k; closed = λ t. cc })

  abbrev pub Keeps : Mutation → Type 0
  Keeps unchanged = Unit {0}
  Keeps rejected = Unit {0}
  Keeps (changed d) = Going d

  pub commit-IsKept :
      (now : ℕ) (d : Draft) (m : Mutation) → IsKept d → Keeps m → IsKept (commit now d m)
  unfolding commit
  commit-IsKept now d unchanged k h = k
  commit-IsKept now d rejected k h = k
  commit-IsKept now d (changed d') k h = complete-IsKept now d' h

  pub clock-Going : (elapsed : Option ℕ) (d : Draft) → Going d → Going (advance_clock elapsed d)
  unfolding advance_clock
  clock-Going none d k = k
  clock-Going (some elapsed) d k =
      if_ind Going (not d.started || is_some d.restart || d.game.game_over) (λ _. k)
        (λ on.
          if_ind Going (tick_time d.game elapsed).game_over
            (λ o.
              over d
                (record d { game = tick_time d.game elapsed; end_reason = some Reason.out_of_time })
                o refl k)
            (λ o. record {
              playable = λ _. Reach.ticks elapsed (k.playable (ground arith));
              unstarted = λ _ f. absurd (ground arith);
              offers = k.offers;
            }))

  pub clock-started :
      (elapsed : Option ℕ) (d : Draft) → (advance_clock elapsed d).started ≡ d.started
  unfolding advance_clock
  clock-started none d = refl
  clock-started (some elapsed) d = ground arith

  pub end_with-Going :
      (d : Draft) (winner : Option Color) (reason : Reason)
      → Going d
      → Going (end_with winner reason d)
  end_with-Going d winner reason k = over d (end_with winner reason d) refl refl k

  decision-Keeps : (now : ℕ) (d : Draft) (c : Decision) → Going d → Keeps (apply_decision s now d c)
  unfolding apply_decision
  decision-Keeps now d wait k = tt
  decision-Keeps now d resume k =
      if_ind Going d.started (λ _. same_game d (record d { restart = none }) refl (λ f. f) refl k)
        (λ f. same_game d (start_at now (record d { restart = none })) refl (λ _. f) refl k)
  decision-Keeps now d abort k =
      over d (end_with none restart_abandoned (record d { restart = none })) refl refl k
  decision-Keeps now d (forfeit id) k =
      over d (end_with (player_color s id) restart_disconnect (record d { restart = none })) refl
        refl k

  pub recovery-Keeps :
      (connection_for : ℕ → Option ℕ) (now : ℕ) (d : Draft)
      → Going d
      → Keeps (evaluate_recovery s connection_for now d)
  unfolding evaluate_recovery
  recovery-Keeps connection_for now d k = elim (Option-cases d.restart) [
    | inl e ↦ rw (e, evaluate_recovery) tt
    | inr (r, e) ↦
        rw (e, evaluate_recovery)
          (if_ind Keeps d.game.game_over (λ _. tt)
            (λ _.
              decision-Keeps now d
                (recovery_decision r.recovery connection_for (recovery_humans s) now) k))
  ]

  pub draft_of-Going : (d : Draft) (m : Mutation) → Going d → Keeps m → Going (draft_of d m)
  draft_of-Going d unchanged k h = k
  draft_of-Going d rejected k h = k
  draft_of-Going d (changed d') k h = h
