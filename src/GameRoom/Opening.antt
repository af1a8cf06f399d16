-- ===== src/GameRoom/Opening.antt =====
-- The opening of a running game: the reveal of the colours, and the recovery after a restart.
use purecheckers.Base.{
  is_some, includes, ℕ, ◌+◌, true, not, ◌&&◌, ◌||◌, leb, ◌==◌, if◌then◌else◌, Option, none, some,
  List, [], ◌∷◌, ◌++◌,
}
use purecheckers.Board.{Color}
use purecheckers.Recovery.{Decision, resume, wait, abort, forfeit, recovery_decision}
use purecheckers.GameRoom.State.{
  Seats, Draft, Mutation, Restart, Reason, restart_disconnect, restart_abandoned, unchanged,
  rejected, changed, add_acks, player_color, recovery_humans,
}

unfoldable pub open_reveal : List ℕ → ℕ → ℕ → Draft → Mutation
open_reveal bots timeout_ms now d =
    if is_some d.reveal_deadline
    then unchanged
    else changed (record d {
      reveal_acks = add_acks d.reveal_acks bots;
      reveal_deadline = some (now + timeout_ms);
    })

abbrev pub start_at : ℕ → Draft → Draft
start_at now d = record d { started = true; started_at = now }

-- The game ends with the winner and the reason.
abbrev pub end_with : Option Color → Reason → Draft → Draft
end_with winner reason d = record d {
  game = record d.game { game_over = true; winner = winner };
  end_reason = some reason;
}

unfoldable pub apply_decision : Seats → ℕ → Draft → Decision → Mutation
apply_decision s now d wait = unchanged
apply_decision s now d resume =
    let recovered = record d { restart = none } in
    changed (if d.started then recovered else start_at now recovered)
apply_decision s now d abort =
    changed (end_with none restart_abandoned (record d { restart = none }))
apply_decision s now d (forfeit id) =
    changed (end_with (player_color s id) restart_disconnect (record d { restart = none }))

unfoldable pub evaluate_recovery : Seats → (ℕ → Option ℕ) → ℕ → Draft → Mutation
evaluate_recovery s connection_for now d = elim d.restart [
  | none ↦ unchanged
  | some r ↦
      if d.game.game_over
      then unchanged
      else apply_decision s now d
          (recovery_decision r.recovery connection_for (recovery_humans s) now)
]

abbrev pub with_ready : ℕ → Option ℕ → Restart → Restart
with_ready user connection r = record r {
  recovery = record r.recovery {
    ready_connections = λ k. if k == user then connection else r.recovery.ready_connections k;
  };
}

-- The draft after a mutation whose value is ignored.
abbrev pub draft_of : Draft → Mutation → Draft
draft_of d unchanged = d
draft_of d rejected = d
draft_of d (changed d') = d'

unfoldable pub acknowledge_recovery : Seats → (ℕ → Option ℕ) → ℕ → ℕ → ℕ → Draft → Mutation
acknowledge_recovery s connection_for user generation now d = elim d.restart [
  | none ↦ unchanged
  | some r ↦
      if d.game.game_over
      then unchanged
      else if not (generation == r.generation)
      then rejected
      else if not (is_some (player_color s user)) || not (is_some (connection_for user))
      then rejected
      else if leb r.recovery.deadline now
      then evaluate_recovery s connection_for now d
      else let ready = record d { restart = some (with_ready user (connection_for user) r) } in
        changed (draft_of ready (evaluate_recovery s connection_for now ready))
]

unfoldable pub acknowledge_reveal : Seats → ℕ → ℕ → Draft → Mutation
acknowledge_reveal s user now d =
    if not (is_some (player_color s user))
    then unchanged
    else if is_some d.restart || d.started || d.game.game_over || includes d.reveal_acks user
    then unchanged
    else let acked = record d { reveal_acks = d.reveal_acks ++ user ∷ [] } in
      changed (
        if includes acked.reveal_acks s.red_user && includes acked.reveal_acks s.black_user
        then start_at now acked
        else acked)

unfoldable pub begin : ℕ → Draft → Mutation
begin now d =
    if d.started || d.game.game_over
    then unchanged
    else if is_some d.restart
    then unchanged
    else changed (start_at now d)
