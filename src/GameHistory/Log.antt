-- ===== src/GameHistory/Log.antt =====
-- The turns of describeHistory, into which the replayed moves are grouped.
use purecheckers.Base.{
  ℕ, ◌+◌, ◌≡◌, refl, ap, sym, ◌∙◌, Bool, true, false, if◌then◌else◌, List, [], ◌∷◌, ◌++◌, length,
  flat_map, is_empty, append_assoc, append_nil, arith,
}
use purecheckers.Board.{Color}
use purecheckers.Game.{Game, MoveResult, Played}
use purecheckers.GameHistory.{
  LoggedTurn, Described, at_last, add_hops, on_last, new_turn, describe_step,
}

-- The hops of the turns, one after another.
abbrev pub hops_of : List LoggedTurn → List Played
hops_of log = flat_map (λ t. t.hops) log

on_last-hops :
    (hops : List Played) (result : MoveResult) (log : List LoggedTurn)
    → is_empty log ≡ false
    → hops_of (on_last (add_hops hops result) log) ≡ hops_of log ++ hops
unfolding on_last flat_map
on_last-hops hops result [] h = absurd (ground (arith, h))
on_last-hops hops result (t ∷ []) h =
    append_nil (t.hops ++ hops) ∙ ap (λ z. z ++ hops) (sym (append_nil t.hops))
on_last-hops hops result (t ∷ u ∷ ts) h =
    ap (λ z. t.hops ++ z) (on_last-hops hops result (u ∷ ts) refl)
    ∙ sym (append_assoc t.hops (hops_of (u ∷ ts)) hops)

on_last_nonempty :
    (f : LoggedTurn → LoggedTurn) (log : List LoggedTurn)
    → is_empty log ≡ false
    → is_empty (on_last f log) ≡ false
unfolding on_last
on_last_nonempty f [] h = h
on_last_nonempty f (t ∷ []) h = refl
on_last_nonempty f (t ∷ u ∷ ts) h = refl

begun-hops :
    (log : List LoggedTurn) (num : ℕ) (color : Color)
    → hops_of (log ++ new_turn num color ∷ []) ≡ hops_of log
unfolding flat_map
begun-hops [] num color = refl
begun-hops (t ∷ ts) num color = ap (λ z. t.hops ++ z) (begun-hops ts num color)

begun_nonempty : (log : List LoggedTurn) (t : LoggedTurn) → is_empty (log ++ t ∷ []) ≡ false
begun_nonempty [] t = refl
begun_nonempty (u ∷ ts) t = refl

-- The log holds the replayed moves, and a turn when one is in progress.
pub record IsLogged (going : Bool) (d : Described) : Type 0 where
  pub hops : hops_of d.move_log ≡ d.moves
  pub in_progress : going ≡ true → is_empty d.move_log ≡ false

-- The log in which the step finds its turn.
abbrev log_for : Bool → ℕ → Color → List LoggedTurn → List LoggedTurn
log_for going num color log = if going then log else log ++ new_turn num color ∷ []

log_for-hops :
    (going : Bool) (num : ℕ) (color : Color) (log : List LoggedTurn)
    → hops_of (log_for going num color log) ≡ hops_of log
log_for-hops true num color log = refl
log_for-hops false num color log = begun-hops log num color

log_for_nonempty :
    (going : Bool) (num : ℕ) (color : Color) (log : List LoggedTurn)
    → (going ≡ true → is_empty log ≡ false)
    → is_empty (log_for going num color log) ≡ false
log_for_nonempty true num color log h = h refl
log_for_nonempty false num color log h = begun_nonempty log (new_turn num color)

pub describe_step-IsLogged :
    (g : Game) (after : Game × MoveResult) (going next : Bool) (d : Described)
    → IsLogged going d
    → IsLogged next (describe_step g after going d)
unfolding describe_step
describe_step-IsLogged g after going next d k =
    let num = length d.move_log + 1 in
    let normalized = at_last after.0.move_history in
    let full = log_for_nonempty going num g.current_player d.move_log k.in_progress in
    record {
      hops =
          on_last-hops normalized after.1 (log_for going num g.current_player d.move_log) full
          ∙ ap (λ z. z ++ normalized) (log_for-hops going num g.current_player d.move_log ∙ k.hops);
      in_progress = λ _.
          on_last_nonempty (add_hops normalized after.1)
            (log_for going num g.current_player d.move_log) full;
    }
