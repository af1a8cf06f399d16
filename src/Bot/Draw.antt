-- ===== src/Bot/Draw.antt =====
-- `chooseMove` finds a move of the greatest value whenever there is a move.
use purecheckers.Base.{
  ℕ, ◌≡◌, refl, ap, sym, subst, inl, inr, true, false, Bool-cases, Option, some, List, [], ◌∷◌,
  ◌++◌, ◌∈◌, is_empty, list_cases, arith,
}
use purecheckers.Moves.{Move}
use purecheckers.Game.{Game, all_valid_moves}
use purecheckers.Bot.Search.{
  Score, neg_inf, leb_score, best_from, move_score, best_moves, choose_move,
}
use purecheckers.Bot.Value.{leb_score_total, neg_inf-least}
use purecheckers.Game.Invariant.{Inv}
use purecheckers.Bot.Ended.{ongoing-chains_end}
use purecheckers.Bot.Choice.{IsGreatest, move_value, mem-best_moves}

-- The random choice takes a member of a list that has one.
unfoldable pub IsDraw : (List Move → Option Move) → Type 0
IsDraw draw = (m : Move) (ms : List Move) → (n : Move) × (draw (m ∷ ms) ≡ some n) × (n ∈ m ∷ ms)

append-one : (ms : List Move) (m : Move) → is_empty (ms ++ (m ∷ [])) ≡ false
append-one [] m = refl
append-one (n ∷ ms) m = refl

best_from-kept :
    (score : Move → Score) (ms : List Move) (best : Score) (moves : List Move)
    → is_empty moves ≡ false
    → is_empty (best_from score ms best moves) ≡ false
unfolding best_from
best_from-kept score [] best moves h = h
best_from-kept score (m ∷ ms) best moves h = elim (Bool-cases (leb_score (score m) best)) [
  | inr a ↦ rw a (best_from-kept score ms (score m) (m ∷ []) refl)
  | inl a ↦ elim (Bool-cases (leb_score best (score m))) [
    | inl b ↦ rw (a, b) (best_from-kept score ms best (moves ++ (m ∷ [])) (append-one moves m))
    | inr b ↦ rw (a, b) (best_from-kept score ms best moves h)
  ]
]

best_from-some :
    (score : Move → Score) (m : Move) (ms : List Move)
    → is_empty (best_from score (m ∷ ms) neg_inf []) ≡ false
unfolding best_from
best_from-some score m ms = elim (Bool-cases (leb_score (score m) neg_inf)) [
  | inr a ↦ rw a (best_from-kept score ms (score m) (m ∷ []) refl)
  | inl a ↦ rw (a, neg_inf-least (score m)) (best_from-kept score ms neg_inf (m ∷ []) refl)
]

best_moves-some :
    (d : ℕ) (g : Game) (m : Move) (ms : List Move)
    → all_valid_moves g g.current_player ≡ m ∷ ms
    → is_empty (best_moves d g) ≡ false
unfolding best_moves
best_moves-some d g m ms e =
    subst (λ z. is_empty (best_from (move_score d g) z neg_inf []) ≡ false) (sym e)
      (best_from-some (move_score d g) m ms)

single : (score : Move → Score) (m : Move) → IsGreatest score (m ∷ []) m
unfolding IsGreatest
single score m = (
  inl refl,
  λ other e. elim e [
    | inl q ↦
        subst (λ z. leb_score (score z) (score m) ≡ true) (sym q)
          (elim (leb_score_total (score m) (score m)) [ inl h ↦ h | inr h ↦ h ])
    | inr q ↦ absurd q
  ],
)

drawn :
    (draw : List Move → Option Move)
    → IsDraw draw
    → (ms : List Move) → is_empty ms ≡ false
    → (n : Move) × (draw ms ≡ some n) × (n ∈ ms)
unfolding IsDraw
drawn draw h [] e = absurd (ground arith)
drawn draw h (m ∷ ms) e = h m ms

-- On a game of the invariant that is not over and has a move, where the random choice takes a member of a
-- list that has one, chooseMove returns, each chain that it finishes coming to its end, and the move that it
-- returns is a listed one whose value, by minimax without pruning, no listed move exceeds.
pub choose_move-IsGreatest :
    (draw : List Move → Option Move) (d : ℕ) (g : Game) (m : Move)
    → Inv g
    → g.game_over ≡ false
    → IsDraw draw
    → m ∈ all_valid_moves g g.current_player
    → (n : Move) × (choose_move draw d g ≡ some (some n))
      × IsGreatest (move_value d g) (all_valid_moves g g.current_player) n
unfolding choose_move
choose_move-IsGreatest draw d g m i o h mem =
    elim (list_cases (all_valid_moves g g.current_player)) [
      | inl e ↦ absurd (subst (λ z. m ∈ z) e mem)
      | inr (a, [], e) ↦ (
        a,
        rw (e, choose_move) refl,
        subst (λ z. IsGreatest (move_value d g) z a) (sym e) (single (move_value d g) a),
      )
      | inr (a, b ∷ rest, e) ↦
          let full : is_empty (best_moves d g) ≡ false = best_moves-some d g a (b ∷ rest) e in
          let (n, q, k) = drawn draw h (best_moves d g) full in
          (n, rw (e, choose_move, ongoing-chains_end g i o) (ap some q), (mem-best_moves d g n).0 k)
    ]
