-- ===== src/Bot/Value.antt =====
-- The pruned search finds the value of minimax, and `chooseMove` the moves of the best value.
use purecheckers.Base.{
  ℕ, zero, suc, ◌≡◌, refl, ap, ◌⊎◌, inl, inr, Bool, true, false, List, [], ◌∷◌, arith,
}
use purecheckers.Base.Int.{eq_of_parts}
use purecheckers.Board.{Color}
use purecheckers.Moves.{Move}
use purecheckers.Game.{Game, all_valid_moves}
use purecheckers.Bot.{evaluate}
use purecheckers.Bot.Pruning.{pruned, unpruned, Stands, loop-Stands}
use purecheckers.Bot.Search.{
  Score, neg_inf, finite, pos_inf, leb_score, geb_score, child, node, minimax, plain,
}

pub leb_score_total : (a b : Score) → (leb_score a b ≡ true) ⊎ (leb_score b a ≡ true)
unfolding leb_score
leb_score_total a b = ground arith

pub leb_score_trans :
    (a b c : Score) → leb_score a b ≡ true → leb_score b c ≡ true → leb_score a c ≡ true
unfolding leb_score
leb_score_trans a b c h k = ground arith

pub leb_score_antisym : (a b : Score) → leb_score a b ≡ true → leb_score b a ≡ true → a ≡ b
unfolding leb_score
leb_score_antisym neg_inf neg_inf h k = refl
leb_score_antisym neg_inf (finite b) h k = absurd (ground arith)
leb_score_antisym neg_inf pos_inf h k = absurd (ground arith)
leb_score_antisym (finite a) neg_inf h k = absurd (ground arith)
leb_score_antisym (finite a) (finite b) h k = ap finite (eq_of_parts a b (ground arith))
leb_score_antisym (finite a) pos_inf h k = absurd (ground arith)
leb_score_antisym pos_inf neg_inf h k = absurd (ground arith)
leb_score_antisym pos_inf (finite b) h k = absurd (ground arith)
leb_score_antisym pos_inf pos_inf h k = refl

pub neg_inf-least : (a : Score) → leb_score neg_inf a ≡ true
unfolding leb_score
neg_inf-least a = refl

pub pos_inf-least : (a : Score) → geb_score pos_inf a ≡ true
unfolding leb_score geb_score
pos_inf-least a = ground arith

pub refl-Stands : (alpha beta r : Score) → Stands leb_score alpha beta r r
refl-Stands alpha beta r =
    let h : leb_score r r ≡ true = elim (leb_score_total r r) [ inl e ↦ e | inr e ↦ e ] in
    record { upper = inl h; lower = inl h }

pub geb_score_total : (a b : Score) → (geb_score a b ≡ true) ⊎ (geb_score b a ≡ true)
unfolding geb_score
geb_score_total a b = leb_score_total b a

pub geb_score_trans :
    (a b c : Score) → geb_score a b ≡ true → geb_score b c ≡ true → geb_score a c ≡ true
unfolding geb_score
geb_score_trans a b c h k = leb_score_trans c b a k h

pub flipped :
    (alpha beta r v : Score) → Stands geb_score beta alpha r v → Stands leb_score alpha beta r v
unfolding geb_score
flipped alpha beta r v s = record { upper = s.lower; lower = s.upper }

pub unflipped :
    (alpha beta r v : Score) → Stands leb_score alpha beta r v → Stands geb_score beta alpha r v
unfolding geb_score
unflipped alpha beta r v s = record { upper = s.lower; lower = s.upper }

pub geb_window : (alpha beta : Score) → geb_score alpha beta ≡ false → leb_score beta alpha ≡ false
unfolding geb_score
geb_window alpha beta h = h

pub leb_window : (alpha beta : Score) → leb_score beta alpha ≡ false → geb_score alpha beta ≡ false
unfolding geb_score
leb_window alpha beta h = h

max_level :
    (search : Score → Score → Move → Score) (value : Move → Score) (ms : List Move)
    (alpha beta : Score)
    → ((m : Move)
        → (a b : Score) → leb_score b a ≡ false
        → Stands leb_score a b (search a b m) (value m))
    → leb_score beta alpha ≡ false
    → Stands leb_score alpha beta
        (pruned leb_score search ms alpha beta neg_inf)
        (unpruned leb_score value ms neg_inf)
max_level search value ms alpha beta ih h =
    loop-Stands leb_score leb_score_total leb_score_trans neg_inf neg_inf-least search value ms
      alpha beta (λ m mem. ih m) h

min_level :
    (search : Score → Score → Move → Score) (value : Move → Score) (ms : List Move)
    (alpha beta : Score)
    → ((m : Move)
        → (a b : Score) → leb_score b a ≡ false
        → Stands leb_score a b (search b a m) (value m))
    → leb_score beta alpha ≡ false
    → Stands leb_score alpha beta
        (pruned geb_score search ms beta alpha pos_inf)
        (unpruned geb_score value ms pos_inf)
min_level search value ms alpha beta ih h = flipped alpha beta _ _ (
    loop-Stands geb_score geb_score_total geb_score_trans pos_inf pos_inf-least search value ms beta
      alpha (λ m mem b a k. unflipped a b _ _ (ih m a b (geb_window a b k)))
      (leb_window alpha beta h))

node-Stands :
    (over : Bool) (moves : List Move) (alpha beta here : Score) (r v : List Move → Score)
    → ((ms : List Move) → Stands leb_score alpha beta (r ms) (v ms))
    → Stands leb_score alpha beta (node over moves here r) (node over moves here v)
unfolding node
node-Stands true moves alpha beta here r v s = refl-Stands alpha beta here
node-Stands false [] alpha beta here r v s = refl-Stands alpha beta here
node-Stands false (m ∷ ms) alpha beta here r v s = s (m ∷ ms)

-- Within a window from `alpha` to `beta` that is not closed, the result of minimax with pruning is no
-- less than the value of minimax unless it reaches `beta`, and no more unless it is at most `alpha`.
pub minimax-Stands :
    (d : ℕ) (bot : Color) (maximizing : Bool) (alpha beta : Score) (g : Game)
    → leb_score beta alpha ≡ false
    → Stands leb_score alpha beta (minimax d bot maximizing alpha beta g) (plain d bot maximizing g)
unfolding minimax plain
minimax-Stands zero bot maximizing alpha beta g h =
    refl-Stands alpha beta (finite (evaluate g.board bot))
minimax-Stands (suc d) bot true alpha beta g h =
    node-Stands g.game_over (all_valid_moves g g.current_player) alpha beta _ _ _ (λ moves.
      max_level (λ a b m. minimax d bot false a b (child g m)) (λ m. plain d bot false (child g m))
        moves alpha beta (λ m a b k. minimax-Stands d bot false a b (child g m) k) h)
minimax-Stands (suc d) bot false alpha beta g h =
    node-Stands g.game_over (all_valid_moves g g.current_player) alpha beta _ _ _ (λ moves.
      min_level (λ b a m. minimax d bot true a b (child g m)) (λ m. plain d bot true (child g m))
        moves alpha beta (λ m a b k. minimax-Stands d bot true a b (child g m) k) h)

pub exact : (r v : Score) → Stands leb_score neg_inf pos_inf r v → r ≡ v
unfolding leb_score geb_score
exact r v s =
    let up : leb_score v r ≡ true = elim s.upper [
      | inl h ↦ h
      | inr h ↦ leb_score_trans v pos_inf r (pos_inf-least v) h
    ] in
    let low : leb_score r v ≡ true = elim s.lower [
      | inl h ↦ h
      | inr h ↦ leb_score_trans r neg_inf v h (neg_inf-least v)
    ] in
    leb_score_antisym r v low up

-- Over the full window, to any depth, alpha-beta pruning finds the value of minimax that looks at
-- every move.
pub minimax-plain :
    (d : ℕ) (bot : Color) (maximizing : Bool) (g : Game)
    → minimax d bot maximizing neg_inf pos_inf g ≡ plain d bot maximizing g
unfolding leb_score
minimax-plain d bot maximizing g =
    exact (minimax d bot maximizing neg_inf pos_inf g) (plain d bot maximizing g)
      (minimax-Stands d bot maximizing neg_inf pos_inf g refl)
