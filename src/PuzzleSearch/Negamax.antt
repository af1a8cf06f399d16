-- ===== src/PuzzleSearch/Negamax.antt =====
-- negamax of shared/puzzleSearch.js and what it uses. A node's depth and its plies of quiescence are one
-- number: `left` is depth + maxQuiescence, so that the depth is 0 or below when `left` is at most
-- maxQuiescence, and the search is by recursion on `left`. A search that runs out of its budget is
-- `none`. What the source keeps in `ctx.pv[ply]` is part of a node's result.
use purecheckers.Base.{
  ℕ, zero, suc, ◌+◌, ◌*◌, ◌-◌, leb, ltb, Bool, true, false, not, ◌&&◌, if◌then◌else◌, Option, none,
  some, List, [], ◌∷◌, is_empty, any_of,
}
use purecheckers.Base.Int.{ℤ, pos, negsuc, ◌+ℤ◌, ◌-ℤ◌, sub_ℕ, leb_ℤ}
use purecheckers.Board.{Color, same_color, Board, at, squares}
use purecheckers.Moves.{is_color, captures}
use purecheckers.Game.{Game}
use purecheckers.Bot.{evaluate}
use purecheckers.Bot.Search.{Score, neg_inf, finite, pos_inf, leb_score}
use purecheckers.PuzzleSearch.Turns.{FullMove, full_moves, same_move}

abbrev pub negated : ℤ → ℤ
negated a = pos 0 -ℤ a

unfoldable pub neg_score : Score → Score
neg_score neg_inf = pos_inf
neg_score (finite a) = finite (negated a)
neg_score pos_inf = neg_inf

abbrev pub signed : Bool → Score → Score
signed true s = s
signed false s = neg_score s

-- `a > b`.
abbrev pub above : Score → Score → Bool
above a b = not (leb_score a b)

-- WIN_SCORE, in units of 1/20.
abbrev pub win_score : ℕ
win_score = 20000

abbrev pub is_side : Option Color → Color → Bool
is_side none color = false
is_side (some c) color = same_color c color

abbrev pub score_of_winner : Option Color → Color → ℕ → Score
score_of_winner none color ply = finite (pos 0)
score_of_winner (some c) color ply =
    if same_color c color
    then finite (sub_ℕ win_score (20 * ply))
    else finite (sub_ℕ (20 * ply) win_score)

unfoldable pub terminal_score : Game → Color → ℕ → Score
terminal_score g color ply = score_of_winner g.winner color ply

unfoldable pub is_win_score : Score → Bool
is_win_score s = leb_score (finite (pos 16000)) s

unfoldable pub is_loss_score : Score → Bool
is_loss_score s = leb_score s (finite (negsuc 15999))

abbrev pub captures_at : Board → Color → ℕ × ℕ → Bool
captures_at b color (r, c) = is_color color (at b r c) && not (is_empty (captures b r c))

unfoldable pub has_captures : Game → Bool
has_captures g = any_of (captures_at g.board g.current_player) squares

abbrev pub guided : Option FullMove → FullMove → Bool
guided none m = false
guided (some guide) m = same_move guide m

-- `_order` of a move.
unfoldable pub order_of : Color → Option FullMove → FullMove → ℤ
order_of me guide m =
    evaluate m.after.board me
    +ℤ (if m.after.game_over && is_side m.after.winner me then pos win_score else pos 0)
    +ℤ (if guided guide m then pos 200000 else pos 0)

unfoldable pub insert_move : (FullMove → ℤ) → FullMove → List FullMove → List FullMove
insert_move order m [] = m ∷ []
insert_move order m (n ∷ ns) =
    if leb_ℤ (order n) (order m) then m ∷ n ∷ ns else n ∷ insert_move order m ns

-- The stable sort of `orderMoves`, the greatest `_order` first.
unfoldable pub sort_moves : (FullMove → ℤ) → List FullMove → List FullMove
sort_moves order [] = []
sort_moves order (m ∷ ms) = insert_move order m (sort_moves order ms)

-- The nodes so far, and the score with the line below, if the budget lasted.
abbrev pub Found : Type 0
Found = ℕ × Option (Score × List FullMove)

-- What the loop does with the score of a move, where `go` is the rest of the loop.
unfoldable pub weigh :
    FullMove
    → Score
    → Score
    → Score
    → List FullMove
    → (Score → Score → List FullMove → ℕ → Found)
    → Found
    → Found
weigh m alpha beta best pv go (nodes, none) = (nodes, none)
weigh m alpha beta best pv go (nodes, some (below, line)) =
    let score = neg_score below in
    let best' = if above score best then score else best in
    if above score alpha
    then (if leb_score beta score
        then (nodes, some (best', m ∷ line))
        else go score best' (m ∷ line) nodes)
    else go alpha best' pv nodes

-- `for (let i = 0; i < moves.length; i++)`; `visit` searches a move within the opponent's window.
unfoldable pub scan_moves :
    (Score → Score → ℕ → FullMove → Found)
    → List FullMove
    → Score
    → Score
    → Score
    → List FullMove
    → ℕ
    → Found
scan_moves visit [] alpha beta best pv nodes = (nodes, some (best, pv))
scan_moves visit (m ∷ ms) alpha beta best pv nodes =
    weigh m alpha beta best pv (λ a e line n. scan_moves visit ms a beta e line n)
      (visit (neg_score beta) (neg_score alpha) nodes m)

unfoldable pub guide_at : List FullMove → ℕ → Option FullMove
guide_at [] i = none
guide_at (m ∷ ms) zero = some m
guide_at (m ∷ ms) (suc i) = guide_at ms i

-- `-(WIN_SCORE - ply)`.
abbrev pub lost_score : ℕ → Score
lost_score ply = finite (sub_ℕ (20 * ply) win_score)

abbrev pub or_lost : ℕ → ℕ → List FullMove → (List FullMove → Found) → Found
or_lost ply nodes [] go = (nodes, some (lost_score ply, []))
or_lost ply nodes (m ∷ ms) go = go (m ∷ ms)

module _ (budget max_quiescence root_ply : ℕ) (guide : List FullMove) where
  abbrev pub static : Game → ℕ → Found
  static g nodes = (nodes, some (finite (evaluate g.board g.current_player), []))

  unfoldable pub negamax : ℕ → ℕ → Score → Score → ℕ → Game → Found
  negamax zero ply alpha beta nodes g =
      if ltb budget (nodes + 1)
      then (nodes + 1, none)
      else if g.game_over
      then (nodes + 1, some (terminal_score g g.current_player ply, []))
      else static g (nodes + 1)
  negamax (suc left) ply alpha beta nodes g =
      if ltb budget (nodes + 1)
      then (nodes + 1, none)
      else if g.game_over
      then (nodes + 1, some (terminal_score g g.current_player ply, []))
      else if leb (suc left) max_quiescence && not (has_captures g)
      then static g (nodes + 1)
      else or_lost ply (nodes + 1) (full_moves g) (λ moves.
        scan_moves (λ a b n m. negamax left (ply + 1) a b n m.after)
          (sort_moves (order_of g.current_player (guide_at guide (ply - root_ply))) moves) alpha
          beta neg_inf [] (nodes + 1))
