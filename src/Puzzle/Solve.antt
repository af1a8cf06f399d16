-- ===== src/Puzzle/Solve.antt =====
-- When a solution of a puzzle is accepted.
use purecheckers.Base.{
  ◌+◌, ◌/◌, ◌≡◌, ◌↔◌, refl, ap, sym, subst, ◌∙◌, Bool, true, false, not, ◌&&◌, ◌||◌, ◌==◌,
  if◌then◌else◌, Option, none, some, List, [], ◌∷◌, length, is_empty, arith,
}
use purecheckers.Game.{Game, MoveResult, make_move}
use purecheckers.Puzzle.{
  Hop, StoredMove, Puzzle, puzzle_game, move_hops, same_hop, same_turn, next_game, and_then,
  play_hops, gives, after_turn, follows, validate_puzzle_solve,
}

-- The hops are played one after the other, the chain going on after each but the last.
pub data Turn : Game → List Hop → Game → Type 0 where
  rests : {g : Game} → Turn g [] g
  hops :
      {g g' : Game} {hs : List Hop} (h : Hop) (after : Game × MoveResult)
      → make_move g h.from_row h.from_col h.to_row h.to_col ≡ some after
      → after.1.chain_continues ≡ not (is_empty hs)
      → Turn after.0 hs g'
      → Turn g (h ∷ hs) g'

-- The stored moves are played one after the other, each a whole turn.
pub data Line : Game → List StoredMove → Type 0 where
  ends : {g : Game} → Line g []
  turns :
      {g g' : Game} {ms : List StoredMove} (m : StoredMove)
      → Turn g (move_hops m) g'
      → Line g' ms
      → Line g (m ∷ ms)

-- Every other turn of the line, from the first on when `own`.
abbrev pub own_turns : Bool → List StoredMove → List (List Hop)
own_turns own [] = []
own_turns true (m ∷ ms) = move_hops m ∷ own_turns false ms
own_turns false (m ∷ ms) = own_turns true ms

abbrev is_none : Option Game → Bool
is_none none = true
is_none (some g) = false

abbrev game_or : Game → Option Game → Game
game_or d none = d
game_or d (some g) = g

some_eq : (a b : Game) → some a ≡ some b → a ≡ b
some_eq a b e = ap (game_or a) e

hop_eq : (a b : Hop) → same_hop a b ≡ true → a ≡ b
unfolding same_hop
hop_eq a b h =
    let r : a.from_row ≡ b.from_row = ground (arith, h) in
    let c : a.from_col ≡ b.from_col = ground (arith, h) in
    let s : a.to_row ≡ b.to_row = ground (arith, h) in
    let t : a.to_col ≡ b.to_col = ground (arith, h) in
    ap (λ z. record { from_row = z; from_col = a.from_col; to_row = a.to_row; to_col = a.to_col }) r
    ∙ ap (λ z. record { from_row = b.from_row; from_col = z; to_row = a.to_row; to_col = a.to_col })
        c
    ∙ ap
        (λ z. record {
          from_row = b.from_row;
          from_col = b.from_col;
          to_row = z;
          to_col = a.to_col;
        })
        s
    ∙ ap
        (λ z. record {
          from_row = b.from_row;
          from_col = b.from_col;
          to_row = b.to_row;
          to_col = z;
        })
        t

turn_eq : (a b : List Hop) → same_turn a b ≡ true → a ≡ b
unfolding same_turn
turn_eq [] [] h = refl
turn_eq [] (y ∷ ys) h = absurd (ground (arith, h))
turn_eq (x ∷ xs) [] h = absurd (ground (arith, h))
turn_eq (x ∷ xs) (y ∷ ys) h =
    let rest : same_turn xs ys ≡ true = ground (arith, h) in
    let head : same_hop x y ≡ true = ground (arith, h) in
    ap (λ z. z ∷ xs) (hop_eq x y head) ∙ ap (λ z. y ∷ z) (turn_eq xs ys rest)

same_turn_refl : (a : List Hop) → same_turn a a ≡ true
unfolding same_turn same_hop
same_turn_refl [] = refl
same_turn_refl (x ∷ xs) = ground (arith, same_turn_refl xs)

-- A hop that leaves `next`.
record Hopped (o : Option (Game × MoveResult)) (last : Bool) (next : Game) : Type 0 where
  after : Game × MoveResult
  played : o ≡ some after
  chain : after.1.chain_continues ≡ not last
  leaves : after.0 ≡ next

next_left :
    (chain last : Bool) (a next : Game)
    → (if chain then (if last then none else some a) else (if last then some a else none))
      ≡ some next
    → (chain ≡ not last) × (a ≡ next)
next_left true true a next e = absurd (ground (arith, ap is_none e))
next_left true false a next e = (refl, some_eq a next e)
next_left false true a next e = (refl, some_eq a next e)
next_left false false a next e = absurd (ground (arith, ap is_none e))

next_game-Hopped :
    (o : Option (Game × MoveResult)) (last : Bool) (next : Game)
    → next_game o last ≡ some next
    → Hopped o last next
unfolding next_game
next_game-Hopped none last next e = absurd (ground (arith, ap is_none e))
next_game-Hopped (some after) last next e =
    let k = next_left after.1.chain_continues last after.0 next e in
    record { after = after; played = refl; chain = k.0; leaves = k.1 }

next_game_played :
    (after : Game × MoveResult) (last : Bool)
    → after.1.chain_continues ≡ not last
    → next_game (some after) last ≡ some after.0
unfolding next_game
next_game_played after true c = rw c refl
next_game_played after false c = rw c refl

hop-Turn :
    (g g' : Game) (h : Hop) (hs : List Hop) (o : Option Game)
    → next_game (make_move g h.from_row h.from_col h.to_row h.to_col) (is_empty hs) ≡ o
    → and_then o none (λ after. play_hops after hs) ≡ some g'
    → ((next : Game) → play_hops next hs ≡ some g' → Turn next hs g')
    → Turn g (h ∷ hs) g'
hop-Turn g g' h hs none n e k = absurd (ground (arith, ap is_none e))
hop-Turn g g' h hs (some next) n e k =
    let s =
      next_game-Hopped (make_move g h.from_row h.from_col h.to_row h.to_col) (is_empty hs) next n in
    hops h s.after s.played s.chain (subst (λ z. Turn z hs g') (sym s.leaves) (k next e))

play_hops-Turn : (g g' : Game) (hs : List Hop) → play_hops g hs ≡ some g' → Turn g hs g'
unfolding play_hops
play_hops-Turn g g' [] e = subst (Turn g []) (some_eq g g' e) rests
play_hops-Turn g g' (h ∷ hs) e =
    hop-Turn g g' h hs
      (next_game (make_move g h.from_row h.from_col h.to_row h.to_col) (is_empty hs)) refl e
      (λ next f. play_hops-Turn next g' hs f)

Turn-play_hops : {g g' : Game} {hs : List Hop} → Turn g hs g' → play_hops g hs ≡ some g'
unfolding play_hops
Turn-play_hops rests = refl
Turn-play_hops (hops {g' = g'} {hs = hs} h after s c t) =
    ap (λ z. and_then (next_game z (is_empty hs)) none (λ next. play_hops next hs)) s
    ∙ ap (λ z. and_then z none (λ next. play_hops next hs)) (next_game_played after (is_empty hs) c)
    ∙ Turn-play_hops t

-- A move that a check of the line has passed.
record Passed (o : Option Game) (go : Game → Bool) : Type 0 where
  next : Game
  played : o ≡ some next
  rest : go next ≡ true

passed : (o : Option Game) (go : Game → Bool) → and_then o false go ≡ true → Passed o go
passed none go e = absurd (ground (arith, e))
passed (some g) go e = record { next = g; played = refl; rest = e }

unrefused :
    (refused rest : Bool)
    → (if refused then false else rest) ≡ true
    → (refused ≡ false) × (rest ≡ true)
unrefused true rest e = absurd (ground (arith, e))
unrefused false rest e = (refl, e)

follows-Passed :
    (g : Game) (own : Bool) (ts : List (List Hop)) (m : StoredMove) (ms : List StoredMove)
    → follows g own ts (m ∷ ms) ≡ true
    → ((own && not (gives ts (move_hops m))) ≡ false)
      × Passed
          (play_hops g (move_hops m))
          (λ after. follows after (not own) (if own then after_turn ts else ts) ms)
unfolding follows
follows-Passed g own ts m ms e =
    let u =
      unrefused (own && not (gives ts (move_hops m)))
        (and_then (play_hops g (move_hops m)) false
          (λ after. follows after (not own) (if own then after_turn ts else ts) ms))
        e in
    (
      u.0,
      passed (play_hops g (move_hops m))
          (λ after. follows after (not own) (if own then after_turn ts else ts) ms) u.1,
    )

follows-Line :
    (g : Game) (own : Bool) (ts : List (List Hop)) (ms : List StoredMove)
    → follows g own ts ms ≡ true
    → Line g ms
follows-Line g own ts [] e = ends
follows-Line g own ts (m ∷ ms) e =
    let p = (follows-Passed g own ts m ms e).1 in
    turns m (play_hops-Turn g p.next (move_hops m) p.played)
      (follows-Line p.next (not own) (if own then after_turn ts else ts) ms p.rest)

follows-own_turns :
    (g : Game) (own : Bool) (ts : List (List Hop)) (ms : List StoredMove)
    → follows g own ts ms ≡ true
    → length ts ≡ length (own_turns own ms)
    → ts ≡ own_turns own ms
follows-own_turns g own [] [] e l = refl
follows-own_turns g own (t ∷ ts) [] e l = absurd (omega (arith, l))
follows-own_turns g true [] (m ∷ ms) e l = absurd (omega (arith, l))
follows-own_turns g true (t ∷ ts) (m ∷ ms) e l =
    let p = follows-Passed g true (t ∷ ts) m ms e in
    let same : same_turn t (move_hops m) ≡ true = ground (arith, p.0) in
    ap (λ z. z ∷ ts) (turn_eq t (move_hops m) same)
    ∙ ap (λ z. move_hops m ∷ z) (follows-own_turns p.1.next false ts ms p.1.rest (omega (arith, l)))
follows-own_turns g false ts (m ∷ ms) e l =
    let p = (follows-Passed g false ts m ms e).1 in follows-own_turns p.next true ts ms p.rest l

Line-follows :
    {g : Game} {ms : List StoredMove} (own : Bool)
    → Line g ms
    → follows g own (own_turns own ms) ms ≡ true
unfolding follows
Line-follows own ends = refl
Line-follows true (turns {ms = ms} m t l) =
    rw (same_turn_refl (move_hops m), Turn-play_hops t) (Line-follows false l)
Line-follows false (turns {ms = ms} m t l) = rw (Turn-play_hops t) (Line-follows true l)

count_own :
    (ms : List StoredMove)
    → (length (own_turns true ms) ≡ (length ms + 1) / 2)
      × (length (own_turns false ms) ≡ length ms / 2)
count_own [] = (refl, refl)
count_own (m ∷ ms) = let k = count_own ms in (omega (arith, k.1), omega (arith, k.0))

-- A solution is accepted exactly when the puzzle has one, the turns are the player's turns of the stored
-- line, and the engine plays the stored line from the puzzle's position, each move a whole turn.
pub validate_puzzle_solve_iff :
    (puzzle : Puzzle) (ts : List (List Hop))
    → (validate_puzzle_solve puzzle ts ≡ true) ↔ (
        (is_empty puzzle.solution ≡ false)
        × (ts ≡ own_turns true puzzle.solution)
        × Line (puzzle_game puzzle.position) puzzle.solution)
unfolding validate_puzzle_solve
validate_puzzle_solve_iff puzzle ts =
    let g = puzzle_game puzzle.position in
    let line = puzzle.solution in
    let refused = is_empty line || not (length ts == (length line + 1) / 2) in
    let count = (count_own line).0 in
    (
      λ e.
          let u = unrefused refused (follows g true ts line) e in
          (
            ground (arith, u.0),
            follows-own_turns g true ts line u.1 (ground (arith, u.0, count)),
            follows-Line g true ts line u.1,
          ),
      λ k.
          let size : length ts ≡ (length line + 1) / 2 = ap length k.1 ∙ count in
          let open_line : refused ≡ false = ground (arith, k.0, size) in
          rw open_line
            (subst (λ z. follows g true z line ≡ true) (sym k.1) (Line-follows true k.2)),
    )
