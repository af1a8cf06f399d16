-- ===== src/Game/Legal.antt =====
-- The lists of moves of CheckersGame against the rules: a capture is compulsory, and a capture in
-- progress goes on with its own piece.
use purecheckers.Base.{
  ℕ, ◌≡◌, refl, subst, ap, ◌↔◌, inl, inr, Bool, true, false, not, if◌then◌else◌, Bool-cases,
  Option-cases, Option, none, some, [], map, arith, ◌∈◌, map-mem, is_empty,
}
use purecheckers.Board.{at}
use purecheckers.Moves.{Move, move_from, is_color, captures, simple_moves}
use purecheckers.Game.Rules.{
  is_color_of, Takes, Steps, captures-Takes, simple-Steps, Takes-captures, Steps-simple,
  mem-all_captures_iff, mem-all_simple_iff, is_empty_iff,
}
use purecheckers.Game.{
  Game, all_captures, all_simple, chain_elsewhere, in_chain, valid_moves_for, all_valid_moves,
}

-- The side to move has no capture anywhere.
abbrev pub NoCapture : Game → Type 0
NoCapture g = (m : Move) → ¬ Takes g.board g.current_player m

NoCapture-iff : (g : Game) → (is_empty (all_captures g.board g.current_player) ≡ true) ↔ NoCapture g
NoCapture-iff g = (
  λ e m t.
      (is_empty_iff (all_captures g.board g.current_player)).0 e m
        ((mem-all_captures_iff g.board g.current_player m).1 t),
  λ n.
      (is_empty_iff (all_captures g.board g.current_player)).1
        (λ m h. n m ((mem-all_captures_iff g.board g.current_player m).0 h)),
)

-- The rules of the game: a move of the side to move is a capture, and during a chain one of the
-- chain's piece; with no capture at hand, and no chain, it is a simple move.
pub data IsLegal (g : Game) (m : Move) : Type 0 where
  takes :
      Takes g.board g.current_player m
      → chain_elsewhere g.chain_piece m.from_row m.from_col ≡ false
      → IsLegal g m
  steps : Steps g.board g.current_player m → g.chain_piece ≡ none → NoCapture g → IsLegal g m

in_chain-none : (o : Option (ℕ × ℕ)) → in_chain o ≡ false → o ≡ none
in_chain-none none h = refl
in_chain-none (some s) h = cc

module _ (g : Game) where
  abbrev caps_left : Bool
  caps_left = not (is_empty (all_captures g.board g.current_player))

  caps_left-true : caps_left ≡ false → is_empty (all_captures g.board g.current_player) ≡ true
  caps_left-true h = ground arith

  pub valid-IsLegal :
      (r c : ℕ) (m : Move)
      → m ∈ valid_moves_for g r c
      → IsLegal g m × (m.from_row ≡ r) × (m.from_col ≡ c)
  unfolding valid_moves_for
  valid-IsLegal r c m h = elim (Bool-cases (is_color g.current_player (at g.board r c))) [
    | inr e ↦ absurd (rw e at h)
    | inl e ↦
        let h1 : m ∈ (
            if chain_elsewhere g.chain_piece r c
            then []
            else if caps_left
            then map (move_from r c) (captures g.board r c)
            else if in_chain g.chain_piece
            then []
            else map (move_from r c) (simple_moves g.board r c)) =
          rw e at h in
        elim (Bool-cases (chain_elsewhere g.chain_piece r c)) [
          | inl k ↦ absurd (rw k at h1)
          | inr k ↦ elim (Bool-cases caps_left) [
            | inl y ↦
                let h2 : m ∈ map (move_from r c) (captures g.board r c) = rw (k, y) at h1 in
                let (hop, _, q) = map-mem (move_from r c) (captures g.board r c) m h2 in
                (
                  takes (captures-Takes g.board g.current_player r c m e h2) (rw q k),
                  ap (λ z. z.from_row) q,
                  ap (λ z. z.from_col) q,
                )
            | inr y ↦ elim (Bool-cases (in_chain g.chain_piece)) [
              | inl z ↦ absurd (rw (k, y, z) at h1)
              | inr z ↦
                  let h2 : m ∈ map (move_from r c) (simple_moves g.board r c) =
                    rw (k, y, z) at h1 in
                  let (hop, _, q) = map-mem (move_from r c) (simple_moves g.board r c) m h2 in
                  (
                    steps (simple-Steps g.board g.current_player r c m e h2)
                        (in_chain-none g.chain_piece z) ((NoCapture-iff g).0 (caps_left-true y)),
                    ap (λ w. w.from_row) q,
                    ap (λ w. w.from_col) q,
                  )
            ]
          ]
        ]
  ]

  IsLegal-valid : (m : Move) → IsLegal g m → m ∈ valid_moves_for g m.from_row m.from_col
  unfolding valid_moves_for
  IsLegal-valid m (takes t k) =
      let e =
        is_color_of g.current_player (at g.board m.from_row m.from_col) t.piece t.stands t.own in
      elim (Bool-cases (is_empty (all_captures g.board g.current_player))) [
        | inl y ↦ absurd ((NoCapture-iff g).0 y m t)
        | inr y ↦ rw (e, k, y) (Takes-captures g.board g.current_player m t)
      ]
  IsLegal-valid m (steps t k n) =
      let e =
        is_color_of g.current_player (at g.board m.from_row m.from_col) t.piece t.stands t.own in
      rw (e, k, (NoCapture-iff g).1 n) (Steps-simple g.board g.current_player m t)

  -- `getValidMovesFor` lists the legal moves of the piece, and no other move.
  pub valid_moves_for_iff : (m : Move) → (m ∈ valid_moves_for g m.from_row m.from_col) ↔ IsLegal g m
  valid_moves_for_iff m = (λ h. (valid-IsLegal m.from_row m.from_col m h).0, IsLegal-valid m)

  chain_here :
      (row col r c : ℕ) → chain_elsewhere (some (row, col)) r c ≡ false → (row ≡ r) × (col ≡ c)
  chain_here row col r c h = ground arith

  all-IsLegal : (m : Move) → m ∈ all_valid_moves g g.current_player → IsLegal g m
  unfolding all_valid_moves
  all-IsLegal m h = elim (Option-cases g.chain_piece) [
    | inr ((row, col), e) ↦
        let h1 : m ∈ valid_moves_for g row col = rw (e, all_valid_moves) at h in
        (valid-IsLegal row col m h1).0
    | inl e ↦ elim (Bool-cases caps_left) [
      | inl y ↦
          let h1 : m ∈ all_captures g.board g.current_player = rw (e, y) at h in
          takes ((mem-all_captures_iff g.board g.current_player m).0 h1) (rw e)
      | inr y ↦
          let h1 : m ∈ all_simple g.board g.current_player = rw (e, y) at h in
          steps ((mem-all_simple_iff g.board g.current_player m).0 h1) e
            ((NoCapture-iff g).0 (caps_left-true y))
    ]
  ]

  IsLegal-all : (m : Move) → IsLegal g m → m ∈ all_valid_moves g g.current_player
  unfolding all_valid_moves
  IsLegal-all m l = elim (Option-cases g.chain_piece) [
    | inr ((row, col), e) ↦
        let (p, q) = chain_here row col m.from_row m.from_col (here row col e l) in
        rw (e, all_valid_moves) (rw (p, q) (IsLegal-valid m l))
    | inl e ↦ go e l
  ]
    where
      here :
          (row col : ℕ)
          → g.chain_piece ≡ some (row, col)
          → IsLegal g m
          → chain_elsewhere (some (row, col)) m.from_row m.from_col ≡ false
      here row col e (takes t k) = subst (λ o. chain_elsewhere o m.from_row m.from_col ≡ false) e k
      here row col e (steps t k n) = cc

      go : g.chain_piece ≡ none → IsLegal g m → m ∈ all_valid_moves g g.current_player
      go e (takes t k) = elim (Bool-cases (is_empty (all_captures g.board g.current_player))) [
        | inl y ↦ absurd ((NoCapture-iff g).0 y m t)
        | inr y ↦ rw (e, all_valid_moves, y) ((mem-all_captures_iff g.board g.current_player m).1 t)
      ]
      go e (steps t k n) =
          rw (e, all_valid_moves, (NoCapture-iff g).1 n)
            ((mem-all_simple_iff g.board g.current_player m).1 t)

  -- `getAllValidMoves` lists exactly the legal moves of the side to move.
  pub all_valid_moves_iff : (m : Move) → (m ∈ all_valid_moves g g.current_player) ↔ IsLegal g m
  all_valid_moves_iff m = (all-IsLegal m, IsLegal-all m)
