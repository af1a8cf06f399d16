-- ===== src/Game/Rules.antt =====
-- `getAllCaptures` and the scan for simple moves of CheckersGame against the rules of one piece.
use purecheckers.Base.{
  ℕ, ◌<◌, ◌≡◌, refl, sym, subst, ◌↔◌, inl, inr, true, false, Bool-cases, List, [], ◌∷◌, map, arith,
  ◌∈◌, mem-flat_map, flat_map-mem, mem-map, map-mem, is_empty,
}
use purecheckers.Board.{
  Color, same_color, Piece, Board, Slot, outside, empty, occupied, at, squares,
}
use purecheckers.Board.Cells.{at-ne-outside, mem-squares}
use purecheckers.Moves.{Hop, Move, move_from, is_color, captures, simple_moves}
use purecheckers.Moves.Captures.{IsCapture, mem-captures_iff}
use purecheckers.Moves.Simple.{IsSimple, mem-simple_moves_iff}
use purecheckers.Game.{captures_of, all_captures, simple_of, all_simple}

pub same_color_iff : (a b : Color) → (same_color a b ≡ true) ↔ (a ≡ b)
same_color_iff a b = ground arith

pub is_color_some :
    (color : Color) (s : Slot)
    → is_color color s ≡ true
    → (p : Piece) × (s ≡ occupied p) × (p.color ≡ color)
is_color_some color outside h = cc
is_color_some color empty h = cc
is_color_some color (occupied p) h = (p, refl, (same_color_iff p.color color).0 h)

pub is_color_of :
    (color : Color) (s : Slot) (p : Piece)
    → s ≡ occupied p
    → p.color ≡ color
    → is_color color s ≡ true
is_color_of color s p e f = rw e ((same_color_iff p.color color).1 f)

pub occupied_inside : (b : Board) (r c : ℕ) (p : Piece) → at b r c ≡ occupied p → (r < 8) × (c < 8)
occupied_inside b r c p e = let (hr, hc, _) = at-ne-outside b r c (λ q. cc) in (hr, hc)

-- A move along the rule of captures, by a piece of the colour.
pub record Takes (b : Board) (color : Color) (m : Move) : Type 0 where
  pub piece : Piece
  pub stands : at b m.from_row m.from_col ≡ occupied piece
  pub own : piece.color ≡ color
  pub hop : Hop
  pub made : m ≡ move_from m.from_row m.from_col hop
  pub rule : IsCapture b m.from_row m.from_col piece hop

pub record Steps (b : Board) (color : Color) (m : Move) : Type 0 where
  pub piece : Piece
  pub stands : at b m.from_row m.from_col ≡ occupied piece
  pub own : piece.color ≡ color
  pub hop : Hop
  pub made : m ≡ move_from m.from_row m.from_col hop
  pub rule : IsSimple b m.from_row m.from_col piece hop

module _ (b : Board) (color : Color) where
  Takes-hop :
      (r c : ℕ) (p : Piece) (h : Hop)
      → at b r c ≡ occupied p
      → p.color ≡ color
      → h ∈ captures b r c
      → Takes b color (move_from r c h)
  Takes-hop r c p h e own m =
      let (hr, hc) = occupied_inside b r c p e in
      record {
        piece = p;
        stands = e;
        own = own;
        hop = h;
        made = refl;
        rule = (mem-captures_iff b r c hr hc p h e).0 m;
      }

  Steps-hop :
      (r c : ℕ) (p : Piece) (h : Hop)
      → at b r c ≡ occupied p
      → p.color ≡ color
      → h ∈ simple_moves b r c
      → Steps b color (move_from r c h)
  Steps-hop r c p h e own m =
      let (hr, hc) = occupied_inside b r c p e in
      record {
        piece = p;
        stands = e;
        own = own;
        hop = h;
        made = refl;
        rule = (mem-simple_moves_iff b r c hr hc p h e).0 m;
      }

  hop-Takes : (m : Move) (t : Takes b color m) → t.hop ∈ captures b m.from_row m.from_col
  hop-Takes m t =
      let (hr, hc) = occupied_inside b m.from_row m.from_col t.piece t.stands in
      (mem-captures_iff b m.from_row m.from_col hr hc t.piece t.hop t.stands).1 t.rule

  hop-Steps : (m : Move) (t : Steps b color m) → t.hop ∈ simple_moves b m.from_row m.from_col
  hop-Steps m t =
      let (hr, hc) = occupied_inside b m.from_row m.from_col t.piece t.stands in
      (mem-simple_moves_iff b m.from_row m.from_col hr hc t.piece t.hop t.stands).1 t.rule

  -- The moves of one square, for a piece of the colour.
  pub captures-Takes :
      (r c : ℕ) (m : Move)
      → is_color color (at b r c) ≡ true
      → m ∈ map (move_from r c) (captures b r c)
      → Takes b color m
  captures-Takes r c m k h =
      let (p, e, own) = is_color_some color (at b r c) k in
      let (hop, mem, q) = map-mem (move_from r c) (captures b r c) m h in
      rw q (Takes-hop r c p hop e own mem)

  pub simple-Steps :
      (r c : ℕ) (m : Move)
      → is_color color (at b r c) ≡ true
      → m ∈ map (move_from r c) (simple_moves b r c)
      → Steps b color m
  simple-Steps r c m k h =
      let (p, e, own) = is_color_some color (at b r c) k in
      let (hop, mem, q) = map-mem (move_from r c) (simple_moves b r c) m h in
      rw q (Steps-hop r c p hop e own mem)

  pub Takes-captures :
      (m : Move)
      → Takes b color m
      → m ∈ map (move_from m.from_row m.from_col) (captures b m.from_row m.from_col)
  Takes-captures m t =
      subst (λ x. x ∈ map (move_from m.from_row m.from_col) (captures b m.from_row m.from_col))
        (sym t.made)
        (mem-map (move_from m.from_row m.from_col) (captures b m.from_row m.from_col) t.hop
          (hop-Takes m t))

  pub Steps-simple :
      (m : Move)
      → Steps b color m
      → m ∈ map (move_from m.from_row m.from_col) (simple_moves b m.from_row m.from_col)
  Steps-simple m t =
      subst (λ x. x ∈ map (move_from m.from_row m.from_col) (simple_moves b m.from_row m.from_col))
        (sym t.made)
        (mem-map (move_from m.from_row m.from_col) (simple_moves b m.from_row m.from_col) t.hop
          (hop-Steps m t))

  -- `getAllCaptures` lists the captures of the colour, and no other move.
  pub mem-all_captures_iff : (m : Move) → (m ∈ all_captures b color) ↔ Takes b color m
  unfolding all_captures
  mem-all_captures_iff m = (
    λ h.
        let ((r, c), _, k) = flat_map-mem (captures_of b color) squares m h in
        elim (Bool-cases (is_color color (at b r c))) [
          | inl e ↦ captures-Takes r c m e (rw e at k)
          | inr e ↦ absurd (rw e at k)
        ],
    λ t.
        let (hr, hc) = occupied_inside b m.from_row m.from_col t.piece t.stands in
        mem-flat_map (captures_of b color) squares (m.from_row, m.from_col) m
          (mem-squares m.from_row m.from_col hr hc)
          (rw (is_color_of color (at b m.from_row m.from_col) t.piece t.stands t.own)
            (Takes-captures m t)),
  )

  pub mem-all_simple_iff : (m : Move) → (m ∈ all_simple b color) ↔ Steps b color m
  unfolding all_simple
  mem-all_simple_iff m = (
    λ h.
        let ((r, c), _, k) = flat_map-mem (simple_of b color) squares m h in
        elim (Bool-cases (is_color color (at b r c))) [
          | inl e ↦ simple-Steps r c m e (rw e at k)
          | inr e ↦ absurd (rw e at k)
        ],
    λ t.
        let (hr, hc) = occupied_inside b m.from_row m.from_col t.piece t.stands in
        mem-flat_map (simple_of b color) squares (m.from_row, m.from_col) m
          (mem-squares m.from_row m.from_col hr hc)
          (rw (is_color_of color (at b m.from_row m.from_col) t.piece t.stands t.own)
            (Steps-simple m t)),
  )

pub is_empty_iff : {A : Type 0} (xs : List A) → (is_empty xs ≡ true) ↔ ((x : A) → ¬ (x ∈ xs))
is_empty_iff [] = (λ _ x h. h, λ _. refl)
is_empty_iff (x ∷ xs) = (λ h. cc, λ h. absurd (h x (inl refl)))

pub not_empty_mem : {A : Type 0} (xs : List A) → is_empty xs ≡ false → (x : A) × (x ∈ xs)
not_empty_mem [] h = cc
not_empty_mem (x ∷ xs) h = (x, inl refl)
