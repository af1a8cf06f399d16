-- ===== src/Moves/Captures.antt =====
-- `getCaptures` against a description of the rule: along a ray the first piece is an enemy and the
-- squares from there to the landing are free; a man has its enemy beside it and lands behind it.
use purecheckers.Base.{
  ℕ, ◌+◌, ◌<◌, ◌≤◌, ◌≡◌, refl, ◌↔◌, ◌⊎◌, inl, inr, true, false, if◌then◌else◌, Bool-cases, [], ◌∷◌,
  arith, ◌∈◌, mem-flat_map, flat_map-mem, length,
}
use purecheckers.Board.{
  Color, opponent, Piece, Board, Slot, outside, empty, occupied, Direction, directions, at, look,
}
use purecheckers.Moves.{
  Hop, is_free, is_color, hop_to, square_at, scan, man_capture, man_captures, queen_capture,
  queen_captures, captures,
}
use purecheckers.Moves.Rays.{
  Free, mem-directions, slide-mem, mem-slide, scan_lem, scan_unique, free_near,
}

module _ (b : Board) (r c : ℕ) where
  pub record IsCapture (p : Piece) (h : Hop) : Type 0 where
    pub dir : Direction
    pub near : ℕ
    pub far : ℕ
    pub ahead : 1 ≤ near
    pub beyond : near < far
    pub man_near : p.queen ≡ false → near ≡ 1
    pub man_far : p.queen ≡ false → far ≡ 2
    pub approach : Free b r c dir 1 near
    pub enemy : is_color (opponent p.color) (look b r c dir near) ≡ true
    pub landing : Free b r c dir (near + 1) (far + 1)
    pub hop : h ≡ hop_to r c dir far (square_at r c dir near ∷ [])

  color_not_free : (color : Color) (s : Slot) → is_color color s ≡ true → is_free s ≡ false
  color_not_free color outside h = refl
  color_not_free color empty h = cc
  color_not_free color (occupied p) h = refl

  man_captures-mem :
      (p : Piece) (h : Hop) → p.queen ≡ false → h ∈ man_captures b r c p → IsCapture p h
  unfolding man_captures man_capture
  man_captures-mem p h man m =
      let (dir, md, mh) = flat_map-mem (man_capture b r c (opponent p.color)) directions h m in
      elim (Bool-cases (is_color (opponent p.color) (look b r c dir 1))) [
        | inr e ↦ absurd (rw e at mh)
        | inl e ↦
            let mh' : h ∈ (
                if is_free (look b r c dir 2)
                then hop_to r c dir 2 (square_at r c dir 1 ∷ []) ∷ []
                else []) =
              rw e at mh in
            elim (Bool-cases (is_free (look b r c dir 2))) [
              | inr f ↦ absurd (rw f at mh')
              | inl f ↦
                  let q : (h ≡ hop_to r c dir 2 (square_at r c dir 1 ∷ [])) ⊎ ⊥ = rw f at mh' in
                  record {
                    dir = dir;
                    near = 1;
                    far = 2;
                    ahead = omega arith;
                    beyond = omega arith;
                    man_near = λ _. refl;
                    man_far = λ _. refl;
                    approach = λ k a l. absurd (omega arith);
                    enemy = e;
                    landing = λ k a l. let s : 2 ≡ k = omega arith in rw (← s) f;
                    hop = elim q [ inl z ↦ z | inr z ↦ absurd z ];
                  }
            ]
      ]

  mem-man_captures :
      (p : Piece) (h : Hop) → p.queen ≡ false → IsCapture p h → h ∈ man_captures b r c p
  unfolding man_captures man_capture
  mem-man_captures p h man i =
      let n = i.man_near man in
      let f = i.man_far man in
      let e = rw n at i.enemy in
      let l = i.landing 2 (omega arith) (omega arith) in
      mem-flat_map (man_capture b r c (opponent p.color)) directions i.dir h (mem-directions i.dir)
        (rw (e, l) (inl (rw (← n, ← f) i.hop)))

  module _ (hr : r < 8) (hc : c < 8) where
    queen_captures-mem :
        (p : Piece) (h : Hop) → p.queen ≡ true → h ∈ queen_captures b r c p → IsCapture p h
    unfolding queen_captures queen_capture
    queen_captures-mem p h queen m =
        let (dir, md, mh) = flat_map-mem (queen_capture b r c (opponent p.color)) directions h m in
        let dist = scan b r c dir 8 1 in
        let seen = scan_lem b r c dir 8 1 in
        elim (Bool-cases (is_color (opponent p.color) (look b r c dir dist))) [
          | inr e ↦ absurd (rw e at mh)
          | inl e ↦
              let s =
                slide-mem b r c dir (square_at r c dir dist ∷ []) 8 (dist + 1) h (rw e at mh) in
              record {
                dir = dir;
                near = dist;
                far = s.far;
                ahead = seen.starts;
                beyond = omega (arith, s.starts);
                man_near = λ z. cc;
                man_far = λ z. cc;
                approach = seen.clear;
                enemy = e;
                landing = s.clear;
                hop = s.hop;
              }
        ]

    mem-queen_captures : (p : Piece) (h : Hop) → IsCapture p h → h ∈ queen_captures b r c p
    unfolding queen_captures queen_capture
    mem-queen_captures p h i =
        let found =
          scan_unique b r c i.dir hr hc i.near i.ahead i.approach (color_not_free _ _ i.enemy) in
        let last =
          free_near b r c i.dir hr hc i.far
            (i.landing i.far (omega (arith, i.beyond)) (omega arith)) in
        mem-flat_map (queen_capture b r c (opponent p.color)) directions i.dir h
          (mem-directions i.dir)
          (rw (found, i.enemy, i.hop)
            (mem-slide b r c i.dir (square_at r c i.dir i.near ∷ []) 8 (i.near + 1) i.far
              (omega (arith, i.beyond)) (omega arith) i.landing))

    captures_queen :
        (p : Piece)
        → at b r c ≡ occupied p
        → p.queen ≡ true
        → captures b r c ≡ queen_captures b r c p
    unfolding captures
    captures_queen p e q = ground arith

    captures_man :
        (p : Piece)
        → at b r c ≡ occupied p
        → p.queen ≡ false
        → captures b r c ≡ man_captures b r c p
    unfolding captures
    captures_man p e q = ground arith

    -- The moves that `getCaptures` lists for a piece on the board are those of the rule.
    pub mem-captures_iff :
        (p : Piece) (h : Hop) → at b r c ≡ occupied p → (h ∈ captures b r c) ↔ IsCapture p h
    mem-captures_iff p h e = elim (Bool-cases p.queen) [
      | inl q ↦ rw (captures_queen p e q) (queen_captures-mem p h q, mem-queen_captures p h)
      | inr q ↦ rw (captures_man p e q) (man_captures-mem p h q, mem-man_captures p h q)
    ]

-- Every listed capture takes one piece.
pub captures-one :
    (b : Board) (r c : ℕ) (p : Piece) (h : Hop) → IsCapture b r c p h → length h.captured ≡ 1
captures-one b r c p h i = rw i.hop
