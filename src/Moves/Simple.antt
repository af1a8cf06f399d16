-- ===== src/Moves/Simple.antt =====
-- `getSimpleMoves` against a description of the rule: a queen goes along a free ray, a man one
-- square forward.
use purecheckers.Base.{
  ℕ, ◌+◌, ◌<◌, ◌≤◌, ◌≡◌, refl, ◌↔◌, ◌⊎◌, inl, inr, true, false, Bool-cases, [], ◌∷◌, arith, ◌∈◌,
  mem-flat_map, flat_map-mem,
}
use purecheckers.Board.{Piece, Board, occupied, Sign, minus, plus, Direction, directions, at, look}
use purecheckers.Moves.{
  Hop, is_free, hop_to, slide, forward, man_step, man_moves, queen_moves, simple_moves,
}
use purecheckers.Moves.Rays.{Free, mem-directions, slide-mem, mem-slide, free_near}

module _ (b : Board) (r c : ℕ) where
  pub record IsSimple (p : Piece) (h : Hop) : Type 0 where
    pub dir : Direction
    pub far : ℕ
    pub ahead : 1 ≤ far
    pub man_far : p.queen ≡ false → far ≡ 1
    pub man_dir : p.queen ≡ false → dir.0 ≡ forward b r c p.color
    pub landing : Free b r c dir 1 (far + 1)
    pub hop : h ≡ hop_to r c dir far []

  man_moves-mem : (p : Piece) (h : Hop) → p.queen ≡ false → h ∈ man_moves b r c p → IsSimple p h
  unfolding man_moves man_step
  man_moves-mem p h man m =
      let (dc, md, mh) =
        flat_map-mem (λ dc. man_step b r c (forward b r c p.color, dc)) (minus ∷ plus ∷ []) h m in
      let dir : Direction = (forward b r c p.color, dc) in
      elim (Bool-cases (is_free (look b r c dir 1))) [
        | inr e ↦ absurd (rw e at mh)
        | inl e ↦
            let q : (h ≡ hop_to r c dir 1 []) ⊎ ⊥ = rw e at mh in
            record {
              dir = dir;
              far = 1;
              ahead = omega arith;
              man_far = λ _. refl;
              man_dir = λ _. refl;
              landing = λ k a l. let s : 1 ≡ k = omega arith in rw (← s) e;
              hop = elim q [ inl z ↦ z | inr z ↦ absurd z ];
            }
      ]

  mem-signs : (s : Sign) → s ∈ minus ∷ plus ∷ []
  mem-signs minus = inl refl
  mem-signs plus = inr (inl refl)

  mem-man_moves : (p : Piece) (h : Hop) → p.queen ≡ false → IsSimple p h → h ∈ man_moves b r c p
  unfolding man_moves man_step
  mem-man_moves p h man i =
      let f = i.man_far man in
      let d = i.man_dir man in
      let l = i.landing 1 (omega arith) (omega (arith, i.ahead)) in
      mem-flat_map (λ dc. man_step b r c (forward b r c p.color, dc)) (minus ∷ plus ∷ []) i.dir.1 h
        (mem-signs i.dir.1) (rw (← d) (rw l (inl (rw (← f) i.hop))))

  module _ (hr : r < 8) (hc : c < 8) where
    queen_moves-mem : (p : Piece) (h : Hop) → p.queen ≡ true → h ∈ queen_moves b r c → IsSimple p h
    unfolding queen_moves
    queen_moves-mem p h queen m =
        let (dir, md, mh) = flat_map-mem (λ dir. slide b r c dir [] 8 1) directions h m in
        let s = slide-mem b r c dir [] 8 1 h mh in
        record {
          dir = dir;
          far = s.far;
          ahead = s.starts;
          man_far = λ z. cc;
          man_dir = λ z. cc;
          landing = s.clear;
          hop = s.hop;
        }

    mem-queen_moves : (p : Piece) (h : Hop) → IsSimple p h → h ∈ queen_moves b r c
    unfolding queen_moves
    mem-queen_moves p h i =
        let last = free_near b r c i.dir hr hc i.far (i.landing i.far i.ahead (omega arith)) in
        mem-flat_map (λ dir. slide b r c dir [] 8 1) directions i.dir h (mem-directions i.dir)
          (rw i.hop (mem-slide b r c i.dir [] 8 1 i.far i.ahead (omega arith) i.landing))

    simple_moves_queen :
        (p : Piece)
        → at b r c ≡ occupied p
        → p.queen ≡ true
        → simple_moves b r c ≡ queen_moves b r c
    unfolding simple_moves
    simple_moves_queen p e q = ground arith

    simple_moves_man :
        (p : Piece)
        → at b r c ≡ occupied p
        → p.queen ≡ false
        → simple_moves b r c ≡ man_moves b r c p
    unfolding simple_moves
    simple_moves_man p e q = ground arith

    -- The moves that `getSimpleMoves` lists for a piece on the board are those of the rule.
    pub mem-simple_moves_iff :
        (p : Piece) (h : Hop) → at b r c ≡ occupied p → (h ∈ simple_moves b r c) ↔ IsSimple p h
    mem-simple_moves_iff p h e = elim (Bool-cases p.queen) [
      | inl q ↦ rw (simple_moves_queen p e q) (queen_moves-mem p h q, mem-queen_moves p h)
      | inr q ↦ rw (simple_moves_man p e q) (man_moves-mem p h q, mem-man_moves p h q)
    ]
