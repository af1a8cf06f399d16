-- ===== src/Bot/Choice.antt =====
-- The moves that `chooseMove` draws from are the moves of the greatest value.
use purecheckers.Base.{
  ℕ, ◌≡◌, refl, sym, subst, fun_ext, ◌↔◌, inl, inr, true, false, Bool-cases, List, [], ◌∷◌, ◌++◌,
  ◌∈◌, mem-append_left, mem-append_right, append-mem,
}
use purecheckers.Moves.{Move}
use purecheckers.Game.{Game, all_valid_moves}
use purecheckers.Game.Invariant.{Inv}
use purecheckers.Bot.Ended.{ongoing-chains_end}
use purecheckers.Bot.Search.{
  Score, neg_inf, leb_score, child, plain, best_from, move_score, best_moves, chains_end,
}
use purecheckers.Bot.Value.{leb_score_total, leb_score_trans, neg_inf-least, minimax-plain}

through : {A B C : Type 0} → B ↔ C → A ↔ B → A ↔ C
through f h = (λ a. f.0 (h.0 a), λ c. h.1 (f.1 c))

module _ (score : Move → Score) where
  -- What the loop has after the moves it has seen: the best score is their least upper bound, and the
  -- moves it keeps are those that reach it.
  record Best (seen moves : List Move) (best : Score) : Type 0 where
    most : (n : Move) → n ∈ seen → leb_score (score n) best ≡ true
    least :
        (c : Score)
        → ((n : Move) → n ∈ seen → leb_score (score n) c ≡ true)
        → leb_score best c ≡ true
    sound : (n : Move) → n ∈ moves → (n ∈ seen) × (leb_score best (score n) ≡ true)
    complete : (n : Move) → n ∈ seen → leb_score best (score n) ≡ true → n ∈ moves

  module _ (seen moves : List Move) (best : Score) (m : Move) (k : Best seen moves best) where
    higher : leb_score (score m) best ≡ false → Best (m ∷ seen) (m ∷ []) (score m)
    higher h =
        let up : leb_score best (score m) ≡ true = elim (leb_score_total best (score m)) [
          | inl e ↦ e
          | inr e ↦ cc
        ] in
        record {
          most = λ n mem. elim mem [
            | inl e ↦
                subst (λ z. leb_score (score z) (score m) ≡ true) (sym e)
                  (elim (leb_score_total (score m) (score m)) [ inl q ↦ q | inr q ↦ q ])
            | inr e ↦ leb_score_trans (score n) best (score m) (k.most n e) up
          ];
          least = λ c all. all m (inl refl);
          sound = λ n mem. elim mem [
            | inl e ↦ (
              inl e,
              subst (λ z. leb_score (score m) (score z) ≡ true) (sym e)
                  (elim (leb_score_total (score m) (score m)) [ inl q ↦ q | inr q ↦ q ]),
            )
            | inr e ↦ absurd e
          ];
          complete = λ n mem q. elim mem [
            | inl e ↦ inl e
            | inr e ↦ cc (leb_score_trans (score m) (score n) best q (k.most n e), h)
          ];
        }

    most_with :
        leb_score (score m) best ≡ true
        → (n : Move) → n ∈ m ∷ seen
        → leb_score (score n) best ≡ true
    most_with h n (inl e) = subst (λ z. leb_score (score z) best ≡ true) (sym e) h
    most_with h n (inr e) = k.most n e

    equal :
        leb_score (score m) best ≡ true
        → leb_score best (score m) ≡ true
        → Best (m ∷ seen) (moves ++ (m ∷ [])) best
    equal h q = record {
      most = most_with h;
      least = λ c all. k.least c (λ n e. all n (inr e));
      sound = λ n mem. elim (append-mem n moves (m ∷ []) mem) [
        | inl e ↦ (inr (k.sound n e).0, (k.sound n e).1)
        | inr (inl e) ↦ (inl e, subst (λ z. leb_score best (score z) ≡ true) (sym e) q)
        | inr (inr e) ↦ absurd e
      ];
      complete = λ n mem r. elim mem [
        | inl e ↦ mem-append_right n moves (m ∷ []) (inl e)
        | inr e ↦ mem-append_left n moves (m ∷ []) (k.complete n e r)
      ];
    }

    lower :
        leb_score (score m) best ≡ true
        → leb_score best (score m) ≡ false
        → Best (m ∷ seen) moves best
    lower h q = record {
      most = most_with h;
      least = λ c all. k.least c (λ n e. all n (inr e));
      sound = λ n mem. (inr (k.sound n mem).0, (k.sound n mem).1);
      complete = λ n mem r. elim mem [
        | inl e ↦ cc (subst (λ z. leb_score best (score z) ≡ true) e r, q)
        | inr e ↦ k.complete n e r
      ];
    }

  -- A move of the list whose score no move of the list exceeds.
  unfoldable pub IsGreatest : List Move → Move → Type 0
  IsGreatest ms n =
      (n ∈ ms) × ((other : Move) → other ∈ ms → leb_score (score other) (score n) ≡ true)

  over_all : (seen ms : List Move) (m n : Move) → n ∈ seen ++ (m ∷ ms) → n ∈ (m ∷ seen) ++ ms
  over_all seen ms m n h = elim (append-mem n seen (m ∷ ms) h) [
    | inl e ↦ inr (mem-append_left n seen ms e)
    | inr (inl e) ↦ inl e
    | inr (inr e) ↦ inr (mem-append_right n seen ms e)
  ]

  under_all : (seen ms : List Move) (m n : Move) → n ∈ (m ∷ seen) ++ ms → n ∈ seen ++ (m ∷ ms)
  under_all seen ms m n (inl e) = mem-append_right n seen (m ∷ ms) (inl e)
  under_all seen ms m n (inr h) = elim (append-mem n seen ms h) [
    | inl e ↦ mem-append_left n seen (m ∷ ms) e
    | inr e ↦ mem-append_right n seen (m ∷ ms) (inr e)
  ]

  shifted :
      (seen ms : List Move) (m n : Move)
      → IsGreatest ((m ∷ seen) ++ ms) n ↔ IsGreatest (seen ++ (m ∷ ms)) n
  unfolding IsGreatest
  shifted seen ms m n = (
    λ h. (under_all seen ms m n h.0, λ other e. h.1 other (over_all seen ms m other e)),
    λ h. (over_all seen ms m n h.0, λ other e. h.1 other (under_all seen ms m other e)),
  )

  best_from-Best :
      (ms seen moves : List Move) (best : Score)
      → Best seen moves best
      → (n : Move) → n ∈ best_from score ms best moves ↔ IsGreatest (seen ++ ms) n
  unfolding best_from IsGreatest
  best_from-Best [] seen moves best k n = (
    λ h.
        let (mem, up) = k.sound n h in
        (
          mem-append_left n seen [] mem,
          λ other e. elim (append-mem other seen [] e) [
            | inl q ↦ leb_score_trans (score other) best (score n) (k.most other q) up
            | inr q ↦ absurd q
          ],
        ),
    λ h. elim (append-mem n seen [] h.0) [
      | inl mem ↦
          k.complete n mem
            (k.least (score n) (λ other e. h.1 other (mem-append_left other seen [] e)))
      | inr q ↦ absurd q
    ],
  )
  best_from-Best (m ∷ ms) seen moves best k n = elim (Bool-cases (leb_score (score m) best)) [
    | inr h ↦ rw h (
        through (shifted seen ms m n)
          (best_from-Best ms (m ∷ seen) (m ∷ []) (score m) (higher seen moves best m k h) n))
    | inl h ↦ elim (Bool-cases (leb_score best (score m))) [
      | inl q ↦
          rw (h, q)
            (through (shifted seen ms m n) (
              best_from-Best ms (m ∷ seen) (moves ++ (m ∷ [])) best (equal seen moves best m k h q)
                n))
      | inr q ↦
          rw (h, q)
            (through (shifted seen ms m n)
              (best_from-Best ms (m ∷ seen) moves best (lower seen moves best m k h q) n))
    ]
  ]

  none_seen : Best [] [] neg_inf
  none_seen = record {
    most = λ n e. absurd e;
    least = λ c all. neg_inf-least c;
    sound = λ n e. absurd e;
    complete = λ n e r. absurd e;
  }

-- The value of a move to the side that plays it, by minimax without pruning.
unfoldable pub move_value : ℕ → Game → Move → Score
move_value d g m = plain d g.current_player false (child g m)

pub mem-best_moves :
    (d : ℕ) (g : Game) (m : Move)
    → m ∈ best_moves d g ↔ IsGreatest (move_value d g) (all_valid_moves g g.current_player) m
unfolding best_moves move_score move_value IsGreatest
mem-best_moves d g m =
    subst (λ f. m ∈ best_moves d g ↔ IsGreatest f (all_valid_moves g g.current_player) m)
      (fun_ext (λ n. minimax-plain d g.current_player false (child g n)))
      (best_from-Best (move_score d g) (all_valid_moves g g.current_player) [] [] neg_inf
        (none_seen (move_score d g)) m)

-- On a game of the invariant that is not over, each chain that `chooseMove` finishes comes to its end, and the
-- moves that it draws from are exactly the listed moves whose value, by minimax without pruning, no listed
-- move exceeds.
pub best_moves_iff :
    (d : ℕ) (g : Game)
    → Inv g
    → g.game_over ≡ false
    → (chains_end g ≡ true)
      × ((m : Move)
          → m ∈ best_moves d g ↔ IsGreatest (move_value d g) (all_valid_moves g g.current_player) m)
best_moves_iff d g i o = (ongoing-chains_end g i o, mem-best_moves d g)
