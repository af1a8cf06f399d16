-- ===== src/Bot/Pruning.antt =====
-- The loop of one level of alpha-beta search over any totally ordered scores, and that it agrees with
-- the loop that looks at every move. The minimising level is the same loop in the opposite order.
use purecheckers.Base.{
  ◌≡◌, refl, sym, ap, ◌∙◌, ◌⊎◌, inl, inr, Bool, true, false, if◌then◌else◌, Bool-cases, List, [],
  ◌∷◌, ◌∈◌,
}
use purecheckers.Moves.{Move}

module _ {S : Type 0} (leb : S → S → Bool) where
  -- `Math.max` in the order of `leb`.
  unfoldable pub better : S → S → S
  better a b = if leb a b then b else a

  -- `for (const move of moves) { … if (beta <= alpha) break; }`: `search` looks at a move within the
  -- window from `alpha` to `beta`.
  unfoldable pub pruned : (S → S → Move → S) → List Move → S → S → S → S
  pruned search [] alpha beta best = best
  pruned search (m ∷ ms) alpha beta best =
      let ev = search alpha beta m in
      let alpha' = better alpha ev in
      let rest = pruned search ms alpha' beta (better best ev) in
      if leb beta alpha' then better best ev else rest

  -- The loop with no window and no break.
  unfoldable pub unpruned : (Move → S) → List Move → S → S
  unpruned value [] best = best
  unpruned value (m ∷ ms) best = unpruned value ms (better best (value m))

  -- `r` stands for the value `v` within the window: it is no less unless it reaches `beta`, and no
  -- more unless it stays within `alpha`.
  pub record Stands (alpha beta r v : S) : Type 0 where
    pub upper : (leb v r ≡ true) ⊎ (leb beta r ≡ true)
    pub lower : (leb r v ≡ true) ⊎ (leb r alpha ≡ true)

  module _ (le_total : (a b : S) → (leb a b ≡ true) ⊎ (leb b a ≡ true))
      (le_trans : (a b c : S) → leb a b ≡ true → leb b c ≡ true → leb a c ≡ true) where
    pub le_refl : (a : S) → leb a a ≡ true
    le_refl a = elim (le_total a a) [ inl h ↦ h | inr h ↦ h ]

    pub le_left : (a b : S) → leb a (better a b) ≡ true
    unfolding better
    le_left a b = elim (Bool-cases (leb a b)) [ inl h ↦ rw (h, h) | inr h ↦ rw h (le_refl a) ]

    le_of_not : (a b : S) → leb a b ≡ false → leb b a ≡ true
    le_of_not a b h = elim (le_total a b) [ inl k ↦ cc | inr k ↦ k ]

    pub le_right : (a b : S) → leb b (better a b) ≡ true
    unfolding better
    le_right a b = elim (Bool-cases (leb a b)) [
      | inl h ↦ rw h (le_refl b)
      | inr h ↦ rw h (le_of_not a b h)
    ]

    pub better_le : (a b c : S) → leb a c ≡ true → leb b c ≡ true → leb (better a b) c ≡ true
    unfolding better
    better_le a b c h k = elim (Bool-cases (leb a b)) [ inl e ↦ rw e k | inr e ↦ rw e h ]

    pub better-cases : (a b : S) → (better a b ≡ a) ⊎ (better a b ≡ b)
    unfolding better
    better-cases a b = elim (Bool-cases (leb a b)) [ inl e ↦ inr (rw e) | inr e ↦ inl (rw e) ]

    pub unpruned_le :
        (value : Move → S) (ms : List Move) (w : S) → leb w (unpruned value ms w) ≡ true
    unfolding unpruned
    unpruned_le value [] w = le_refl w
    unpruned_le value (m ∷ ms) w =
        le_trans w (better w (value m)) (unpruned value ms (better w (value m)))
          (le_left w (value m)) (unpruned_le value ms (better w (value m)))

    -- What the loop knows of its best score `e` and of the best value so far, `w`.
    pub record Knows (alpha0 alpha beta e w : S) : Type 0 where
      pub first_le : leb alpha0 alpha ≡ true
      pub best_le : leb e alpha ≡ true
      pub least : (c : S) → leb alpha0 c ≡ true → leb e c ≡ true → leb alpha c ≡ true
      pub window : leb beta alpha ≡ false
      pub above : leb w e ≡ true
      pub below : (leb e w ≡ true) ⊎ (leb e alpha0 ≡ true)

    module _ (alpha0 alpha beta e w ev v : S) (k : Knows alpha0 alpha beta e w)
        (stands : Stands alpha beta ev v) where
      to_best : leb ev (better e ev) ≡ true
      to_best = le_right e ev

      to_value : leb v (better w v) ≡ true
      to_value = le_right w v

      e_to_best : leb e (better e ev) ≡ true
      e_to_best = le_left e ev

      w_to_value : leb w (better w v) ≡ true
      w_to_value = le_left w v

      -- The loop breaks: its best score reaches `beta`, and no value is below it.
      pub cut :
          (rest : S)
          → leb beta (better alpha ev) ≡ true
          → leb (better w v) rest ≡ true
          → Stands alpha0 beta (better e ev) rest
      cut rest h r =
          let reached : leb beta ev ≡ true = elim (better-cases alpha ev) [
            | inl q ↦ cc (sym (ap (λ z. leb beta z) q) ∙ h, k.window)
            | inr q ↦ sym (ap (λ z. leb beta z) q) ∙ h
          ] in
          let exact : leb ev v ≡ true = elim stands.lower [
            | inl q ↦ q
            | inr q ↦ cc (le_trans beta ev alpha reached q, k.window)
          ] in
          let ev_rest = le_trans ev v rest exact (le_trans v (better w v) rest to_value r) in
          let e_ev =
            le_trans e alpha ev k.best_le
              (le_trans alpha beta ev (le_of_not beta alpha k.window) reached) in
          record {
            upper = inr (le_trans beta ev (better e ev) reached to_best);
            lower = inl (better_le e ev rest (le_trans e ev rest e_ev ev_rest) ev_rest);
          }

      below' : (leb (better e ev) (better w v) ≡ true) ⊎ (leb (better e ev) alpha0 ≡ true)
      below' = elim stands.lower [
        | inl exact ↦ elim k.below [
          | inl b ↦ inl (
              better_le e ev (better w v) (le_trans e w (better w v) b w_to_value)
                (le_trans ev v (better w v) exact to_value))
          | inr b ↦ elim (le_total alpha0 ev) [
            | inl c ↦
                let ev_value = le_trans ev v (better w v) exact to_value in
                inl (
                  better_le e ev (better w v)
                    (le_trans e ev (better w v) (le_trans e alpha0 ev b c) ev_value) ev_value)
            | inr c ↦ inr (better_le e ev alpha0 b c)
          ]
        ]
        | inr low ↦ elim (le_total e alpha0) [
          | inl c ↦ inr (
              better_le e ev alpha0 c
                (le_trans ev alpha alpha0 low (k.least alpha0 (le_refl alpha0) c)))
          | inr c ↦
              let ev_e = le_trans ev alpha e low (k.least e c (le_refl e)) in
              elim k.below [
                | inl b ↦
                    let e_value = le_trans e w (better w v) b w_to_value in
                    inl (
                      better_le e ev (better w v) e_value (le_trans ev e (better w v) ev_e e_value))
                | inr b ↦ inr (better_le e ev alpha0 b (le_trans ev e alpha0 ev_e b))
              ]
        ]
      ]

      -- The loop goes on with what it knows.
      pub go_on :
          leb beta (better alpha ev) ≡ false
          → Knows alpha0 (better alpha ev) beta (better e ev) (better w v)
      go_on h =
          let over = le_left alpha ev in
          record {
            first_le = le_trans alpha0 alpha (better alpha ev) k.first_le over;
            best_le =
                better_le e ev (better alpha ev) (le_trans e alpha (better alpha ev) k.best_le over)
                  (le_right alpha ev);
            least = λ c p q.
                better_le alpha ev c (k.least c p (le_trans e (better e ev) c e_to_best q))
                  (le_trans ev (better e ev) c to_best q);
            window = h;
            above =
                better_le w v (better e ev) (le_trans w e (better e ev) k.above e_to_best)
                  (elim stands.upper [
                    | inl q ↦ le_trans v ev (better e ev) q to_best
                    | inr q ↦ cc (le_trans beta ev (better alpha ev) q (le_right alpha ev), h)
                  ]);
            below = below';
          }

    pruned-Stands :
        (search : S → S → Move → S) (value : Move → S) (ms : List Move) (alpha0 alpha beta e w : S)
        → ((m : Move) → m ∈ ms → (a b : S) → leb b a ≡ false → Stands a b (search a b m) (value m))
        → Knows alpha0 alpha beta e w
        → Stands alpha0 beta (pruned search ms alpha beta e) (unpruned value ms w)
    unfolding pruned unpruned
    pruned-Stands search value [] alpha0 alpha beta e w ih k = record {
      upper = inl k.above;
      lower = k.below;
    }
    pruned-Stands search value (m ∷ ms) alpha0 alpha beta e w ih k =
        let ev = search alpha beta m in
        let v = value m in
        let stands = ih m (inl refl) alpha beta k.window in
        elim (Bool-cases (leb beta (better alpha ev))) [
          | inl h ↦ rw h (
              cut alpha0 alpha beta e w ev v k stands (unpruned value ms (better w v)) h
                (unpruned_le value ms (better w v)))
          | inr h ↦ rw h (
              pruned-Stands search value ms alpha0 (better alpha ev) beta (better e ev) (better w v)
                (λ n mem. ih n (inr mem)) (go_on alpha0 alpha beta e w ev v k stands h))
        ]

    -- The whole loop, begun with a score below all others.
    pub loop-Stands :
        (bottom : S)
        → ((a : S) → leb bottom a ≡ true)
        → (search : S → S → Move → S) (value : Move → S) (ms : List Move) (alpha beta : S)
        → ((m : Move) → m ∈ ms → (a b : S) → leb b a ≡ false → Stands a b (search a b m) (value m))
        → leb beta alpha ≡ false
        → Stands alpha beta (pruned search ms alpha beta bottom) (unpruned value ms bottom)
    loop-Stands bottom least search value ms alpha beta ih h =
        pruned-Stands search value ms alpha alpha beta bottom bottom ih (record {
          first_le = le_refl alpha;
          best_le = least alpha;
          least = λ c p q. p;
          window = h;
          above = le_refl bottom;
          below = inl (le_refl bottom);
        })
