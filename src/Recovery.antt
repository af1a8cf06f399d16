-- ===== src/Recovery.antt =====
-- The decision after a restart of the server, of server/domain/gameRecovery.js: the game resumes
-- when each human has acknowledged on the present connection, and waits until its deadline. A user's
-- present connection is a function, `none` for a user with no connection.
use purecheckers.Base.{
  ℕ, suc, ◌≤◌, ◌<◌, ◌≡◌, refl, ap, inl, inr, Bool, true, false, ltb, ◌==◌, if◌then◌else◌, Option,
  some, List, [], ◌∷◌, length, arith, ◌∈◌, Bool-cases,
}

pub record Recovery : Type 0 where
  pub deadline : ℕ
  pub ready_connections : ℕ → Option ℕ

pub data Decision : Type 0 where
  resume wait abort : Decision
  forfeit : ℕ → Decision

-- `connection && readyConnections[id] === connection`.
abbrev pub same_connection : Option ℕ → Option ℕ → Bool
same_connection (some c) (some k) = c == k
same_connection _ _ = false

module _ (r : Recovery) (connection_for : ℕ → Option ℕ) where
  abbrev pub is_ready : ℕ → Bool
  is_ready id = same_connection (connection_for id) (r.ready_connections id)

  unfoldable pub ready_recovery_players : List ℕ → List ℕ
  ready_recovery_players [] = []
  ready_recovery_players (id ∷ rest) =
      if is_ready id then id ∷ ready_recovery_players rest else ready_recovery_players rest

  abbrev first_or : List ℕ → Decision → Decision
  first_or [] d = d
  first_or (id ∷ rest) d = if length rest == 0 then forfeit id else d

  unfoldable pub recovery_decision : List ℕ → ℕ → Decision
  recovery_decision humans now =
      let ready = ready_recovery_players humans in
      if length ready == length humans
      then resume
      else if ltb now r.deadline
      then wait
      else first_or ready abort

  abbrev pub AllReady : List ℕ → Type 0
  AllReady [] = Unit {0}
  AllReady (id ∷ rest) = (is_ready id ≡ true) × AllReady rest

  abbrev pub NoneReady : List ℕ → Type 0
  NoneReady [] = Unit {0}
  NoneReady (id ∷ rest) = (is_ready id ≡ false) × NoneReady rest

  -- Of two humans at most, `id` alone is ready.
  abbrev pub OnlyReady : ℕ → List ℕ → Type 0
  OnlyReady id humans =
      (id ∈ humans) × (is_ready id ≡ true) × ((j : ℕ) → j ∈ humans → is_ready j ≡ true → j ≡ id)

  -- What each decision means.
  pub data Decides (humans : List ℕ) (now : ℕ) : Decision → Type 0 where
    resumes : AllReady humans → Decides humans now resume
    waits : ¬ AllReady humans → now < r.deadline → Decides humans now wait
    forfeits :
        (id : ℕ)
        → ¬ AllReady humans
        → r.deadline ≤ now
        → OnlyReady id humans
        → Decides humans now (forfeit id)
    aborts : ¬ AllReady humans → r.deadline ≤ now → NoneReady humans → Decides humans now abort

  ready_le : (humans : List ℕ) → length (ready_recovery_players humans) ≤ length humans
  unfolding ready_recovery_players
  ready_le [] = omega arith
  ready_le (id ∷ rest) = ground (arith, ready_le rest)

  AllReady-length :
      (humans : List ℕ)
      → (AllReady humans → length (ready_recovery_players humans) ≡ length humans)
        × (length (ready_recovery_players humans) ≡ length humans → AllReady humans)
  unfolding ready_recovery_players
  AllReady-length [] = (λ _. refl, λ _. tt)
  AllReady-length (id ∷ rest) =
      let ih = AllReady-length rest in
      (
        λ (a, as_). rw a (ap suc (ih.0 as_)),
        λ e. elim (Bool-cases (is_ready id)) [
          | inl t ↦ (t, ih.1 (ground arith))
          | inr f ↦ absurd (ground (arith, ready_le rest))
        ],
      )

  late :
      (humans : List ℕ) (now : ℕ)
      → length humans ≤ 2
      → ¬ AllReady humans
      → r.deadline ≤ now
      → Decides humans now (first_or (ready_recovery_players humans) abort)
  unfolding ready_recovery_players
  late [] now h s l = absurd (s tt)
  late (a ∷ []) now h s l = elim (Bool-cases (is_ready a)) [
    | inl t ↦ absurd (s (t, tt))
    | inr f ↦ rw f (aborts s l (f, tt))
  ]
  late (a ∷ b ∷ []) now h s l = elim (Bool-cases (is_ready a)) [
    | inl t ↦ elim (Bool-cases (is_ready b)) [
      | inl u ↦ absurd (s (t, (u, tt)))
      | inr g ↦ rw (t, g) (forfeits a s l (inl refl, t, λ j m q. ground arith))
    ]
    | inr f ↦ elim (Bool-cases (is_ready b)) [
      | inl u ↦ rw (f, u) (forfeits b s l (inr (inl refl), u, λ j m q. ground arith))
      | inr g ↦ rw (f, g) (aborts s l (f, (g, tt)))
    ]
  ]
  late (a ∷ b ∷ c ∷ rest) now h s l = absurd (omega arith)

  -- For a game of two humans at most, the decision is the one that the readiness of the humans and
  -- the deadline call for.
  pub recovery_decision-Decides :
      (humans : List ℕ) (now : ℕ)
      → length humans ≤ 2
      → Decides humans now (recovery_decision humans now)
  unfolding recovery_decision
  recovery_decision-Decides humans now h =
      elim (Bool-cases (length (ready_recovery_players humans) == length humans)) [
        | inl e ↦ rw e (resumes ((AllReady-length humans).1 (ground arith)))
        | inr e ↦
            let short : ¬ AllReady humans =
              λ a. absurd (ground (arith, (AllReady-length humans).0 a)) in
            elim (Bool-cases (ltb now r.deadline)) [
              | inl l ↦ rw (e, l) (waits short (ground arith))
              | inr l ↦ rw (e, l) (late humans now h short (ground arith))
            ]
      ]
