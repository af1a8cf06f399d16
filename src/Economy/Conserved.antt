-- ===== src/Economy/Conserved.antt =====
-- What the vault pays is neither made nor lost.
use purecheckers.Base.{
  ℕ, ◌+◌, leb, ◌==◌, ◌≡◌, refl, ap, ◌∙◌, if_ind, if_both, Bool, true, false, if◌then◌else◌, Option,
  none, some, List, [], ◌∷◌, arith,
}
use purecheckers.Economy.{
  User, VaultEntry, Books, coin_amount, find_user, change_user, award_to, award_coins, balance_of,
  withdraw_from_vault, pay_or_queue,
}

abbrev pub coins_of : List User → ℕ
coins_of [] = 0
coins_of (u ∷ us) = u.coins + coins_of us

-- The coins of all users and the vault.
abbrev pub total : Books → ℕ
total b = coins_of b.users + balance_of b.vault

abbrev pub paid_in : List VaultEntry → ℕ
paid_in [] = 0
paid_in (e ∷ es) = (if e.is_in then e.amount else 0) + paid_in es

abbrev pub paid_out : List VaultEntry → ℕ
paid_out [] = 0
paid_out (e ∷ es) = (if e.is_in then 0 else e.amount) + paid_out es

-- There are `n` coins in all, and the vault has what its log says.
pub record IsSound (n : ℕ) (b : Books) : Type 0 where
  pub all_coins : total b ≡ n
  pub audited : balance_of b.vault + paid_out b.vault_log ≡ paid_in b.vault_log

coins_of-change_user :
    (id : ℕ) (f : User → User) (us : List User)
    → ((x : User) → (f x).coins ≡ x.coins)
    → coins_of (change_user id f us) ≡ coins_of us
unfolding change_user
coins_of-change_user id f [] h = refl
coins_of-change_user id f (u ∷ us) h =
    if_ind (λ z. coins_of z ≡ u.coins + coins_of us) (u.id == id) (λ _. omega (arith, h u))
      (λ _. omega (arith, coins_of-change_user id f us h))

coins_of-gain :
    (id amount : ℕ) (us : List User) (u : User)
    → find_user id us ≡ some u
    → coins_of (change_user id (λ x. record x { coins = x.coins + amount }) us)
      ≡ coins_of us + amount
unfolding change_user find_user
coins_of-gain id amount [] u e = absurd (ground arith)
coins_of-gain id amount (v ∷ vs) u e =
    if_both (v.id == id) (λ z w. z ≡ some u → coins_of w ≡ v.coins + coins_of vs + amount)
      (λ _. omega arith) (λ k. omega (arith, coins_of-gain id amount vs u k)) e

-- A payment that the vault has made leaves the amount to be given.
abbrev pub IsTaken : ℕ → ℕ → Bool × Books → Type 0
IsTaken n amount (true, b) =
    (total b + amount ≡ n) × (balance_of b.vault + paid_out b.vault_log ≡ paid_in b.vault_log)
IsTaken n amount (false, b) = IsSound n b

pub withdraw_from_vault-IsTaken :
    (n amount : ℕ) (b : Books) → IsSound n b → IsTaken n amount (withdraw_from_vault amount b)
unfolding withdraw_from_vault
withdraw_from_vault-IsTaken n amount b s =
    if_ind (λ z. IsTaken n amount z) (leb amount (balance_of b.vault))
      (λ t. (ground (arith, s.all_coins, t), ground (arith, s.audited, t)))
      (λ _. record { all_coins = s.all_coins; audited = s.audited })

-- An error keeps the books as they were, and any other outcome has sound ones.
abbrev pub Keeps : {A : Type 0} → ℕ → Option (A × Books) → Type 0
Keeps n none = true ≡ true
Keeps n (some (a, b)) = IsSound n b

abbrev pub KeepsBooks : ℕ → Option Books → Type 0
KeepsBooks n none = true ≡ true
KeepsBooks n (some b) = IsSound n b

award_to-Keeps :
    (n id amount : ℕ) (b : Books) (o : Option User)
    → find_user id b.users ≡ o
    → IsTaken n amount (true, b)
    → KeepsBooks n (award_to id amount b o)
award_to-Keeps n id amount b none e t = refl
award_to-Keeps n id amount b (some u) e t = record {
  all_coins = omega (arith, coins_of-gain id amount b.users u e, t.0);
  audited = t.1;
}

pub award_coins-Keeps :
    (n id amount : ℕ) (b : Books)
    → IsTaken n amount (true, b)
    → KeepsBooks n (award_coins id amount b)
unfolding award_coins
award_coins-Keeps n id amount b t =
    if_ind (λ z. KeepsBooks n z) (coin_amount amount)
      (λ _. award_to-Keeps n id amount b (find_user id b.users) refl t) (λ _. refl)

paid-Keeps :
    (n : ℕ) (o : Option Books)
    → KeepsBooks n o
    → Keeps {A = Bool} n (elim o [ none ↦ none | some c ↦ some (true, c) ])
paid-Keeps n none k = refl
paid-Keeps n (some c) k = k

pay_or_queue-Keeps :
    (n id amount : ℕ) (r : Bool × Books)
    → IsTaken n amount r
    → Keeps {A = Bool} n (pay_or_queue id amount r)
pay_or_queue-Keeps n id amount (true, b) t =
    paid-Keeps n (award_coins id amount b) (award_coins-Keeps n id amount b t)
pay_or_queue-Keeps n id amount (false, b) s = record {
  all_coins = s.all_coins;
  audited = s.audited;
}

pub vault_pays-Keeps :
    (n id amount : ℕ) (b : Books)
    → IsSound n b
    → Keeps {A = Bool} n (pay_or_queue id amount (withdraw_from_vault amount b))
vault_pays-Keeps n id amount b s =
    pay_or_queue-Keeps n id amount (withdraw_from_vault amount b)
      (withdraw_from_vault-IsTaken n amount b s)

-- A change of users that keeps their coins.
pub IsSound-change_user :
    (n id : ℕ) (f : User → User) (b : Books)
    → ((x : User) → (f x).coins ≡ x.coins)
    → IsSound n b
    → IsSound n (record b { users = change_user id f b.users })
IsSound-change_user n id f b h s = record {
  all_coins = ap (λ z. z + balance_of b.vault) (coins_of-change_user id f b.users h) ∙ s.all_coins;
  audited = s.audited;
}
