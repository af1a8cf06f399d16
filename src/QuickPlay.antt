-- ===== src/QuickPlay.antt =====
-- The pool of server/services/quickPlay.js: who searches for a game, who is claimed by a pair, and the
-- pairing. The identity of an entry is its `order`, which `add` draws anew; times are milliseconds of
-- the wall clock, which is an argument and may go back; the map of claims is a function.
pub mod Passes
pub mod Total
pub mod Queue
pub mod Claims
pub mod Reach
use package.purecheckers.Base.{
  ℕ, suc, ◌+◌, ◌-◌, ◌*◌, ◌/◌, min, Bool, true, false, not, ◌&&◌, ◌||◌, ltb, leb, ◌==◌,
  if◌then◌else◌, Option, none, some, List, [], ◌∷◌, ◌++◌, map, is_empty,
}
use package.purecheckers.Base.Int.{ℤ, pos, sub_ℕ, leb_ℤ}

pub record Entry : Type 0 where
  pub user_id : ℕ
  pub elo : ℕ
  pub is_guest : Bool
  pub joined_at : ℕ
  pub order : ℕ

pub record Pool : Type 0 where
  pub players : List Entry
  pub claims : ℕ → Option Entry
  pub order : ℕ

pub data Mode : Type 0 where
  ranked friendly : Mode

pub record Pair : Type 0 where
  pub a : Entry
  pub b : Entry
  pub mode : Mode

abbrev pub empty_pool : Pool
empty_pool = record { players = []; claims = λ _. none; order = 0 }

abbrev pub is_claimed : Option Entry → Bool
is_claimed none = false
is_claimed (some e) = true

unfoldable pub has : List Entry → ℕ → Bool
has [] user = false
has (p ∷ ps) user = p.user_id == user || has ps user

unfoldable pub set_claim : (ℕ → Option Entry) → ℕ → Option Entry → ℕ → Option Entry
set_claim claims user v k = if user == k then v else claims k

unfoldable pub add : Pool → ℕ → ℕ → Bool → ℕ → Pool
add p user elo is_guest now =
    if has p.players user || is_claimed (p.claims user) then p else record p {
      players =
          p.players
          ++ record {
            user_id = user;
            elo = elo;
            is_guest = is_guest;
            joined_at = now;
            order = p.order + 1;
          }
            ∷ [];
      order = p.order + 1;
    }

unfoldable pub without : ℕ → List Entry → List Entry
without user [] = []
without user (p ∷ ps) = if p.user_id == user then without user ps else p ∷ without user ps

unfoldable pub remove : Pool → ℕ → Pool
remove p user = record p { players = without user p.players; claims = set_claim p.claims user none }

abbrev pub is_same : Option Entry → Entry → Bool
is_same none e = false
is_same (some c) e = c.order == e.order

unfoldable pub owns_claim : Pool → Entry → Bool
owns_claim p e = is_same (p.claims e.user_id) e

unfoldable pub finish_claim : Pool → Entry → Pool × Bool
finish_claim p e =
    if owns_claim p e
    then (record p { claims = set_claim p.claims e.user_id none }, true)
    else (p, false)

unfoldable pub insert_by_order : Entry → List Entry → List Entry
insert_by_order e [] = e ∷ []
insert_by_order e (p ∷ ps) = if leb e.order p.order then e ∷ p ∷ ps else p ∷ insert_by_order e ps

-- `sort((a, b) => a.order - b.order)`, which is stable.
unfoldable pub sort_by_order : List Entry → List Entry
sort_by_order [] = []
sort_by_order (p ∷ ps) = insert_by_order p (sort_by_order ps)

unfoldable pub restore_claim : Pool → Entry → Pool × Bool
restore_claim p e =
    let (finished, owned) = finish_claim p e in
    if owned
    then (record finished { players = sort_by_order (finished.players ++ e ∷ []) }, true)
    else (p, false)

unfoldable pub reset : Pool → Pool
reset p = record p { players = []; claims = λ _. none }

abbrev pub base_window : ℕ
base_window = 100

abbrev pub window_growth : ℕ
window_growth = 50

abbrev pub max_window : ℕ
max_window = 500

-- A step of the window is ten seconds; before the entry's own time the floor counts steps below zero.
unfoldable pub elo_window : ℕ → ℕ → ℤ
elo_window joined_at now =
    if leb joined_at now
    then pos (min (base_window + (now - joined_at) / 10000 * window_growth) max_window)
    else sub_ℕ base_window ((joined_at - now + 9999) / 10000 * window_growth)

abbrev pub distance : ℕ → ℕ → ℕ
distance a b = if leb a b then b - a else a - b

unfoldable pub is_within : ℕ → Entry → Entry → Bool
is_within now a b = leb_ℤ (pos (distance a.elo b.elo)) (elo_window a.joined_at now)

unfoldable pub is_matched : List ℕ → ℕ → Bool
is_matched [] i = false
is_matched (k ∷ ks) i = k == i || is_matched ks i

-- `players[i]` with its index `i`.
unfoldable pub indexed : ℕ → List Entry → List (ℕ × Entry)
indexed i [] = []
indexed i (p ∷ ps) = (i, p) ∷ indexed (i + 1) ps

-- The indices of the guests, or of the registered.
unfoldable pub group : Bool → List (ℕ × Entry) → List (ℕ × Entry)
group guests [] = []
group guests ((i, p) ∷ ps) =
    if (if guests then p.is_guest else not p.is_guest)
    then (i, p) ∷ group guests ps
    else group guests ps

unfoldable pub unmatched : List ℕ → List (ℕ × Entry) → List (ℕ × Entry)
unmatched matched [] = []
unmatched matched ((i, p) ∷ ps) =
    if is_matched matched i then unmatched matched ps else (i, p) ∷ unmatched matched ps

-- The inner loop: the first unmatched player within the window of `a`.
unfoldable pub partner : ℕ → List ℕ → Entry → List (ℕ × Entry) → Option (ℕ × Entry)
partner now matched a [] = none
partner now matched a ((i, b) ∷ ps) =
    if not (is_matched matched i) && is_within now a b
    then some (i, b)
    else partner now matched a ps

-- What the passes share: `matched` and `pairs`.
pub record Matching : Type 0 where
  pub matched : List ℕ
  pub pairs : List Pair

abbrev pub join : Matching → ℕ → Entry → Mode → Option (ℕ × Entry) → Matching
join m i a mode none = m
join m i a mode (some (j, b)) = record {
  matched = j ∷ i ∷ m.matched;
  pairs = m.pairs ++ record { a = a; b = b; mode = mode } ∷ [];
}

unfoldable pub match_one : ℕ → Mode → ℕ → Entry → List (ℕ × Entry) → Matching → Matching
match_one now mode i a others m =
    if is_matched m.matched i then m else join m i a mode (partner now m.matched a others)

unfoldable pub match_within_group : ℕ → Mode → List (ℕ × Entry) → Matching → Matching
match_within_group now mode [] m = m
match_within_group now mode ((i, a) ∷ ps) m =
    match_within_group now mode ps (match_one now mode i a ps m)

-- The third pass, for the registered who have waited for ten seconds.
unfoldable pub match_mixed : ℕ → List (ℕ × Entry) → List (ℕ × Entry) → Matching → Matching
match_mixed now guests [] m = m
match_mixed now guests ((i, a) ∷ ps) m =
    match_mixed now guests ps
      (if ltb now (a.joined_at + 10000) then m else match_one now friendly i a guests m)

unfoldable pub matching : ℕ → List (ℕ × Entry) → Matching
matching now ps =
    let registered = group false ps in
    let guests = group true ps in
    let first = match_within_group now ranked registered (record { matched = []; pairs = [] }) in
    let second = match_within_group now friendly guests first in
    match_mixed now (unmatched second.matched guests) (unmatched second.matched registered) second

unfoldable pub claim_all : List Pair → (ℕ → Option Entry) → ℕ → Option Entry
claim_all [] claims = claims
claim_all (p ∷ ps) claims =
    claim_all ps (set_claim (set_claim claims p.a.user_id (some p.a)) p.b.user_id (some p.b))

abbrev pub entry_of : ℕ × Entry → Entry
entry_of (i, p) = p

unfoldable pub try_match : Pool → ℕ → Pool × List Pair
try_match p now =
    let all = indexed 0 p.players in
    let m = matching now all in
    (
      record p {
        players = map entry_of (unmatched m.matched all);
        claims = claim_all m.pairs p.claims;
      },
      m.pairs,
    )
