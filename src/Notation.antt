-- ===== src/Notation.antt =====
-- The numbers 1 to 32 of the dark squares: squareNumber and squareCoords of shared/notation.js. A
-- coordinate or a number that is negative or no integer is refused like one that is too large.
use purecheckers.Base.{
  ℕ, ◌+◌, ◌-◌, ◌*◌, ◌/◌, ◌%◌, ◌≤◌, ◌<◌, ◌≡◌, ◌↔◌, not, ◌||◌, ltb, ◌==◌, if◌then◌else◌, Option, none,
  some, arith,
}

unfoldable pub square_number : ℕ → ℕ → Option ℕ
square_number row col =
    if ltb 7 row || ltb 7 col
    then none
    else if not ((row + col) % 2 == 1)
    then none
    else some ((7 - row) * 4 + (7 - col) / 2 + 1)

unfoldable pub square_coords : ℕ → Option (ℕ × ℕ)
square_coords n =
    if ltb n 1 || ltb 32 n
    then none
    else let idx = n - 1 in
      let row = 7 - idx / 4 in
      let parity_col = 7 - idx % 4 * 2 in
      some (row, (if (row + parity_col) % 2 == 1 then parity_col else parity_col - 1))

-- A dark square of the board has a number from 1 to 32.
pub square_number_range :
    (row col : ℕ)
    → row < 8
    → col < 8
    → (row + col) % 2 ≡ 1
    → (n : ℕ) × (square_number row col ≡ some n) × (1 ≤ n) × (n ≤ 32)
unfolding square_number
square_number_range row col hr hc d =
    ((7 - row) * 4 + (7 - col) / 2 + 1, ground arith, omega arith, omega arith)

-- A number from 1 to 32 has coordinates.
pub square_coords_total :
    (n : ℕ) → 1 ≤ n → n ≤ 32 → (row col : ℕ) × (square_coords n ≡ some (row, col))
unfolding square_coords
square_coords_total n h k =
    let idx = n - 1 in
    let row = 7 - idx / 4 in
    let parity_col = 7 - idx % 4 * 2 in
    (row, if (row + parity_col) % 2 == 1 then parity_col else parity_col - 1, ground arith)

-- A square has a number exactly when that number's coordinates are the square's, so that the two
-- functions are inverse to each other.
pub square_number-square_coords :
    (row col n : ℕ) → (square_number row col ≡ some n) ↔ (square_coords n ≡ some (row, col))
unfolding square_number square_coords
square_number-square_coords row col n = (λ h. ground arith, λ h. ground arith)
