-- ===== src/Heap.antt =====
-- Go's `container/heap`, over a slice and the order that the source gives as `Less`. The source
-- calls `heap.Init` on empty slices alone, where it does nothing, `heap.Push` and `heap.Pop`.
-- An index out of range panics. The loops take as fuel the index that falls (`up`) or the places
-- left (`down`): at no fuel their own tests end them.
pub mod Order
pub mod Up
pub mod Down
pub mod Ends
use nxchain.Base.{
  ℕ, zero, suc, ◌+◌, ◌-◌, ◌*◌, ◌/◌, Bool, Option, none, some, List, [], ◌∷◌, ◌++◌, ltb, ◌==◌,
  if◌then◌else◌, length, get_elem?, set, take, ◌>>=◌, ◌&&◌,
}

abbrev pub parent : ℕ → ℕ
parent j = (j - 1) / 2

module _ {ℓ} {A : Type ℓ} where
  -- `h[i], h[j] = h[j], h[i]`
  pub swap : ℕ → ℕ → List A → Option (List A)
  swap i j xs = do x ← get_elem? xs i; y ← get_elem? xs j; some (set (set xs i y) j x)

  -- The `Pop` of the interface: takes the last entry off.
  pub pop_last : List A → Option (A × List A)
  pop_last xs = do x ← get_elem? xs (length xs - 1); some (x, take (length xs - 1) xs)

module _ {ℓ} {A : Type ℓ} (less : A → A → Bool) where
  pub less_at : ℕ → ℕ → List A → Option Bool
  less_at i j xs = do x ← get_elem? xs i; y ← get_elem? xs j; some (less x y)

  pub up : ℕ → ℕ → List A → Option (List A)
  up zero j xs = some xs
  up (suc fuel) j xs =
      let rise = swap (parent j) j xs >>= up fuel (parent j) in
      let test = less_at j (parent j) xs >>= λ below. if below then rise else some xs in
      if parent j == j then some xs else test

  -- The child that `down` compares: the right one if it is there and smaller.
  pub choose : ℕ → ℕ → List A → Option ℕ
  choose i n xs =
      if ltb (2 * i + 2) n
      then (do
        right ← less_at (2 * i + 2) (2 * i + 1) xs
        some (if right then 2 * i + 2 else 2 * i + 1))
      else some (2 * i + 1)

  pub down : ℕ → ℕ → ℕ → List A → Option (List A)
  down zero i n xs = some xs
  down (suc fuel) i n xs =
      let step = choose i n xs >>= λ j.
      let sink = swap i j xs >>= down fuel j n in
      less_at j i xs >>= λ below. if below then sink else some xs in
      if ltb (2 * i + 1) n then step else some xs

  unfoldable pub push : A → List A → Option (List A)
  unfolding up swap less_at
  push x xs = up (length xs) (length (xs ++ x ∷ []) - 1) (xs ++ x ∷ [])

  unfoldable pub pop : List A → Option (A × List A)
  unfolding down choose swap less_at pop_last
  pop xs = let n = length xs - 1 in swap 0 n xs >>= λ ys. down n 0 n ys >>= pop_last
