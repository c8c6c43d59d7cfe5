-- ===== src/Base/Arrays.antt =====
-- Slices read and written by index, up to the order of their entries.
use native.Mathlib.Nat.{ℕ_set}
use mathlib.Core.Logic.{∥∥₁_elim}
use mathlib.Core.List.{Permᴰ, perm_append_singleton, perm_append_comm, append_assoc}
use mathlib.Core.List.Perm
use mathlib.Core.Path.{◌≡◌, refl, ap, ◌∙◌}
use mathlib.Core.Option.{some}
use mathlib.Core.List.{List, [], ◌∷◌, ◌++◌, Perm}
use native.Mathlib.Omega.{arith}
use Prim.Native.Nat.{ℕ, zero, suc, ◌<◌}
use nxchain.Base.Tests.{◌==◌, if◌then◌else◌}
use nxchain.Base.Lists.{length, get_elem?, get_or, set, take, length-set}

module _ {ℓ} {A : Type ℓ} where
  Permᴰ-length : {xs ys : List A} → Permᴰ xs ys → length xs ≡ length ys
  Permᴰ-length (Permᴰ.trans front back) = Permᴰ-length front ∙ Permᴰ-length back
  Permᴰ-length (Permᴰ.cons x rest) = ap suc (Permᴰ-length rest)
  Permᴰ-length (Permᴰ.swap x y) = refl
  Permᴰ-length Permᴰ.nil = refl

  pub length-perm : {xs ys : List A} → Perm xs ys → length xs ≡ length ys
  length-perm p = ∥∥₁_elim p (ℕ_set _ _) Permᴰ-length

  pub get_elem?-get_or :
      (d : A) (xs : List A) (i : ℕ) → i < length xs → get_elem? xs i ≡ some (get_or xs i d)
  get_elem?-get_or d [] i h = absurd (omega arith)
  get_elem?-get_or d (x ∷ xs) zero h = refl
  get_elem?-get_or d (x ∷ xs) (suc i) h = get_elem?-get_or d xs i (omega arith)

  pub get_or-set :
      (d : A) (xs : List A) (i j : ℕ) (v : A)
      → i < length xs
      → get_or (set xs i v) j d ≡ (if i == j then v else get_or xs j d)
  get_or-set d [] i j v h = absurd (omega arith)
  get_or-set d (x ∷ xs) zero zero v h = refl
  get_or-set d (x ∷ xs) zero (suc j) v h = ground arith
  get_or-set d (x ∷ xs) (suc i) zero v h = ground arith
  get_or-set d (x ∷ xs) (suc i) (suc j) v h = ground (arith, get_or-set d xs i j v)

  pub get_or-append :
      (d : A) (xs ys : List A) (i : ℕ) → i < length xs → get_or (xs ++ ys) i d ≡ get_or xs i d
  get_or-append d [] ys i h = absurd (omega arith)
  get_or-append d (x ∷ xs) ys zero h = refl
  get_or-append d (x ∷ xs) ys (suc i) h = get_or-append d xs ys i (omega arith)

  pub get_or-append_end : (d : A) (xs : List A) (y : A) → get_or (xs ++ y ∷ []) (length xs) d ≡ y
  get_or-append_end d [] y = refl
  get_or-append_end d (x ∷ xs) y = get_or-append_end d xs y

  pub get_or-take :
      (d : A) (n : ℕ) (xs : List A) (i : ℕ) → i < n → get_or (take n xs) i d ≡ get_or xs i d
  get_or-take d zero xs i h = absurd (omega arith)
  get_or-take d (suc n) [] i h = refl
  get_or-take d (suc n) (x ∷ xs) zero h = refl
  get_or-take d (suc n) (x ∷ xs) (suc i) h = get_or-take d n xs i (omega arith)

  -- A slice is its first entries and its last one.
  pub take-append-last :
      (d : A) (n : ℕ) (xs : List A) → length xs ≡ suc n → take n xs ++ get_or xs n d ∷ [] ≡ xs
  take-append-last d n [] h = absurd (omega arith)
  take-append-last d zero (x ∷ []) h = refl
  take-append-last d zero (x ∷ y ∷ xs) h = absurd (omega arith)
  take-append-last d (suc n) (x ∷ xs) h = ap (◌∷◌ x) (take-append-last d n xs (omega arith))

  -- Writing `v` at `i` gives up the entry that stood there.
  replace-perm :
      (d : A) (xs : List A) (i : ℕ) (v : A)
      → i < length xs
      → Perm (get_or xs i d ∷ set xs i v) (v ∷ xs)
  replace-perm d [] i v h = absurd (omega arith)
  replace-perm d (x ∷ xs) zero v h = Perm.swap v x xs
  replace-perm d (x ∷ xs) (suc i) v h =
      Perm.trans (Perm.swap x (get_or xs i d) (set xs i v))
        (Perm.trans (Perm.cons x (replace-perm d xs i v (omega arith))) (Perm.swap v x xs))

  -- What `a[i], a[j] = a[j], a[i]` leaves at each place.
  abbrev pub exchanged : A → List A → ℕ → ℕ → List A
  exchanged d xs i j = set (set xs i (get_or xs j d)) j (get_or xs i d)

  module _ (d : A) (xs : List A) (i j : ℕ) (hi : i < length xs) (hj : j < length xs) where
    pub length-exchanged : length (exchanged d xs i j) ≡ length xs
    length-exchanged = simp length-set

    pub get_or-exchanged :
        (k : ℕ)
        → get_or (exchanged d xs i j) k d
          ≡ (if j == k then get_or xs i d else if i == k then get_or xs j d else get_or xs k d)
    get_or-exchanged k = rw (
      get_or-set d (set xs i (get_or xs j d)) j k (get_or xs i d) (rw length-set hj),
      get_or-set d xs i k (get_or xs j d) hi,
    )

    pub exchanged-perm : Perm (exchanged d xs i j) xs
    exchanged-perm =
        let once = set xs i (get_or xs j d) in
        let kept : get_or once j d ≡ get_or xs j d =
          ground (arith, get_or-set d xs i j (get_or xs j d)) in
        let back = rw kept at (replace-perm d once j (get_or xs i d) (rw length-set hj)) in
        Perm.cons_inv (Perm.trans back (replace-perm d xs i (get_or xs j d) hi))

  pub push_back-perm : (xs : List A) (x : A) → Perm (xs ++ x ∷ []) (x ∷ xs)
  push_back-perm xs x = perm_append_singleton x xs

  -- Two blocks in front may trade places.
  pub append_swap-perm : (xs ys zs : List A) → Perm (xs ++ (ys ++ zs)) (ys ++ (xs ++ zs))
  append_swap-perm xs ys zs =
      rw (← append_assoc xs ys zs, ← append_assoc ys xs zs)
        (Perm.append_right zs (perm_append_comm xs ys))
