-- ===== src/Prelude/Sums.antt =====
-- Sums of amounts over the values of a dictionary.
use tau_ceti_worker.Prelude.{none, some, [], ◌∷◌, Dict, lookup, insert, Eq, ◌≡◌, arith}
use tau_ceti_worker.Prelude.Int.{ℤ, pos, ◌+ℤ◌, int_laws}

module _ {ℓ κ} {K : Type ℓ} {V : Type κ} where
  unfoldable pub sum_by : (V → ℤ) → Dict K V → ℤ
  sum_by f [] = pos 0
  sum_by f ((k, v) ∷ d) = f v +ℤ sum_by f d

add_last : (a b c : ℤ) → a +ℤ (b +ℤ c) ≡ a +ℤ b +ℤ c
add_last a b c = omega int_laws

add_swap : (a b : ℤ) → a +ℤ b ≡ b +ℤ a
add_swap a b = omega int_laws

swap_ends : (a b c : ℤ) → a +ℤ b +ℤ c ≡ c +ℤ b +ℤ a
swap_ends a b c = omega int_laws

module _ {ℓ κ} {K : Type ℓ} {V : Type κ} ⦃e : Eq K⦄ (f : V → ℤ) where
  -- A new key adds the weight of its value.
  pub sum_by-insert_new :
      (k : K) (v : V) (d : Dict K V)
      → lookup k d ≡ none
      → sum_by f (insert k v d) ≡ sum_by f d +ℤ f v
  unfolding sum_by insert lookup
  sum_by-insert_new k v [] h = omega int_laws
  sum_by-insert_new k v ((j, w) ∷ d) h =
      ground (arith, sum_by-insert_new k v d, add_last (f w) (sum_by f d) (f v))

  -- An old key trades the weight of its value.
  pub sum_by-insert_old :
      (k : K) (v w : V) (d : Dict K V)
      → lookup k d ≡ some w
      → sum_by f (insert k v d) +ℤ f w ≡ sum_by f d +ℤ f v
  unfolding sum_by insert lookup
  sum_by-insert_old k v w [] h = ground arith
  sum_by-insert_old k v w ((j, x) ∷ d) h = ground (
    arith,
    sum_by-insert_old k v w d,
    swap_ends (f v) (sum_by f d) (f x),
    add_last (f x) (sum_by f (insert k v d)) (f w),
    add_last (f x) (sum_by f d) (f v),
  )
