-- ===== src/Dict/Sums.antt =====
-- Sums and predicates over the values of a map.
use cw_streamswap.Base.{ℕ, ◌+◌, ◌≡◌, none, some, [], ◌∷◌, Key, arith}
use cw_streamswap.Dict.{Dict, may_load, save, remove}

module _ {K : Type 0} {V : Type 0} where
  -- The sum of `weight` over the entries.
  unfoldable pub total : (K → V → ℕ) → Dict K V → ℕ
  total weight [] = 0
  total weight ((k, v) ∷ d) = weight k v + total weight d

  -- What holds of every entry.
  abbrev pub All : (K → V → Type 0) → Dict K V → Type 0
  All P [] = Unit
  All P ((k, v) ∷ d) = P k v × All P d

  pub All-map :
      (P Q : K → V → Type 0) (d : Dict K V) → ((k : K) (v : V) → P k v → Q k v) → All P d → All Q d
  All-map P Q [] f h = tt
  All-map P Q ((k, v) ∷ d) f h = (f k v h.0, All-map P Q d f h.1)

module _ {K : Type 0} {V : Type 0} ⦃e : Key K⦄ where
  -- The weight of what is under a key, 0 if nothing is.
  abbrev pub weight_at : (K → V → ℕ) → Dict K V → K → ℕ
  weight_at weight d k = elim (may_load d k) [ none ↦ 0 | some v ↦ weight k v ]

  pub total-save :
      (weight : K → V → ℕ) (d : Dict K V) (k : K) (v : V)
      → total weight (save d k v) + weight_at weight d k ≡ total weight d + weight k v
  unfolding total may_load save
  total-save weight [] k v = omega arith
  total-save weight ((j, w) ∷ d) k v = ground (arith, e.beq_iff j k, total-save weight d k v)

  pub total-remove :
      (weight : K → V → ℕ) (d : Dict K V) (k : K)
      → total weight (remove d k) + weight_at weight d k ≡ total weight d
  unfolding total may_load remove
  total-remove weight [] k = omega arith
  total-remove weight ((j, w) ∷ d) k = ground (arith, e.beq_iff j k, total-remove weight d k)

  pub save-All :
      (P : K → V → Type 0) (d : Dict K V) (k : K) (v : V) → P k v → All P d → All P (save d k v)
  unfolding save
  save-All P [] k v p h = (p, tt)
  save-All P ((j, w) ∷ d) k v p h = ground (arith, save-All P d k v p h.1)

  pub remove-All : (P : K → V → Type 0) (d : Dict K V) (k : K) → All P d → All P (remove d k)
  unfolding remove
  remove-All P [] k h = tt
  remove-All P ((j, w) ∷ d) k h = ground (arith, remove-All P d k h.1)

  pub may_load-All :
      (P : K → V → Type 0) (d : Dict K V) (k : K) (v : V) → All P d → may_load d k ≡ some v → P k v
  unfolding may_load
  may_load-All P [] k v h l = cc
  may_load-All P ((j, w) ∷ d) k v h l = ground (arith, e.beq_iff j k, may_load-All P d k v h.1)
