-- ===== src/Dict/Laws.antt =====
-- Reading back what was written, for any key type.
use cw_streamswap.Base.{◌≡◌, refl, some, [], ◌∷◌, false, if◌then◌else◌, Key, arith}
use cw_streamswap.Dict.{Dict, may_load, save, remove}

module _ {K : Type 0} {V : Type 0} ⦃e : Key K⦄ where
  -- A map after a `save` differs at the saved key alone.
  pub may_load-save :
      (d : Dict K V) (k j : K) (v : V)
      → may_load (save d k v) j ≡ (if e.beq k j then some v else may_load d j)
  unfolding may_load save
  may_load-save [] k j v = refl
  may_load-save ((i, w) ∷ d) k j v =
      ground (arith, e.beq_iff i k, e.beq_iff i j, e.beq_iff k j, may_load-save d k j v)

  pub may_load-remove :
      (d : Dict K V) (k j : K) → e.beq k j ≡ false → may_load (remove d k) j ≡ may_load d j
  unfolding may_load remove
  may_load-remove [] k j h = refl
  may_load-remove ((i, w) ∷ d) k j h =
      ground (arith, e.beq_iff i k, e.beq_iff i j, e.beq_iff k j, may_load-remove d k j h)
