-- ===== src/Risk/Queue/Order.antt =====
-- The repair priority is a strict order.
use sia_optimization_proposa.Prelude.{◌≡◌, ◌⊎◌, true, false, arith}
use sia_optimization_proposa.Floats.{Floats, IsOrdered}
use sia_optimization_proposa.Risk.Queue.{UnhealthySlab, repair_priority_less}

module _ (fl : Floats) (o : IsOrdered fl) where
  open fl use {F, lt, eq}

  pub priority_asymm :
      (a b : UnhealthySlab fl)
      → repair_priority_less fl a b ≡ true
      → repair_priority_less fl b a ≡ false
  unfolding repair_priority_less
  priority_asymm a b h = ground (
    arith,
    o.lt_asymm b.repair_risk.loss_probability a.repair_risk.loss_probability,
    o.eq_sym a.repair_risk.loss_probability b.repair_risk.loss_probability,
    o.eq_sym b.repair_risk.loss_probability a.repair_risk.loss_probability,
    o.lt_asymm a.health b.health,
    o.eq_sym a.health b.health,
    o.eq_sym b.health a.health,
  )

  -- A slab whose health, and whose loss probability if its evaluation is valid, is a number.
  pub record IsKnown (a : UnhealthySlab fl) : Type 0 where
    pub health_known : fl.is_nan a.health ≡ false
    pub loss_known : a.repair_risk.valid ≡ true → fl.is_nan a.repair_risk.loss_probability ≡ false

  -- With the comparisons of IEEE 754, on slabs with known numbers: the repair priority is
  -- irreflexive, and of two slabs with different keys exactly one comes before the other.
  pub priority_total :
      (a b : UnhealthySlab fl)
      → IsKnown a
      → IsKnown b
      → (repair_priority_less fl a a ≡ false)
        × ((repair_priority_less fl a b ≡ true) × (repair_priority_less fl b a ≡ false)
            ⊎ (repair_priority_less fl a b ≡ false) × (repair_priority_less fl b a ≡ true)
            ⊎ (a.encryption_key ≡ b.encryption_key))
  unfolding repair_priority_less
  priority_total a b ka kb = ground (
    arith,
    o.eq_refl a.health ka.health_known,
    o.eq_refl a.repair_risk.loss_probability,
    ka.loss_known,
    o.lt_asymm b.repair_risk.loss_probability a.repair_risk.loss_probability,
    o.lt_asymm a.repair_risk.loss_probability b.repair_risk.loss_probability,
    o.total a.repair_risk.loss_probability b.repair_risk.loss_probability,
    o.total a.health b.health ka.health_known kb.health_known,
    o.eq_sym a.repair_risk.loss_probability b.repair_risk.loss_probability,
    o.eq_sym b.repair_risk.loss_probability a.repair_risk.loss_probability,
    o.lt_asymm a.health b.health,
    o.lt_asymm b.health a.health,
    o.eq_sym a.health b.health,
    o.eq_sym b.health a.health,
  )

  -- With the comparisons of IEEE 754: of three slabs, if the first comes before the second and the
  -- second before the third, then the first comes before the third.
  priority_trans :
      (a b c : UnhealthySlab fl)
      → repair_priority_less fl a b ≡ true
      → repair_priority_less fl b c ≡ true
      → repair_priority_less fl a c ≡ true
  unfolding repair_priority_less
  priority_trans a b c h k =
      let al = a.repair_risk.loss_probability in
      let bl = b.repair_risk.loss_probability in
      let cl = c.repair_risk.loss_probability in
      ground (
        arith,
        o.lt_trans cl bl al,
        o.eq_trans al bl cl,
        o.lt_eq cl bl al,
        o.eq_sym al bl,
        o.eq_sym bl cl,
        o.eq_lt cl bl al,
        o.lt_not_eq cl al,
        o.eq_sym al cl,
        o.lt_trans a.health b.health c.health,
        o.eq_trans a.health b.health c.health,
        o.lt_eq a.health b.health c.health,
        o.eq_lt a.health b.health c.health,
        o.lt_not_eq a.health c.health,
      )
