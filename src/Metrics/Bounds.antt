-- ===== src/Metrics/Bounds.antt =====
-- The processor's load as a percentage, and the shape of what `read_cpu_usage` returns.
use ai_m_os.Common.{
  ◌-◌, ◌≡◌, refl, pos, ◌≤ℤ◌, ◌-ℤ◌, ltb_ℤ, false, List, [], ◌∷◌, map, inl, inr, Bool-cases, arith,
  ◌==◌, subst,
}
use ai_m_os.Common.Int.{int_laws}
use ai_m_os.Common.Lists.{length}
use ai_m_os.Float.{Float, IsRounding}
use ai_m_os.Metrics.{Sample, usage, usages, cpu_usage}

module _ {F : Type 0} (fl : Float F) where
  abbrev pub IsPercent : F → Type 0
  IsPercent x = (fl.lt x (fl.of_int (pos 0)) ≡ false) × (fl.lt (fl.of_int (pos 100)) x ≡ false)

  module _ (laws : IsRounding fl) where
    zero-IsPercent : IsPercent (fl.of_int (pos 0))
    zero-IsPercent = (
      laws.lt-of_int 0 0 (omega arith) (omega arith),
      laws.lt-of_int 100 0 (omega arith) (omega arith),
    )

    busy_share-IsPercent :
        (x : F)
        → fl.lt x (fl.of_int (pos 0)) ≡ false
        → fl.lt (fl.of_int (pos 1)) x ≡ false
        → IsPercent (fl.mul (fl.sub (fl.of_int (pos 1)) x) (fl.of_int (pos 100)))
    busy_share-IsPercent x low high =
        let one = fl.of_int (pos 1) in
        let rest = fl.sub one x in
        let below = laws.sub_anti (fl.of_int (pos 0)) x 1 low in
        let above = laws.sub_anti x one 1 high in
        let a = laws.mul_mono rest one 100 (
          subst (λ y. fl.lt y rest ≡ false) (laws.sub-of_int 1 0 (omega arith) (omega arith))
            below) in
        let b = laws.mul_mono (fl.of_int (pos 0)) rest 100 (
          subst (λ y. fl.lt rest y ≡ false) (laws.sub-of_int 1 1 (omega arith) (omega arith))
            above) in
        (
          subst (λ y. fl.lt (fl.mul rest (fl.of_int (pos 100))) y ≡ false)
              (laws.mul-of_int 0 100 (omega arith)) b,
          subst (λ y. fl.lt y (fl.mul rest (fl.of_int (pos 100))) ≡ false)
              (laws.mul-of_int 1 100 (omega arith)) a,
        )

    -- With arithmetic that rounds as IEEE 754 has it, if the idle ticks have not fallen, and have
    -- grown by no more than all ticks, the load is not below 0 and not above 100.
    pub usage-IsPercent :
        (prev curr : Sample)
        → prev.1 ≤ℤ curr.1
        → curr.1 -ℤ prev.1 ≤ℤ curr.0 -ℤ prev.0
        → IsPercent (usage fl prev curr)
    unfolding usage
    usage-IsPercent (pt, pi) (ct, ci) grown bounded =
        let dt = ct -ℤ pt in
        let di = ci -ℤ pi in
        elim (Bool-cases (ltb_ℤ (pos 0) dt)) [
          | inr still ↦ rw still zero-IsPercent
          | inl moved ↦
              let positive : pos 1 ≤ℤ dt = ground arith in
              let nonneg : pos 0 ≤ℤ di = omega int_laws in
              rw moved (
                busy_share-IsPercent (fl.div_int di dt) (laws.div_int_nonneg di dt nonneg positive)
                  (laws.div_int-le_one di dt bounded positive))
        ]

  length-usages :
      (prev curr : List Sample)
      → length prev ≡ length curr
      → length (usages fl prev curr) ≡ length curr
  unfolding usages
  length-usages [] [] h = refl
  length-usages [] (c ∷ curr) h = absurd (omega arith)
  length-usages (p ∷ prev) [] h = absurd (omega arith)
  length-usages (p ∷ prev) (c ∷ curr) h = omega (arith, length-usages prev curr (omega arith))

  length-zeros : (curr : List Sample) → length (map (λ _. fl.of_int (pos 0)) curr) ≡ length curr
  length-zeros [] = refl
  length-zeros (c ∷ curr) = omega (arith, length-zeros curr)

  -- Whatever samples stood before, there is one load for each line after the first.
  pub length-cpu_usage :
      (prev curr : List Sample) → length (cpu_usage fl prev curr).1 ≡ length curr - 1
  unfolding cpu_usage usages
  length-cpu_usage [] [] = refl
  length-cpu_usage [] (c ∷ curr) = omega (arith, length-zeros curr)
  length-cpu_usage (p ∷ prev) [] = ground arith
  length-cpu_usage (p ∷ prev) (c ∷ curr) =
      elim (Bool-cases (length (p ∷ prev) == length (c ∷ curr))) [
        | inl same ↦ rw same (omega (arith, length-usages prev curr (ground arith)))
        | inr differ ↦ rw differ (omega (arith, length-zeros curr))
      ]
