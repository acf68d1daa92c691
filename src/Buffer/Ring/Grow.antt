-- ===== src/Buffer/Ring/Grow.antt =====
-- Growing a RingReceiveBuffer: the doubling loop.
use native.Mathlib.Nat.{pow-suc, le_refl}
use iocp_http_runtime.Prelude.{
  ℕ, zero, suc, ◌*◌, ◌/◌, ◌^◌, ◌≤◌, ◌<◌, ◌≡◌, arith, ltb, Bool-cases, inl, inr, ltb-false→le, ap,
  mul_size,
}
use iocp_http_runtime.Buffer.Ring.{next_capacity_loop}

-- The loop, with fuel that doubles the capacity past the maximum, ends at a capacity that holds
-- what is required and is within the maximum, if what is required and the capacity are, and the
-- maximum is below 2 ^ 63.
pub next_capacity_loop_bounds :
    (fuel maximum required next : ℕ)
    → maximum < 2 ^ 63
    → required ≤ maximum
    → next ≤ maximum
    → maximum < next * 2 ^ fuel
    → (required ≤ next_capacity_loop fuel maximum required next)
      × (next_capacity_loop fuel maximum required next ≤ maximum)
unfolding next_capacity_loop
next_capacity_loop_bounds zero maximum required next a b c d = absurd (omega arith)
next_capacity_loop_bounds (suc fuel) maximum required next a b c d =
    elim (Bool-cases (ltb next required)) [
      | inr e ↦ rw e (ltb-false→le _ _ e, c)
      | inl e ↦ rw e (elim (Bool-cases (ltb (maximum / 2) next)) [
        | inl past ↦ rw past (b, le_refl maximum)
        | inr under ↦ rw under (
            next_capacity_loop_bounds fuel maximum required (mul_size next 2) a b
              (omega (arith, ltb-false→le _ _ under))
              (rw (no_wrap (ltb-false→le _ _ under)) (omega (arith, doubling))))
      ])
    ]
  where
    no_wrap : next ≤ maximum / 2 → mul_size next 2 ≡ next * 2
    no_wrap h = omega arith

    doubling : next * 2 ^ suc fuel ≡ (next * 2) * 2 ^ fuel
    doubling = omega (arith, ap (λ k. next * k) (pow-suc 2 fuel))
