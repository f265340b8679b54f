-- ===== src/Bench/Boundary/Laws.antt =====
-- bench/src/lib.rs, `find_boundary_payload`, with a codec that adds a fixed number of bytes to the
-- payload, as CDR does for a sequence of bytes at the end of a message.
use cyclonedds_rs.Common.{
  ℕ, zero, suc, ◌+◌, ◌-◌, ◌*◌, ◌%◌, ◌^◌, ◌≤◌, ◌<◌, ◌≡◌, Option, some, accepted, arith,
}
use native.Mathlib.Nat.{pow-succ'}
use cyclonedds_rs.Bench.{BoundaryRelation, below, above, usize_mod}
use cyclonedds_rs.Bench.Boundary.{
  raise, bisect, middle, aligned_boundary_payload, from_first_above, at_least_one,
  find_boundary_payload,
}

-- The payload that is asked for: its size is a multiple of four on the side of the boundary, and no
-- other such payload is nearer.
abbrev pub Nearest : BoundaryRelation → ℕ → ℕ → ℕ → Type 0
Nearest above overhead wire p =
    (wire < overhead + p)
    × ((overhead + p) % 4 ≡ 0)
    × ((q : ℕ) → wire < overhead + q → (overhead + q) % 4 ≡ 0 → p ≤ q)
Nearest below overhead wire p =
    (overhead + p ≤ wire)
    × ((overhead + p) % 4 ≡ 0)
    × ((q : ℕ) → overhead + q ≤ wire → (overhead + q) % 4 ≡ 0 → q ≤ p)

pow_double : (k : ℕ) → 2 ^ suc k ≡ 2 * 2 ^ k
pow_double k = omega (arith, pow-succ' 2 k)

pow_pos : (k : ℕ) → 1 ≤ 2 ^ k
pow_pos zero = omega arith
pow_pos (suc k) = omega (arith, pow_double k, pow_pos k)

below_power : (wire k : ℕ) → wire < 2 ^ suc k → at_least_one wire - 0 < 2 ^ suc k
below_power zero k h = omega (arith, pow_double k, pow_pos k)
below_power (suc n) k h = omega arith

module _ (size_of : ℕ → Option ℕ) (overhead : ℕ)
    (linear : (n : ℕ) → size_of n ≡ some (overhead + n)) where
  -- The first payload whose size is above the boundary is found in as many rounds as halvings.
  bisect_lem :
      (k wire low high : ℕ)
      → high - low < 2 ^ k
      → low ≤ wire + 1 - overhead
      → wire + 1 - overhead ≤ high
      → bisect size_of (suc k) wire low high ≡ some (accepted (wire + 1 - overhead))
  unfolding bisect
  bisect_lem zero wire low high h a b = let e : high - low < 1 = h in ground arith
  bisect_lem (suc k) wire low high h a b = ground (
    arith,
    pow_double k,
    linear (middle low high),
    bisect_lem k wire (middle low high + 1) high,
    bisect_lem k wire low (middle low high),
  )

  aligned_above_lem :
      (fuel wire p : ℕ)
      → wire < overhead + p
      → p + (4 - (overhead + p) % 4) % 4 < usize_mod
      → (4 - (overhead + p) % 4) % 4 < fuel
      → aligned_boundary_payload size_of fuel above wire p
        ≡ some (accepted (p + (4 - (overhead + p) % 4) % 4))
  unfolding aligned_boundary_payload
  aligned_above_lem zero wire p h b f = absurd (omega arith)
  aligned_above_lem (suc fuel) wire p h b f =
      ground (arith, linear p, aligned_above_lem fuel wire (p + 1))

  aligned_below_lem :
      (fuel wire p : ℕ)
      → overhead + p ≤ wire
      → (overhead + p) % 4 ≤ p
      → (overhead + p) % 4 < fuel
      → aligned_boundary_payload size_of fuel below wire p
        ≡ some (accepted (p - (overhead + p) % 4))
  unfolding aligned_boundary_payload
  aligned_below_lem zero wire p h b f = absurd (omega arith)
  aligned_below_lem (suc fuel) wire p h b f =
      ground (arith, linear p, aligned_below_lem fuel wire (p - 1))

  raise_lem :
      (fuel wire : ℕ)
      → 0 < overhead
      → raise size_of (suc fuel) wire (at_least_one wire) ≡ some (accepted (at_least_one wire))
  unfolding raise
  raise_lem fuel zero h = ground (arith, linear 1)
  raise_lem fuel (suc n) h = ground (arith, linear (suc n))

  -- Where the search starts from the first payload above the boundary.
  abbrev nearest_payload : BoundaryRelation → ℕ → ℕ
  nearest_payload above wire =
      (wire + 1 - overhead) + (4 - (overhead + (wire + 1 - overhead)) % 4) % 4
  nearest_payload below wire =
      (wire + 1 - overhead - 1) - (overhead + (wire + 1 - overhead - 1)) % 4

  nearest_payload-Nearest :
      (relation : BoundaryRelation) (wire : ℕ)
      → overhead + 3 ≤ wire
      → Nearest relation overhead wire (nearest_payload relation wire)
  nearest_payload-Nearest above wire a = (omega arith, omega arith, λ q h m. omega arith)
  nearest_payload-Nearest below wire a = (omega arith, omega arith, λ q h m. omega arith)

  from_first_above_lem :
      (relation : BoundaryRelation) (k wire : ℕ)
      → overhead + 3 ≤ wire
      → wire + 4 < usize_mod
      → from_first_above size_of (k + 4) relation wire (wire + 1 - overhead)
        ≡ some (accepted (nearest_payload relation wire))
  unfolding from_first_above
  from_first_above_lem above k wire a b =
      aligned_above_lem (k + 4) wire (wire + 1 - overhead) (omega arith) (omega arith) (omega arith)
  from_first_above_lem below k wire a b =
      ground (arith, aligned_below_lem (k + 4) wire (wire + 1 - overhead - 1))

  at_least-bound : (wire : ℕ) → 0 < overhead → wire + 1 - overhead ≤ at_least_one wire
  at_least-bound zero o = omega arith
  at_least-bound (suc n) o = omega arith

  -- The two loops before, with that fuel.
  first_above_lem :
      (k wire : ℕ)
      → 0 < overhead
      → wire < 2 ^ k
      → (raise size_of (k + 4) wire (at_least_one wire) ≡ some (accepted (at_least_one wire)))
        × (bisect size_of (k + 4) wire 0 (at_least_one wire)
            ≡ some (accepted (wire + 1 - overhead)))
  first_above_lem k wire o small =
      let e : k + 4 ≡ suc (suc (suc (suc k))) = omega arith in
      let more : wire < 2 ^ suc (suc (suc k)) =
        omega (arith, pow_double k, pow_double (suc k), pow_double (suc (suc k))) in
      rw e (
        raise_lem (suc (suc (suc k))) wire o,
        bisect_lem (suc (suc (suc k))) wire 0 (at_least_one wire) (below_power wire _ more)
            (omega arith) (at_least-bound wire o),
      )

  -- For a codec that adds `overhead` bytes, 1 at least, to a payload, and a boundary of 3 bytes more
  -- than that at least, below 2^64 - 4 and below 2^k: `find_boundary_payload` with fuel for k + 4
  -- rounds of each loop ends with the payload whose size is a multiple of four beyond the boundary, or
  -- not beyond it, as is asked, and to which no other such payload is nearer.
  pub find_boundary_payload-Nearest :
      (relation : BoundaryRelation) (k wire : ℕ)
      → 0 < overhead
      → overhead + 3 ≤ wire
      → wire + 4 < usize_mod
      → wire < 2 ^ k
      → (p : ℕ) × (find_boundary_payload size_of (k + 4) relation wire ≡ some (accepted p))
        × Nearest relation overhead wire p
  unfolding find_boundary_payload
  find_boundary_payload-Nearest relation k wire o a b small = (
    nearest_payload relation wire,
    rw ((first_above_lem k wire o small).0, (first_above_lem k wire o small).1)
        (from_first_above_lem relation k wire a b),
    nearest_payload-Nearest relation wire a,
  )
