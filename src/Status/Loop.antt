-- ===== src/Status/Loop.antt =====
-- Rules for the loops of `StatMachine` over the digits of a word.
use apollolib.Base.{
  ℕ, zero, suc, ◌+◌, ◌-◌, ◌^◌, ◌≤◌, ◌≡◌, refl, some, arith, bit_and, bit_xor, Option-cases, subst,
  sym, ap, refl, ◌∙◌, inl, inr,
}
use apollolib.Base.Bits.{digit, digit-add_pow, IsLowest, IsLowest-digit}
use apollolib.Base.Words.{digit_pow}
use native.Mathlib.Nat.{one-le-pow}
use apollolib.Status.Tables.{Tables, get_state_index}
use apollolib.Status.Machine.{each_bit}

-- Every digit that is set in `v` belongs to a state of the field.
abbrev pub Known : Tables → ℕ → ℕ → Type 0
Known t statid v = (k : ℕ) → digit v k ≡ 1 → (i : ℕ) × (get_state_index t statid (2 ^ k) ≡ some i)

digit-rest : (w k j : ℕ) → digit w k ≡ 0 → digit w j ≡ 1 → digit (w + 2 ^ k) j ≡ 1
digit-rest w k j clear on = ground (arith, digit-add_pow w k j clear)

module _ {ℓ} {S : Type ℓ} (t : Tables) (statid : ℕ) (body : ℕ → ℕ → S → S) where
  -- A round, when the lowest digit that is set belongs to state `i`.
  each_bit_step :
      (fuel v k i : ℕ) (s : S)
      → IsLowest (suc v) k
      → get_state_index t statid (2 ^ k) ≡ some i
      → each_bit t body statid (suc fuel) (suc v) s
        ≡ each_bit t body statid fuel (bit_and (suc v) (suc v - 1)) (body (2 ^ k) i s)
  unfolding each_bit
  each_bit_step fuel v k i s low e =
      let e' : get_state_index t statid (bit_xor (bit_and (suc v) (suc v - 1)) (suc v)) ≡ some i =
        rw low.weight e in
      rw (e', each_bit) (rw low.weight)

  pub each_bit_none : (fuel : ℕ) (s : S) → each_bit t body statid fuel 0 s ≡ s
  unfolding each_bit
  each_bit_none zero s = refl
  each_bit_none (suc fuel) s = refl

  -- A single digit takes one round.
  each_bit_only :
      (v k i : ℕ) (s : S)
      → 2 ^ k ≡ suc v
      → get_state_index t statid (2 ^ k) ≡ some i
      → each_bit t body statid (suc v) (suc v) s ≡ body (2 ^ k) i s
  each_bit_only v k i s e found =
      let (j, low) = IsLowest-digit (suc v) (omega arith) in
      let on : digit (2 ^ k) j ≡ 1 = ap (λ (n : ℕ). digit n j) e ∙ low.was_set in
      let same : k ≡ j = ground (arith, digit_pow k j) in
      let low' : IsLowest (suc v) k = rw same low in
      let rest : bit_and (suc v) (suc v - 1) ≡ 0 = omega (arith, low'.splits) in
      each_bit_step v v k i s low' found ∙ rw rest (each_bit_none v (body (2 ^ k) i s))

  pub each_bit_one :
      (k i : ℕ) (s : S)
      → get_state_index t statid (2 ^ k) ≡ some i
      → each_bit t body statid (2 ^ k) (2 ^ k) s ≡ body (2 ^ k) i s
  each_bit_one k i s found =
      let e : 2 ^ k ≡ suc (2 ^ k - 1) = omega (arith, one-le-pow k 2) in
      subst (λ n. each_bit t body statid n n s ≡ body (2 ^ k) i s) (sym e)
        (each_bit_only (2 ^ k - 1) k i s e found)

module _ {ℓ κ} {S : Type ℓ} (t : Tables) (statid : ℕ) (body : ℕ → ℕ → S → S) where
  -- What each round keeps, the loop keeps.
  pub each_bit_keeps :
      (Q : S → Type κ)
      → ((index i : ℕ) (s : S) → Q s → Q (body index i s))
      → (fuel v : ℕ) (s : S) → Q s
      → Q (each_bit t body statid fuel v s)
  unfolding each_bit
  each_bit_keeps Q step zero v s q = q
  each_bit_keeps Q step (suc fuel) zero s q = q
  each_bit_keeps Q step (suc fuel) (suc v) s q =
      let tmp = bit_and (suc v) (suc v - 1) in
      let index = bit_xor tmp (suc v) in
      elim (Option-cases (get_state_index t statid index)) [
        | inl e ↦ rw (e, each_bit) q
        | inr (i, e) ↦
            rw (e, each_bit) (each_bit_keeps Q step fuel tmp (body index i s) (step index i s q))
      ]

  -- With all digits known, the loop makes a round for each digit that is set.
  pub each_bit_rule :
      (P : ℕ → S → Type κ)
      → ((w k i : ℕ) (s : S)
          → digit w k ≡ 0
          → get_state_index t statid (2 ^ k) ≡ some i
          → P (w + 2 ^ k) s
          → P w (body (2 ^ k) i s))
      → (fuel v : ℕ) (s : S) → v ≤ fuel
      → Known t statid v
      → P v s
      → P 0 (each_bit t body statid fuel v s)
  unfolding each_bit
  each_bit_rule P step zero zero s h known p = p
  each_bit_rule P step zero (suc v) s h known p = absurd (omega arith)
  each_bit_rule P step (suc fuel) zero s h known p = p
  each_bit_rule P step (suc fuel) (suc v) s h known p =
      let (k, low) = IsLowest-digit (suc v) (omega arith) in
      let (i, e) = known k low.was_set in
      let tmp = bit_and (suc v) (suc v - 1) in
      subst (P 0) (sym (each_bit_step t statid body fuel v k i s low e)) (
        each_bit_rule P step fuel tmp (body (2 ^ k) i s) (omega (arith, low.splits, one-le-pow k 2))
          (λ j on. known j (rw low.splits at (digit-rest tmp k j low.cleared on)))
          (step tmp k i s low.cleared e (rw low.splits p)))
