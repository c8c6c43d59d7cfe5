-- ===== src/State/IntrinsicGas/Laws.antt =====
-- The machine arithmetic computes the plain formula, or reports that it does not fit.
use nxchain.Base.{
  ℕ, ◌+◌, ◌-◌, ◌*◌, ◌%◌, ◌≤◌, ◌<◌, ◌≡◌, refl, ◌∙◌, Bool, true, false, none, some, List, [], ◌∷◌,
  arith, ltb, if◌then◌else◌, ◌==◌, length, Bool-cases, inl, inr, ◌&&◌,
}
use nxchain.Types.{Transaction, is_contract_creation, u64_mod}
use nxchain.State.IntrinsicGas.{
  count_zeros, base_cost, non_zero_cost, add_payload, transaction_gas_cost,
}

-- The price of the payload, byte by byte, with no bound.
pub payload_cost : Bool → List ℕ → ℕ
payload_cost is_istanbul [] = 0
payload_cost is_istanbul (b ∷ payload) =
    (if b == 0 then 4 else non_zero_cost is_istanbul) + payload_cost is_istanbul payload

zeros_in : List ℕ → ℕ
zeros_in [] = 0
zeros_in (b ∷ payload) = (if b == 0 then 1 else 0) + zeros_in payload

zeros_in-le : (payload : List ℕ) → zeros_in payload ≤ length payload
unfolding zeros_in
zeros_in-le [] = omega arith
zeros_in-le (b ∷ payload) = ground (arith, zeros_in-le payload)

count_zeros-eq :
    (n : ℕ) (payload : List ℕ)
    → n + length payload < u64_mod
    → count_zeros n payload ≡ n + zeros_in payload
unfolding count_zeros zeros_in
count_zeros-eq n [] h = omega arith
count_zeros-eq n (b ∷ payload) h = elim (Bool-cases (b == 0)) [
  | inl z ↦ rw z (count_zeros-eq ((n + 1) % u64_mod) payload (omega arith) ∙ omega arith)
  | inr nz ↦ rw nz (count_zeros-eq n payload (omega arith) ∙ omega arith)
]

payload_cost-eq :
    (i : Bool) (payload : List ℕ)
    → payload_cost i payload
      ≡ (length payload - zeros_in payload) * non_zero_cost i + zeros_in payload * 4
unfolding payload_cost zeros_in
payload_cost-eq true [] = refl
payload_cost-eq false [] = refl
payload_cost-eq true (b ∷ payload) =
    ground (arith, payload_cost-eq true payload, zeros_in-le payload)
payload_cost-eq false (b ∷ payload) =
    ground (arith, payload_cost-eq false payload, zeros_in-le payload)

add_payload-16 :
    (cost zeros n : ℕ)
    → cost < u64_mod
    → add_payload cost zeros n 16 ≡ (
        if ltb (cost + (n * 16 + zeros * 4)) u64_mod
        then some (cost + (n * 16 + zeros * 4))
        else none)
unfolding add_payload
add_payload-16 cost zs n h = ground arith

add_payload-68 :
    (cost zeros n : ℕ)
    → cost < u64_mod
    → add_payload cost zeros n 68 ≡ (
        if ltb (cost + (n * 68 + zeros * 4)) u64_mod
        then some (cost + (n * 68 + zeros * 4))
        else none)
unfolding add_payload
add_payload-68 cost zs n h = ground arith

base_cost-lt : (msg : Transaction) (h : Bool) → base_cost msg h < u64_mod
base_cost-lt msg h = elim (Bool-cases (is_contract_creation msg && h)) [
  | inl c ↦ rw c (omega arith)
  | inr c ↦ rw c (omega arith)
]

add_payload-eq :
    (i : Bool) (cost : ℕ) (payload : List ℕ)
    → cost < u64_mod
    → length payload < u64_mod
    → add_payload cost
        (count_zeros 0 payload)
        ((length payload + u64_mod - count_zeros 0 payload) % u64_mod)
        (non_zero_cost i)
      ≡ (if ltb (cost + payload_cost i payload) u64_mod
          then some (cost + payload_cost i payload)
          else none)
add_payload-eq i cost payload h len =
    let zs : count_zeros 0 payload ≡ zeros_in payload =
      count_zeros-eq 0 payload (omega arith) ∙ omega arith in
    let others : (length payload + u64_mod - zeros_in payload) % u64_mod
        ≡ length payload - zeros_in payload =
      omega (arith, zeros_in-le payload) in
    rw (zs, others, payload_cost-eq i payload) (priced i)
  where
    priced :
        (j : Bool)
        → add_payload cost (zeros_in payload) (length payload - zeros_in payload) (non_zero_cost j)
          ≡ (let total =
                cost
                + ((length payload - zeros_in payload) * non_zero_cost j + zeros_in payload * 4) in
              if ltb total u64_mod then some total else none)
    priced true = add_payload-16 cost (zeros_in payload) (length payload - zeros_in payload) h
    priced false = add_payload-68 cost (zeros_in payload) (length payload - zeros_in payload) h

-- TransactionGasCost, with its wrapping sums and its overflow checks, returns the plain sum of the
-- base cost and the price of each byte where that sum is a uint64, and the overflow error exactly
-- where it is not. The condition is that the payload's length is a uint64, as every length is.
pub transaction_gas_cost-eq :
    (msg : Transaction) (is_homestead is_istanbul : Bool)
    → length msg.input < u64_mod
    → transaction_gas_cost msg is_homestead is_istanbul ≡ (
        let total = base_cost msg is_homestead + payload_cost is_istanbul msg.input in
        if ltb total u64_mod then some total else none)
unfolding transaction_gas_cost payload_cost
transaction_gas_cost-eq msg h i len = elim (Bool-cases (ltb 0 (length msg.input))) [
  | inl full ↦ rw full (add_payload-eq i (base_cost msg h) msg.input (base_cost-lt msg h) len)
  | inr empty ↦ rw (empty, no_bytes msg.input (ground arith)) (ground (arith, base_cost-lt msg h))
]
  where
    no_bytes : (l : List ℕ) → length l ≤ 0 → payload_cost i l ≡ 0
    no_bytes [] k = refl
    no_bytes (b ∷ l) k = absurd (omega arith)
