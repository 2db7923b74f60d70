-- ===== src/Proxy/Limits/Laws.antt =====
-- internal/proxycore/limits.go: attempts on a budget, and the tokens of a bucket.
use Prim.Native.Nat.{min}
use hermes_security_skills.Base.{
  Bool-cases, ap, arith, false, if◌then◌else◌, inl, inr, suc, true, zero, ℕ, ◌+◌, ◌-◌, ◌∙◌, ◌≡◌,
}
use hermes_security_skills.Approval.{Time}
use hermes_security_skills.Base.Int.{eq_of_parts, pos, ◌-ℤ◌, -ℤ_parts}
use hermes_security_skills.Proxy.Limits.{Budget, Float, TokenBucket, bucket_allow, refill, take}

-- Attempts on one budget, one after the other: the budget afterwards and the number that got a slot.
pub take_many : ℕ → Budget → Budget × ℕ
take_many zero b = (b, 0)
take_many (suc n) b =
    let (got, b') = take b in let (b'', m) = take_many n b' in (b'', (if got then 1 else 0) + m)

pub take_empty : (b : Budget) → b.left ≡ pos 0 → take b ≡ (false, b)
unfolding take
take_empty b h = ground arith

pub take_full :
    (n : ℕ) (b : Budget) → b.left ≡ pos (suc n) → ((take b).0 ≡ true) × ((take b).1.left ≡ pos n)
unfolding take
take_full n b h =
    (ground arith, ground (arith, -ℤ_parts b.left (pos 1), eq_of_parts (b.left -ℤ pos 1) (pos n)))

-- Of any number of attempts on a budget exactly as many get a slot as the smaller of that number
-- and the slots left, and the budget then holds the slots that remain.
pub take_many_exact :
    (n left : ℕ) (b : Budget)
    → b.left ≡ pos left
    → ((take_many n b).1 ≡ min n left) × ((take_many n b).0.left ≡ pos (left - n))
unfolding take_many
take_many_exact zero left b h = (omega arith, h ∙ ap pos (omega arith))
take_many_exact (suc n) zero b h =
    let (count, rest) = take_many_exact n zero b h in
    rw (take_empty b h) (omega (arith, count), rest ∙ ap pos (omega arith))
take_many_exact (suc n) (suc left) b h =
    let (got, fewer) = take_full left b h in
    let (count, rest) = take_many_exact n left (take b).1 fewer in
    (rw got (omega (arith, count)), rest ∙ ap pos (omega arith))

module _ (fl : Float) where
  open fl use {F, of_int, sub, less}

  refill-burst :
      (now : Time) (tb : TokenBucket fl)
      → less tb.burst tb.burst ≡ false
      → less tb.burst tb.tokens ≡ false
      → (less (refill fl now tb).burst (refill fl now tb).tokens ≡ false)
        × ((refill fl now tb).burst ≡ tb.burst)
        × ((refill fl now tb).rate ≡ tb.rate)
  unfolding refill
  refill-burst now tb irr h = ground arith

  -- What the code relies on of float64: a number below no number stays so when 1 is taken from the
  -- other side, as rounding is monotone.
  module _ (sub_one : (x b : F) → less b x ≡ false → less b (sub x (of_int (pos 1))) ≡ false) where
    -- If the tokens of a bucket are not more than its burst, then they are not after an attempt
    -- either, whatever the clock does, and the rate and the burst stay as they are.
    pub bucket_allow-burst :
        (now : Time) (tb : TokenBucket fl)
        → less tb.burst tb.burst ≡ false
        → less tb.burst tb.tokens ≡ false
        → (less (bucket_allow fl now tb).1.burst (bucket_allow fl now tb).1.tokens ≡ false)
          × ((bucket_allow fl now tb).1.burst ≡ tb.burst)
          × ((bucket_allow fl now tb).1.rate ≡ tb.rate)
    unfolding bucket_allow
    bucket_allow-burst now tb irr h =
        let (capped, burst, rate) = refill-burst now tb irr h in
        let tb' = refill fl now tb in
        elim (Bool-cases (less tb'.tokens (of_int (pos 1)))) [
          | inl e ↦ rw (e, bucket_allow) (capped, burst, rate)
          | inr e ↦ rw (e, bucket_allow) (sub_one tb'.tokens tb'.burst capped, burst, rate)
        ]
