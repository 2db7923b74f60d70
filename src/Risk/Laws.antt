-- ===== src/Risk/Laws.antt =====
-- internal/risk: the ranks of the levels, and the levels of operations that ask for more or less.
use Prim.Native.Nat.{max}
use hermes_security_skills.Base.{
  Bool, Bool-cases, arith, err, if◌then◌else◌, inl, inr, leb, none, not, ok, refl, some, true, ℕ,
  ◌||◌, ◌↔◌, ◌≡◌, ◌≤◌, ◌⊎◌,
}
use hermes_security_skills.Base.Text.{Text, is_empty, to_upper, trim_space, ◌==◌}
use hermes_security_skills.Risk.{
  Operation, classify, level_critical, level_high, level_low, level_medium, level_rank, max_level,
  passive_methods, unknown_level,
}

-- The operation asks for one of the four forbidden kinds of work.
abbrev pub is_forbidden : Operation → Bool
is_forbidden op = op.credential_attack || op.exfiltration || op.persistence || op.lateral_movement

-- The method is blank or one of GET, HEAD and OPTIONS, in any case and with any blanks around it.
abbrev pub is_passive : Text → Bool
is_passive method = let m = to_upper (trim_space method) in is_empty m || passive_methods m

-- The levels by rank: what each one needs, as a number from 1 to 4.
abbrev pub severity : Operation → ℕ
severity op =
    if is_forbidden op
    then 4
    else if not (is_passive op.method) || op.upload || op.concurrency
    then 3
    else if op.replay
    then 2
    else 1

rank-low : level_rank level_low ≡ some 1
unfolding level_rank ◌==◌
rank-low = refl

rank-medium : level_rank level_medium ≡ some 2
unfolding level_rank ◌==◌
rank-medium = refl

rank-high : level_rank level_high ≡ some 3
unfolding level_rank ◌==◌
rank-high = refl

rank-critical : level_rank level_critical ≡ some 4
unfolding level_rank ◌==◌
rank-critical = refl

-- The level of an operation is known, and its rank is the operation's severity: 4 for a forbidden
-- kind of work, else 3 for a method that is not passive, an upload or concurrency, else 2 for a
-- replay, else 1.
pub level_rank-classify : (op : Operation) → level_rank (classify op) ≡ some (severity op)
unfolding classify
level_rank-classify op = ground (arith, rank-low, rank-medium, rank-high, rank-critical)

-- `a` asks for nothing that `b` does not ask for, and with the same method.
pub record AsksLess (a b : Operation) : Type 0 where
  pub method : a.method ≡ b.method
  pub replay : a.replay ≡ true → b.replay ≡ true
  pub upload : a.upload ≡ true → b.upload ≡ true
  pub concurrency : a.concurrency ≡ true → b.concurrency ≡ true
  pub credential_attack : a.credential_attack ≡ true → b.credential_attack ≡ true
  pub exfiltration : a.exfiltration ≡ true → b.exfiltration ≡ true
  pub persistence : a.persistence ≡ true → b.persistence ≡ true
  pub lateral_movement : a.lateral_movement ≡ true → b.lateral_movement ≡ true

||-mono :
    (a b c d : Bool)
    → (a ≡ true → c ≡ true)
    → (b ≡ true → d ≡ true)
    → (a || b) ≡ true
    → (c || d) ≡ true
||-mono a b c d f g h = ground arith

forbidden_mono : {a b : Operation} → AsksLess a b → is_forbidden a ≡ true → is_forbidden b ≡ true
forbidden_mono l =
    ||-mono _ _ _ _
      (||-mono _ _ _ _ (||-mono _ _ _ _ l.credential_attack l.exfiltration) l.persistence)
      l.lateral_movement

ladder_mono :
    (f g h p q r : Bool)
    → (f ≡ true → p ≡ true)
    → (g ≡ true → q ≡ true)
    → (h ≡ true → r ≡ true)
    → (if f then 4 else if g then 3 else if h then 2 else 1)
      ≤ (if p then 4 else if q then 3 else if r then 2 else 1)
ladder_mono f g h p q r x y z = ground arith

severity_mono : {a b : Operation} → AsksLess a b → severity a ≤ severity b
severity_mono {a} {b} l =
    ladder_mono (is_forbidden a) (not (is_passive a.method) || a.upload || a.concurrency) a.replay
      (is_forbidden b) (not (is_passive b.method) || b.upload || b.concurrency) b.replay
      (forbidden_mono l)
      (||-mono _ _ _ _ (||-mono _ _ _ _ (λ e. rw (← l.method) e) l.upload) l.concurrency) l.replay

-- The highest of two levels: an upper bound of both that is one of them, and an error exactly where
-- a level is unknown.
pub max_level-rank :
    (a b : Text) (m n : ℕ)
    → level_rank a ≡ some m
    → level_rank b ≡ some n
    → (c : Text) × (max_level a b ≡ ok c) × (level_rank c ≡ some (max m n))
unfolding max_level
max_level-rank a b m n p q = elim (Bool-cases (leb n m)) [
  | inl e ↦ (a, ground arith, rw p (ground arith))
  | inr e ↦ (b, ground arith, rw q (ground arith))
]

pub max_level_fails :
    (a b : Text)
    → (max_level a b ≡ err unknown_level) ↔ ((level_rank a ≡ none) ⊎ (level_rank b ≡ none))
unfolding max_level
max_level_fails a b = ground arith

-- Dropping requests never raises the level: an operation that asks for less, with the same method,
-- has a level of a rank that is not higher.
pub classify_mono :
    (a b : Operation)
    → AsksLess a b
    → (m n : ℕ) × (level_rank (classify a) ≡ some m) × (level_rank (classify b) ≡ some n) × (m ≤ n)
classify_mono a b l =
    (severity a, severity b, level_rank-classify a, level_rank-classify b, severity_mono l)
