-- ===== src/Verification/Levels/Order.antt =====
-- The levels that are found by a name.
use notation_go.Prelude.{String, ◌≡◌, ◌↔◌, inl, inr, ok, eq_iff, arith, IsElem, true}
use notation_go.Verification.Levels.{
  VerificationLevel, strict, permissive, audit, skip, find_verification_level,
}
use notation_go.Verification.Names.{is_present}
use notation_go.Verification.Names.Laws.{is_present_iff}
use notation_go.Verification.Policy.{supported_levels}

-- `FindVerificationLevel` finds a level of that name, for exactly the names that a policy statement
-- may set.
pub find_verification_level_iff :
    (s : String)
    → (is_present s supported_levels ≡ true)
      ↔ ((level : VerificationLevel) × (find_verification_level s ≡ ok level) × (level.name ≡ s))
unfolding find_verification_level is_present
find_verification_level_iff s = (
  λ h. found ((is_present_iff s supported_levels).0 h),
  λ (level, e, name).
      ground (arith, eq_iff "strict" s, eq_iff "permissive" s, eq_iff "audit" s, eq_iff "skip" s),
)
  where
    found :
        IsElem s supported_levels
        → (level : VerificationLevel) × (find_verification_level s ≡ ok level) × (level.name ≡ s)
    found (inl e) = (strict, rw (← e), e)
    found (inr (inl e)) = (permissive, rw (← e), e)
    found (inr (inr (inl e))) = (audit, rw (← e), e)
    found (inr (inr (inr (inl e)))) = (skip, rw (← e), e)
    found (inr (inr (inr (inr m)))) = absurd m
