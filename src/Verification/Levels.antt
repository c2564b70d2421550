-- ===== src/Verification/Levels.antt =====
-- verification/signature_verification_levels.go
pub mod Order
use notation_go.Prelude.{String, List, [], ◌∷◌, Outcome, ok, err, str_eq, if◌then◌else◌}

pub data VerificationType : Type 0 where
  integrity authenticity authentic_timestamp expiry revocation : VerificationType

pub data VerificationAction : Type 0 where
  enforced logged skipped : VerificationAction

-- The map of a level has a value for every type.
pub record VerificationLevel : Type 0 where
  pub name : String
  pub verification_map : VerificationType → VerificationAction

abbrev pub strict : VerificationLevel
strict = record { name = "strict"; verification_map = λ _. enforced }

abbrev permissive_map : VerificationType → VerificationAction
permissive_map integrity = enforced
permissive_map authenticity = enforced
permissive_map authentic_timestamp = logged
permissive_map expiry = logged
permissive_map revocation = logged

abbrev audit_map : VerificationType → VerificationAction
audit_map integrity = enforced
audit_map authenticity = logged
audit_map authentic_timestamp = logged
audit_map expiry = logged
audit_map revocation = logged

abbrev pub permissive : VerificationLevel
permissive = record { name = "permissive"; verification_map = permissive_map }

abbrev pub audit : VerificationLevel
audit = record { name = "audit"; verification_map = audit_map }

abbrev pub skip : VerificationLevel
skip = record { name = "skip"; verification_map = λ _. skipped }

abbrev pub verification_levels : List VerificationLevel
verification_levels = strict ∷ permissive ∷ audit ∷ skip ∷ []

-- The loop of `FindVerificationLevel`; the error carries the text that was looked for.
unfoldable pub find_level : List VerificationLevel → String → Outcome String VerificationLevel
find_level [] s = err s
find_level (level ∷ levels) s = if str_eq level.name s then ok level else find_level levels s

unfoldable pub find_verification_level : String → Outcome String VerificationLevel
unfolding find_level
find_verification_level = find_level verification_levels
