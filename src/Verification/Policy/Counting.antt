-- ===== src/Verification/Policy/Counting.antt =====
-- The counts that a document's names and scopes go through: a count is the number of occurrences.
use notation_go.Prelude.{
  ℕ, ◌+◌, ◌≤◌, String, ◌≡◌, refl, ◌↔◌, Bool, true, false, List, [], ◌∷◌, ◌++◌, ok, str_eq, eq_iff,
  if◌then◌else◌, arith,
}
use notation_go.Verification.Policy.{PolicyError, Counts, increment, require_unique}

-- How often a text occurs in a list.
abbrev pub occurrences : String → List String → ℕ
occurrences k [] = 0
occurrences k (x ∷ xs) = (if str_eq x k then 1 else 0) + occurrences k xs

-- No text occurs twice.
abbrev pub IsDistinct : List String → Type 0
IsDistinct xs = (k : String) → occurrences k xs ≤ 1

-- `counts[key]`
abbrev pub count : String → Counts → ℕ
count k [] = 0
count k ((j, n) ∷ counts) = if str_eq j k then n else count k counts

abbrev pub has_key : String → Counts → Bool
has_key k [] = false
has_key k ((j, n) ∷ counts) = if str_eq j k then true else has_key k counts

-- No key has two entries.
abbrev pub IsMap : Counts → Type 0
IsMap [] = Unit
IsMap ((k, n) ∷ counts) = (has_key k counts ≡ false) × IsMap counts

abbrev pub increments : Counts → List String → Counts
increments counts [] = counts
increments counts (x ∷ xs) = increments (increment x counts) xs

count-increment :
    (k j : String) (counts : Counts)
    → count k (increment j counts) ≡ (if str_eq j k then 1 else 0) + count k counts
unfolding increment
count-increment k j [] = ground arith
count-increment k j ((i, n) ∷ counts) =
    ground (arith, eq_iff i j, eq_iff i k, eq_iff j k, count-increment k j counts)

has_key-increment :
    (k j : String) (counts : Counts)
    → has_key k (increment j counts) ≡ (if str_eq j k then true else has_key k counts)
unfolding increment
has_key-increment k j [] = ground arith
has_key-increment k j ((i, n) ∷ counts) =
    ground (arith, eq_iff i j, eq_iff i k, eq_iff j k, has_key-increment k j counts)

increment-IsMap : (j : String) (counts : Counts) → IsMap counts → IsMap (increment j counts)
unfolding increment
increment-IsMap j [] h = (refl, tt)
increment-IsMap j ((i, n) ∷ counts) h =
    ground (arith, eq_iff i j, eq_iff j i, has_key-increment i j counts, increment-IsMap j counts)

pub increments-IsMap :
    (counts : Counts) (xs : List String) → IsMap counts → IsMap (increments counts xs)
increments-IsMap counts [] h = h
increments-IsMap counts (x ∷ xs) h =
    increments-IsMap (increment x counts) xs (increment-IsMap x counts h)

pub count-increments :
    (k : String) (counts : Counts) (xs : List String)
    → count k (increments counts xs) ≡ count k counts + occurrences k xs
count-increments k counts [] = omega arith
count-increments k counts (x ∷ xs) =
    omega (arith, count-increments k (increment x counts) xs, count-increment k x counts)

pub increments-append :
    (counts : Counts) (xs ys : List String)
    → increments counts (xs ++ ys) ≡ increments (increments counts xs) ys
increments-append counts [] ys = refl
increments-append counts (x ∷ xs) ys = increments-append (increment x counts) xs ys

require_unique-count :
    (counts : Counts) (e : PolicyError) (k : String)
    → require_unique counts e ≡ ok tt
    → count k counts ≤ 1
unfolding require_unique
require_unique-count [] e k h = omega arith
require_unique-count ((j, n) ∷ counts) e k h = ground (arith, require_unique-count counts e k)

count-missing : (k : String) (counts : Counts) → has_key k counts ≡ false → count k counts ≡ 0
count-missing k [] h = refl
count-missing k ((j, n) ∷ counts) h = ground (arith, count-missing k counts)

unique→require_unique :
    (counts : Counts) (e : PolicyError)
    → IsMap counts
    → ((k : String) → count k counts ≤ 1)
    → require_unique counts e ≡ ok tt
unfolding require_unique
unique→require_unique [] e m h = refl
unique→require_unique ((j, n) ∷ counts) e m h =
    let below : ((k : String) → count k counts ≤ 1) =
      λ k. ground (arith, h k, eq_iff j k, count-missing k counts) in
    ground (arith, h j, eq_iff j j, unique→require_unique counts e m.1 below)

-- The test on the counts of a list passes exactly when no text occurs twice in the list.
pub require_unique_iff :
    (xs : List String) (e : PolicyError)
    → (require_unique (increments [] xs) e ≡ ok tt) ↔ IsDistinct xs
require_unique_iff xs e = (
  λ h k. omega (arith, count-increments k [] xs, require_unique-count (increments [] xs) e k h),
  λ h.
      unique→require_unique (increments [] xs) e (increments-IsMap [] xs tt)
        (λ k. omega (arith, count-increments k [] xs, h k)),
)
