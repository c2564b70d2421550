-- ===== src/Verification/Policy/Overlaps.antt =====
-- `validateOverlappingDNs`: the two index loops against a statement about pairs of positions.
use notation_go.Prelude.{
  ℕ, zero, suc, ◌+◌, ◌≡◌, refl, ◌≢◌, ◌↔◌, String, false, some, List, [], ◌∷◌, ok, ◌==◌, arith,
  Bool-cases, inl, inr, get_elem?,
}
use notation_go.Verification.Names.{is_subset_dn}
use notation_go.Verification.Policy.{
  ParsedDn, overlaps_from, overlaps_all, validate_overlapping_dns,
}

-- No name is a subset of a name at another position.
abbrev pub HasNoOverlap : List ParsedDn → Type 0
HasNoOverlap dns =
    (i j : ℕ) (a b : ParsedDn)
    → get_elem? dns i ≡ some a
    → get_elem? dns j ≡ some b
    → i ≢ j
    → is_subset_dn a.parsed_map b.parsed_map ≡ false

-- Position `i` holds `a`, and the list is scanned from position `j` on.
abbrev ClearFrom : ℕ → ParsedDn → ℕ → List ParsedDn → Type 0
ClearFrom i a j dns =
    (k : ℕ) (b : ParsedDn)
    → get_elem? dns k ≡ some b
    → i ≢ j + k
    → is_subset_dn a.parsed_map b.parsed_map ≡ false

overlaps_from→ClearFrom :
    (name : String) (i : ℕ) (a : ParsedDn) (j : ℕ) (dns : List ParsedDn)
    → overlaps_from name i a j dns ≡ ok tt
    → ClearFrom i a j dns
unfolding overlaps_from
overlaps_from→ClearFrom name i a j [] h k b e n = cc
overlaps_from→ClearFrom name i a j (d ∷ dns) h zero b e n = ground arith
overlaps_from→ClearFrom name i a j (d ∷ dns) h (suc k) b e n =
    overlaps_from→ClearFrom name i a (j + 1) dns (ground arith) k b e (omega arith)

ClearFrom→overlaps_from :
    (name : String) (i : ℕ) (a : ParsedDn) (j : ℕ) (dns : List ParsedDn)
    → ClearFrom i a j dns
    → overlaps_from name i a j dns ≡ ok tt
unfolding overlaps_from
ClearFrom→overlaps_from name i a j [] h = refl
ClearFrom→overlaps_from name i a j (d ∷ dns) h =
    let rest =
      ClearFrom→overlaps_from name i a (j + 1) dns (λ k b e n. h (suc k) b e (omega arith)) in
    elim (Bool-cases (i == j)) [
      | inl same ↦ rw same rest
      | inr other ↦ rw (other, h 0 d refl (ground arith)) rest
    ]

overlaps_all→ClearFrom :
    (name : String) (all : List ParsedDn) (i : ℕ) (dns : List ParsedDn)
    → overlaps_all name all i dns ≡ ok tt
    → (k : ℕ) (a : ParsedDn) → get_elem? dns k ≡ some a
    → ClearFrom (i + k) a 0 all
unfolding overlaps_all
overlaps_all→ClearFrom name all i [] h k a e l b e' n = cc
overlaps_all→ClearFrom name all i (d ∷ dns) h zero a e l b e' n =
    overlaps_from→ClearFrom name i a 0 all (ground (arith, d_eq)) l b e' (omega arith)
  where
    d_eq : d ≡ a
    d_eq = cc
overlaps_all→ClearFrom name all i (d ∷ dns) h (suc k) a e l b e' n =
    overlaps_all→ClearFrom name all (i + 1) dns (ground arith) k a e l b e' (omega arith)

ClearFrom→overlaps_all :
    (name : String) (all : List ParsedDn) (i : ℕ) (dns : List ParsedDn)
    → ((k : ℕ) (a : ParsedDn) → get_elem? dns k ≡ some a → ClearFrom (i + k) a 0 all)
    → overlaps_all name all i dns ≡ ok tt
unfolding overlaps_all
ClearFrom→overlaps_all name all i [] h = refl
ClearFrom→overlaps_all name all i (d ∷ dns) h =
    rw (ClearFrom→overlaps_from name i d 0 all (λ k b e n. h 0 d refl k b e (omega arith))) (
      ClearFrom→overlaps_all name all (i + 1) dns
        (λ k a e l b e' n. h (suc k) a e l b e' (omega arith)))

-- The loops pass exactly when no name is a subset of a name at another position.
pub validate_overlapping_dns_iff :
    (name : String) (dns : List ParsedDn)
    → (validate_overlapping_dns name dns ≡ ok tt) ↔ HasNoOverlap dns
unfolding validate_overlapping_dns
validate_overlapping_dns_iff name dns = (
  λ h i j a b ea eb n. overlaps_all→ClearFrom name dns 0 dns h i a ea j b eb (omega arith),
  λ h. ClearFrom→overlaps_all name dns 0 dns (λ k a e l b e' n. h k l a b e e' (omega arith)),
)
