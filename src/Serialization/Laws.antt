-- ===== src/Serialization/Laws.antt =====
-- The compact form of a signature, read and written.
use Prim.Native.Char.{code}
use notation_go.Prelude.{
  String, List, [], ◌∷◌, ◌++◌, Outcome, ok, length, split, join, dot, ◌≡◌, sym, ap, ◌∙◌, ◌↔◌,
  split-join, join-split, split-str_append,
}
use notation_go.Serialization.{
  CompleteSignature, SerializationError, complete_of, parse_compact, serialize_compact,
}

-- A text without a dot.
abbrev pub IsDotless : String → Type 0
IsDotless s = split (code dot) s ≡ s ∷ []

abbrev pub IsCompact : CompleteSignature → Type 0
IsCompact s =
    (s.signature.unprotected ≡ "")
    × IsDotless s.signature.protected
    × IsDotless s.payload
    × IsDotless s.signature.signature

value-inj :
    {a b : CompleteSignature}
    → ◌≡◌ {A = Outcome SerializationError CompleteSignature} (ok a) (ok b)
    → a ≡ b
value-inj h = cc

complete_of-ok :
    (parts : List String) (s : CompleteSignature)
    → complete_of parts ≡ ok s
    → (parts ≡ s.signature.protected ∷ s.payload ∷ s.signature.signature ∷ [])
      × (s.signature.unprotected ≡ "")
unfolding complete_of
complete_of-ok (a ∷ b ∷ c ∷ []) s h =
    let same = value-inj h in
    (
      ap (λ t. t.signature.protected ∷ t.payload ∷ t.signature.signature ∷ []) same,
      sym (ap (λ t. t.signature.unprotected) same),
    )
complete_of-ok [] s h = cc
complete_of-ok (a ∷ []) s h = cc
complete_of-ok (a ∷ b ∷ []) s h = cc
complete_of-ok (a ∷ b ∷ c ∷ d ∷ l) s h = cc

dotless-ok : (s : CompleteSignature) → IsCompact s → parse_compact (serialize_compact s) ≡ ok s
unfolding parse_compact serialize_compact complete_of
dotless-ok s (u, a, b, c) =
    let parts =
      split-str_append dot s.signature.protected (join dot (s.payload ∷ s.signature.signature ∷ []))
      ∙ ap (λ l. split (code dot) s.signature.protected ++ l)
          (split-str_append dot s.payload s.signature.signature) in
    rw (parts, a, b, c)
      (ap
        (λ t. ok (record {
          payload = s.payload;
          signature = record {
            protected = s.signature.protected;
            unprotected = t;
            signature = s.signature.signature;
          };
        }))
        (sym u))

-- ParseCompact reads a signature from a text exactly when SerializeCompact writes that text for it,
-- and the signature has no unprotected header and no dot in its three texts.
pub parse_compact_iff :
    (x : String) (s : CompleteSignature)
    → (parse_compact x ≡ ok s) ↔ ((serialize_compact s ≡ x) × IsCompact s)
unfolding parse_compact serialize_compact
parse_compact_iff x s = (
  λ h.
      let (parts, u) = complete_of-ok (split (code dot) x) s h in
      let same = sym (ap (λ l. join dot l) parts) ∙ join-split dot x in
      let dotless =
        split-join dot (s.signature.protected) (s.payload) (s.signature.signature)
          (ap (λ t. length (split (code dot) t)) same ∙ ap length parts) in
      (same, (u, dotless.0, dotless.1, dotless.2)),
  λ (same, compact). sym (ap parse_compact same) ∙ dotless-ok s compact,
)
