-- ===== src/Serialization.antt =====
-- crypto/jwsutil: JWS envelopes and their compact form.
pub mod Laws
mod Tests
use Prim.Native.Char.{code}
use notation_go.Prelude.{
  ℕ, String, Option, none, some, List, [], ◌∷◌, Outcome, ok, err, length, split, join, dot,
}

-- `Signature`; the header is raw JSON.
pub record DetachedSignature : Type 0 where
  pub protected : String
  pub unprotected : String
  pub signature : String

pub record CompleteSignature : Type 0 where
  pub payload : String
  pub signature : DetachedSignature

pub record Envelope : Type 0 where
  pub payload : String
  pub signatures : List DetachedSignature

pub data SerializationError : Type 0 where
  invalid_compact_serialization invalid_json_serialization : SerializationError

abbrev pub empty_signature : DetachedSignature
empty_signature = record { protected = ""; unprotected = ""; signature = "" }

unfoldable pub complete_of : List String → Outcome SerializationError CompleteSignature
complete_of (protected ∷ payload ∷ signature ∷ []) = ok (record {
  payload = payload;
  signature = record { protected = protected; unprotected = ""; signature = signature };
})
complete_of _ = err invalid_compact_serialization

-- `ParseCompact`
unfoldable pub parse_compact : String → Outcome SerializationError CompleteSignature
unfolding complete_of
parse_compact serialized = complete_of (split (code dot) serialized)

-- `SerializeCompact`
unfoldable pub serialize_compact : CompleteSignature → String
serialize_compact s = join dot (s.signature.protected ∷ s.payload ∷ s.signature.signature ∷ [])

-- `Enclose`
unfoldable pub enclose : CompleteSignature → Envelope
enclose s = record { payload = s.payload; signatures = s.signature ∷ [] }

-- `Size`
unfoldable pub size : Envelope → ℕ
size e = length e.signatures

-- `Open`
unfoldable pub open_envelope : Envelope → CompleteSignature
open_envelope e = elim (e.signatures) [
  | [] ↦ record { payload = e.payload; signature = empty_signature }
  | ◌∷◌ signature signatures ↦ record { payload = e.payload; signature = signature }
]

-- The struct that JSON is read into.
pub record Combined : Type 0 where
  pub complete : CompleteSignature
  pub signatures : List DetachedSignature

-- `UnmarshalJSON`, after `json.Unmarshal` of the struct, which may fail.
unfoldable pub unmarshal_combined : Option Combined → Outcome SerializationError Envelope
unmarshal_combined none = err invalid_json_serialization
unmarshal_combined (some combined) = ok (record {
  payload = combined.complete.payload;
  signatures = elim (combined.signatures) [
    | [] ↦ combined.complete.signature ∷ []
    | ◌∷◌ signature signatures ↦ combined.signatures
  ];
})
