-- ===== src/Serialization/Tests.antt =====
-- Witnesses and runs of the compact form.
use notation_go.Prelude.{[], ok, some, ◌≡◌, ◌↔◌, refl, split}
use notation_go.Serialization.{
  complete_of, CompleteSignature, parse_compact, serialize_compact, unmarshal_combined, enclose,
  open_envelope,
}
use notation_go.Serialization.Laws.{IsCompact, parse_compact_iff}

abbrev sample_signature : CompleteSignature
sample_signature = record {
  payload = "p";
  signature = record { protected = "h"; unprotected = ""; signature = "s" };
}

parse_run : parse_compact "h.p.s" ≡ ok sample_signature
unfolding parse_compact complete_of split
parse_run = refl

enclose_run : open_envelope (enclose sample_signature) ≡ sample_signature
unfolding open_envelope enclose
enclose_run = refl

flattened_run :
    unmarshal_combined (some (record { complete = sample_signature; signatures = [] }))
    ≡ ok (enclose sample_signature)
unfolding unmarshal_combined enclose
flattened_run = refl

parse_compact_iff_example :
    (parse_compact "h.p.s" ≡ ok sample_signature)
    ↔ ((serialize_compact sample_signature ≡ "h.p.s") × IsCompact sample_signature)
parse_compact_iff_example = parse_compact_iff "h.p.s" sample_signature
