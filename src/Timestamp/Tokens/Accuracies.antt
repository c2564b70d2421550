-- ===== src/Timestamp/Tokens/Accuracies.antt =====
-- The accuracy of a token as Go computes it, in 64 bits.
use notation_go.Prelude.{◌^◌, ℕ, ◌+◌, ◌*◌, ◌<◌, pos, wrap-small, ◌+ℤ◌, ◌*ℤ◌, ◌≡◌, arith}
use notation_go.Timestamp.Tokens.{TstInfo, timestamp}

-- The nanoseconds of an accuracy.
abbrev pub nanoseconds : ℕ → ℕ → ℕ → ℕ
nanoseconds s ms us = s * 1000000000 + ms * 1000000 + us * 1000

pos-sum : (m n : ℕ) → pos m +ℤ pos n ≡ pos (m + n)
unfolding ◌+ℤ◌
pos-sum m n = ground arith

pos-product : (m k : ℕ) → pos m *ℤ k ≡ pos (m * k)
unfolding ◌*ℤ◌
pos-product m k = ground arith

-- The accuracy of a token with these numbers.
abbrev pub HasAccuracy : TstInfo → ℕ → ℕ → ℕ → Type 0
HasAccuracy tst s ms us =
    (tst.accuracy.seconds ≡ pos s)
    × (tst.accuracy.milliseconds ≡ pos ms)
    × (tst.accuracy.microseconds ≡ pos us)

-- The accuracy that Timestamp returns is that of the token, if the nanoseconds of the token's are
-- below 2 ^ 63.
pub timestamp-HasAccuracy :
    (tst : TstInfo) (s ms us : ℕ)
    → HasAccuracy tst s ms us
    → nanoseconds s ms us < 2 ^ 63
    → timestamp tst ≡ (tst.gen_time, pos (nanoseconds s ms us))
unfolding timestamp
timestamp-HasAccuracy tst s ms us (hs, hms, hus) small =
    let a = wrap-small (s * 1000000000) (ground arith) in
    let b = wrap-small (ms * 1000000) (ground arith) in
    let c = wrap-small (us * 1000) (ground arith) in
    let d = wrap-small (s * 1000000000 + ms * 1000000) (ground arith) in
    let e = wrap-small (nanoseconds s ms us) small in
    rw (
      hs,
      hms,
      hus,
      pos-product s 1000000000,
      pos-product ms 1000000,
      pos-product us 1000,
      a,
      b,
      c,
      pos-sum (s * 1000000000) (ms * 1000000),
      d,
      pos-sum (s * 1000000000 + ms * 1000000) (us * 1000),
      e,
    )
