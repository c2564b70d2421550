-- ===== src/Encoding/Reader.antt =====
-- internal/encoding/asn1/io.go: a `bytes.Reader`, and readers that let through a limited number of
-- bytes of the reader that they wrap. The inner reader moves with the outer one.
pub mod Laws
use notation_go.Prelude.{
  ℕ, zero, suc, ◌-◌, Option, none, some, List, [], ◌∷◌, ◌++◌, min, take, drop, length, reverse,
  ◌==◌, if◌then◌else◌,
}

-- `source` has the bytes already read, the last one first, and those to come.
pub data Reader : Type 0 where
  source : List ℕ → List ℕ → Reader
  limited : ℕ → Reader → Reader

pub data ReadError : Type 0 where
  eof unexpected_eof : ReadError
  early_eof unsupported_length expect_constructed expect_primitive : ReadError
  cannot_unread : ReadError
  out_of_fuel : ReadError

pub data Result {κ} (V : Type κ) : Type κ where
  err : ReadError → Result V
  ok : V → Result V

-- The first error ends a sequence of reads.
infixl 5 ◌>>=◌
abbrev pub ◌>>=◌ {κ ι} : {V : Type κ} {W : Type ι} → Result V → (V → Result W) → Result W
err failure >>= next = err failure
ok value >>= next = next value

-- `if err == io.EOF { return ErrEarlyEOF }`
abbrev pub end_early {ℓ} : {A : Type ℓ} → Result A → Result A
end_early (ok a) = ok a
end_early (err eof) = err early_eof
end_early (err e) = err e

-- `ReadByte`
unfoldable pub read_byte : Reader → Result (ℕ × Reader)
read_byte (source done []) = err eof
read_byte (source done (b ∷ rest)) = ok (b, source (b ∷ done) rest)
read_byte (limited zero r) = err eof
read_byte (limited (suc n) r) = do (b, r') ← read_byte r; ok (b, limited n r')

-- `UnreadByte`
unfoldable pub unread_byte : Reader → Result Reader
unread_byte (source [] rest) = err cannot_unread
unread_byte (source (b ∷ done) rest) = ok (source done (b ∷ rest))
unread_byte (limited n r) = do r' ← unread_byte r; ok (limited (suc n) r')

-- One call of `Read` with a buffer of `k` bytes: what it fills in, and the reader after it. It
-- returns no byte only at the end of the input or of a limit.
unfoldable pub read : ℕ → Reader → List ℕ × Reader
read k (source done rest) = (take k rest, source (reverse (take k rest) ++ done) (drop k rest))
read k (limited n r) = let (bytes, r') = read (min k n) r in (bytes, limited (n - length bytes) r')

-- `io.ReadFull` into a buffer of `k` bytes. A second `Read` after a short one finds the end.
unfoldable pub read_full : ℕ → Reader → Result (List ℕ × Reader)
read_full k r =
    let (bytes, r') = read k r in
    if length bytes == k
    then ok (bytes, r')
    else if length bytes == 0
    then err eof
    else err unexpected_eof

-- `LimitValueReader(r, n)`, and the wrapped reader.
abbrev pub limit : ℕ → Reader → Reader
limit n r = limited n r

abbrev pub wrapped : Reader → Reader
wrapped (source done rest) = source done rest
wrapped (limited n r) = r
