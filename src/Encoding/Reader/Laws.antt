-- ===== src/Encoding/Reader/Laws.antt =====
-- A reader, however deep its limits, behaves as the list of the bytes that it can still give.
use notation_go.Prelude.{
  List-cases, Bool-cases, true, false, ◌⊎◌, inl, inr, ◌<◌, ℕ, zero, suc, ◌+◌, ◌-◌, ◌≤◌, ◌≡◌, refl,
  sym, ap, ◌∙◌, List, [], ◌∷◌, ◌++◌, min, take, drop, length, length-take, reverse, ◌==◌, arith,
  append_assoc,
}
use mathlib.Core.List.{reverse-append}
use notation_go.Encoding.Reader.{
  Reader, Result, source, limited, ok, err, eof, unexpected_eof, read_byte, unread_byte, read,
  read_full,
}

-- The bytes that can be read.
abbrev pub available : Reader → List ℕ
available (source done rest) = rest
available (limited n r) = take n (available r)

-- The reader after `k` bytes.
abbrev pub advance : ℕ → Reader → Reader
advance k (source done rest) = source (reverse (take k rest) ++ done) (drop k rest)
advance k (limited n r) = limited (n - k) (advance k r)

zero_sub : (k : ℕ) → 0 - k ≡ 0
zero_sub k = omega arith

suc_sub_suc : (n k : ℕ) → suc n - suc k ≡ n - k
suc_sub_suc n k = omega arith

zero_add : (n : ℕ) → 0 + n ≡ n
zero_add n = omega arith

suc_add : (k j : ℕ) → suc k + j ≡ suc (k + j)
suc_add k j = omega arith

sub_sub : (n k j : ℕ) → n - k - j ≡ n - (k + j)
sub_sub n k j = omega arith

sub_one : (n : ℕ) → n ≡ suc n - 1
sub_one n = omega arith

zero_min : (n : ℕ) → min 0 n ≡ 0
zero_min n = omega arith

min_zero : (k : ℕ) → min k 0 ≡ 0
min_zero k = omega arith

min_left : (k n : ℕ) → k ≤ n → min k n ≡ k
min_left k n h = omega arith

min-suc : (k n : ℕ) → min (suc k) (suc n) ≡ suc (min k n)
min-suc k n = omega arith

take_nil : {A : Type 0} (n : ℕ) → take {A = A} n [] ≡ []
take_nil zero = refl
take_nil (suc n) = refl

pub advance_zero : (r : Reader) → advance 0 r ≡ r
advance_zero (source done rest) = refl
advance_zero (limited n r) = rw (advance_zero r) (ap (λ m. limited m r) (omega arith))

take-drop : {A : Type 0} (k n : ℕ) (xs : List A) → take (n - k) (drop k xs) ≡ drop k (take n xs)
take-drop zero n xs = ap (λ m. take m xs) (omega arith)
take-drop (suc k) zero [] = take_nil (0 - suc k)
take-drop (suc k) (suc n) [] = take_nil (suc n - suc k)
take-drop (suc k) zero (x ∷ xs) = ap (λ m. take m (drop k xs)) (zero_sub (suc k))
take-drop (suc k) (suc n) (x ∷ xs) =
    ap (λ m. take m (drop k xs)) (suc_sub_suc n k) ∙ take-drop k n xs

take-add : {A : Type 0} (k j : ℕ) (xs : List A) → take (k + j) xs ≡ take k xs ++ take j (drop k xs)
take-add zero j xs = ap (λ m. take m xs) (zero_add j)
take-add (suc k) j [] = take_nil (suc k + j) ∙ sym (take_nil j)
take-add (suc k) j (x ∷ xs) =
    ap (λ m. take m (x ∷ xs)) (suc_add k j) ∙ ap (λ l. x ∷ l) (take-add k j xs)

drop_nil : {A : Type 0} (n : ℕ) → drop {A = A} n [] ≡ []
drop_nil zero = refl
drop_nil (suc n) = refl

drop-add : {A : Type 0} (k j : ℕ) (xs : List A) → drop (k + j) xs ≡ drop j (drop k xs)
drop-add zero j xs = ap (λ m. drop m xs) (zero_add j)
drop-add (suc k) j [] = drop_nil (suc k + j) ∙ sym (drop_nil j)
drop-add (suc k) j (x ∷ xs) = ap (λ m. drop m (x ∷ xs)) (suc_add k j) ∙ drop-add k j xs

-- What is left after `k` bytes.
pub available-advance : (k : ℕ) (r : Reader) → available (advance k r) ≡ drop k (available r)
available-advance k (source done rest) = refl
available-advance k (limited n r) = rw (available-advance k r) (take-drop k n (available r))

pub advance-advance : (k j : ℕ) (r : Reader) → advance j (advance k r) ≡ advance (k + j) r
advance-advance k j (source done rest) =
    rw (take-add k j rest, drop-add k j rest, reverse-append, append_assoc)
advance-advance k j (limited n r) =
    rw (advance-advance k j r) (ap (λ m. limited m (advance (k + j) r)) (sub_sub n k j))

take-suc-nil : {A : Type 0} (n : ℕ) (xs : List A) → take (suc n) xs ≡ [] → xs ≡ []
take-suc-nil n [] h = refl
take-suc-nil n (x ∷ xs) h = cc

take-suc-cons :
    {A : Type 0} (n : ℕ) (xs : List A) (b : A) (bs : List A)
    → take (suc n) xs ≡ b ∷ bs
    → xs ≡ b ∷ drop 1 xs
take-suc-cons n [] b bs h = cc
take-suc-cons n (x ∷ xs) b bs h = cc

-- `ReadByte` gives the first byte that is available, and `io.EOF` if there is none.
pub read_byte-nil : (r : Reader) → available r ≡ [] → read_byte r ≡ err eof
unfolding read_byte
read_byte-nil (source done []) h = refl
read_byte-nil (source done (b ∷ rest)) h = cc
read_byte-nil (limited zero r) h = refl
read_byte-nil (limited (suc n) r) h = rw (read_byte-nil r (take-suc-nil n (available r) h))

pub read_byte-cons :
    (r : Reader) (b : ℕ) (bs : List ℕ) → available r ≡ b ∷ bs → read_byte r ≡ ok (b, advance 1 r)
unfolding read_byte
read_byte-cons (source done []) b bs h = cc
read_byte-cons (source done (c ∷ rest)) b bs h = cc
read_byte-cons (limited zero r) b bs h = cc
read_byte-cons (limited (suc n) r) b bs h =
    rw (read_byte-cons r b (drop 1 (available r)) (take-suc-cons n (available r) b bs h))
      (ap (λ m. ok (b, limited m (advance 1 r))) (sub_one n))

-- `UnreadByte` goes back to the byte before.
pub unread_byte-advance :
    (r : Reader) (b : ℕ) (bs : List ℕ) → available r ≡ b ∷ bs → unread_byte (advance 1 r) ≡ ok r
unfolding unread_byte
unread_byte-advance (source done []) b bs h = cc
unread_byte-advance (source done (c ∷ rest)) b bs h = refl
unread_byte-advance (limited zero r) b bs h = cc
unread_byte-advance (limited (suc n) r) b bs h =
    rw (unread_byte-advance r b (drop 1 (available r)) (take-suc-cons n (available r) b bs h))
      (ap (λ m. ok (limited m r)) (omega arith))

pair-inj : {b c : ℕ} {r s : Reader} → ◌≡◌ {A = Result (ℕ × Reader)} (ok (b, r)) (ok (c, s)) → r ≡ s
pair-inj h = cc

-- UnreadByte after a ReadByte that returned a byte restores the reader, whatever the limits around it.
pub unread_byte-read_byte :
    (r r' : Reader) (b : ℕ) → read_byte r ≡ ok (b, r') → unread_byte r' ≡ ok r
unread_byte-read_byte r r' b h = elim (List-cases (available r)) [
  | inl empty ↦ absurd (cc (sym (read_byte-nil r empty) ∙ h))
  | inr (c, cs, e) ↦
      ap unread_byte (sym (pair-inj (sym (read_byte-cons r c cs e) ∙ h)))
      ∙ unread_byte-advance r c cs e
]

take-min : {A : Type 0} (k : ℕ) (xs : List A) → take (min k (length xs)) xs ≡ take k xs
take-min zero xs = ap (λ m. take m xs) (zero_min (length xs))
take-min (suc k) [] = take_nil (min (suc k) 0)
take-min (suc k) (x ∷ xs) =
    ap (λ m. take m (x ∷ xs)) (min-suc k (length xs)) ∙ ap (λ l. x ∷ l) (take-min k xs)

drop-min : {A : Type 0} (k : ℕ) (xs : List A) → drop (min k (length xs)) xs ≡ drop k xs
drop-min zero xs = ap (λ m. drop m xs) (zero_min (length xs))
drop-min (suc k) [] = drop_nil (min (suc k) 0)
drop-min (suc k) (x ∷ xs) = ap (λ m. drop m (x ∷ xs)) (min-suc k (length xs)) ∙ drop-min k xs

take-take : {A : Type 0} (k n : ℕ) (xs : List A) → take (min k n) xs ≡ take k (take n xs)
take-take zero n xs = ap (λ m. take m xs) (zero_min n)
take-take (suc k) zero xs = ap (λ m. take m xs) (min_zero (suc k))
take-take (suc k) (suc n) [] = take_nil (min (suc k) (suc n))
take-take (suc k) (suc n) (x ∷ xs) =
    ap (λ m. take m (x ∷ xs)) (min-suc k n) ∙ ap (λ l. x ∷ l) (take-take k n xs)

-- `Read` gives as many of the available bytes as fit.
pub read-take :
    (k : ℕ) (r : Reader)
    → read k r ≡ (take k (available r), advance (min k (length (available r))) r)
unfolding read
read-take k (source done rest) = rw (take-min k rest, drop-min k rest)
read-take k (limited n r) =
    rw (read-take (min k n) r, take-take k n (available r))
      λ i. (take k (take n (available r)), limited (n - left i) (advance (right i) r))
  where
    left : length (take k (take n (available r))) ≡ min k (length (take n (available r)))
    left = length-take k (take n (available r))

    right : min (min k n) (length (available r)) ≡ min k (length (take n (available r)))
    right = omega (arith, length-take n (available r))

-- `io.ReadFull` succeeds if the bytes are there, and takes no more; otherwise it fails.
pub read_full-ok :
    (k : ℕ) (r : Reader)
    → k ≤ length (available r)
    → read_full k r ≡ ok (take k (available r), advance k r)
unfolding read_full
read_full-ok k r h =
    let full : length (take k (available r)) == k ≡ true =
      ground (arith, length-take k (available r)) in
    rw (read-take k r, full) (ap (λ m. ok (take k (available r), advance m r)) (min_left k _ h))

pub read_full-short :
    (k : ℕ) (r : Reader)
    → length (available r) < k
    → (read_full k r ≡ err eof) ⊎ (read_full k r ≡ err unexpected_eof)
unfolding read_full
read_full-short k r h =
    let short : length (take k (available r)) == k ≡ false =
      ground (arith, length-take k (available r)) in
    elim (Bool-cases (length (take k (available r)) == 0)) [
      | inl empty ↦ inl (rw (read-take k r, short, empty))
      | inr some_bytes ↦ inr (rw (read-take k r, short, some_bytes))
    ]
