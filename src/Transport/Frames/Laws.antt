-- ===== src/Transport/Frames/Laws.antt =====
-- The loop over the body ends, and a stream that gives its bytes in order gives the message back.
use rust_node.Base.{
  ℕ, zero, suc, ◌-◌, ◌%◌, ◌≤◌, ◌<◌, ◌≡◌, ◌≢◌, ◌⊎◌, refl, ap, ◌∙◌, [], ◌∷◌, ◌++◌, append_assoc,
  append-nil, Option, some, Result, ok, err, length, min, take, arith, inl, inr,
}
use native.Mathlib.Numerals.{unary_clauses}
use rust_node.Network.{Bytes, NetworkError}
use rust_node.Transport.Frames.{
  to_be_bytes, from_be_bytes, frame, Read, chunk, closed, failed, wrapping_sub, body_step,
  continue_with, complete, read_head, read_body, receive_body, receive_bytes,
}

from_be_bytes-to_be_bytes : (n : ℕ) → n < 4294967296 → from_be_bytes (to_be_bytes n) ≡ n
from_be_bytes-to_be_bytes n h = omega arith

abbrev Ends : {S : Type 0} → Option (Result Bytes NetworkError × S) → Type 0
Ends {S} o = (outcome : Result Bytes NetworkError × S) × (o ≡ some outcome)

-- `read_chunk` of a `RecvStream` gives no more bytes than it was asked for.
abbrev pub GivesAtMost : {S : Type 0} → (ℕ → S → Read × S) → Type 0
GivesAtMost {S} read_chunk =
    (n : ℕ) (s : S) (bs : Bytes) → (read_chunk n s).0 ≡ chunk bs → length bs ≤ n

wrapping_sub-eq : (a b : ℕ) → b ≤ a → wrapping_sub a b ≡ a - b
wrapping_sub-eq a b h = ground (arith, h)

continue_with-Ends :
    {S : Type 0} (remaining limit : ℕ) (body : Bytes) (read : Read × S)
    (loop : ℕ → Bytes → S → Option (Result Bytes NetworkError × S))
    → limit ≤ suc remaining
    → ((bs : Bytes) → read.0 ≡ chunk bs → length bs ≤ limit)
    → ((later : ℕ) (body' : Bytes) (s : S) → later ≤ remaining → Ends (loop later body' s))
    → Ends (continue_with loop (body_step (suc remaining) body read))
continue_with-Ends remaining limit body (chunk (b ∷ bs), s) loop fits at_most ends =
    let asked : suc (length bs) ≤ limit = at_most (b ∷ bs) refl in
    ends _ _ s (omega (arith, fits, asked, wrapping_sub-eq (suc remaining) (suc (length bs))))
continue_with-Ends remaining limit body (chunk [], s) loop fits at_most ends = (_, refl)
continue_with-Ends remaining limit body (closed, s) loop fits at_most ends = (_, refl)
continue_with-Ends remaining limit body (failed text, s) loop fits at_most ends = (_, refl)

module _ {S : Type 0} (read_chunk : ℕ → S → Read × S) (at_most : GivesAtMost read_chunk) where
  read_body-Ends :
      (fuel remaining : ℕ) (body : Bytes) (s : S)
      → remaining ≤ fuel
      → Ends (read_body read_chunk fuel remaining body s)
  unfolding read_body
  read_body-Ends fuel zero body s h = ((ok body, s), refl)
  read_body-Ends zero (suc remaining) body s h = absurd (omega (arith, h))
  read_body-Ends (suc fuel) (suc remaining) body s h =
      continue_with-Ends remaining (min (suc remaining) 1024) body
        (read_chunk (min (suc remaining) 1024) s) (read_body read_chunk fuel) (ground arith)
        (at_most (min (suc remaining) 1024) s)
        (λ later body' s' k. read_body-Ends fuel later body' s' (omega (arith, h, k)))

  receive_body-returns :
      (head : Result Bytes NetworkError × S)
      → (outcome : Result Bytes NetworkError) × (receive_body read_chunk head ≡ some outcome)
  unfolding receive_body
  receive_body-returns (err e, s) = (err e, refl)
  receive_body-returns (ok len_buf, s) =
      let n = from_be_bytes len_buf in
      let (outcome, e) = read_body-Ends n n [] s (omega arith) in (complete n outcome.0, rw e refl)

  -- Where the stream gives no more bytes than it is asked for, the loops end, with a message's bytes
  -- or an error, whatever it gives: the length that was read is fuel enough for the body.
  pub receive_bytes-returns :
      (s : S) → (outcome : Result Bytes NetworkError) × (receive_bytes read_chunk s ≡ some outcome)
  unfolding receive_bytes
  receive_bytes-returns s = receive_body-returns (read_head read_chunk 4 [] s)

-- A stream that gives the bytes it has left in order: some of them where there are any, no more
-- than asked for, and its end after them.
pub record InOrder {S : Type 0} (read_chunk : ℕ → S → Read × S) : Type 0 where
  pub left : S → Bytes
  pub at_end : (n : ℕ) (s : S) → left s ≡ [] → (read_chunk n s).0 ≡ closed
  pub gives :
      (n : ℕ) (s : S)
      → 0 < n
      → left s ≢ []
      → (b : ℕ) × (bs : Bytes) × ((read_chunk n s).0 ≡ chunk (b ∷ bs))
        × (length bs < n)
        × (left s ≡ b ∷ (bs ++ left (read_chunk n s).1))

take-append :
    (n : ℕ) (xs ys : Bytes) → length xs ≤ n → take n (xs ++ ys) ≡ xs ++ take (n - length xs) ys
take-append n [] ys h = ground arith
take-append zero (x ∷ xs) ys h = absurd (omega (arith, h))
take-append (suc n) (x ∷ xs) ys h =
    simp unary_clauses (ap (◌∷◌ x) (take-append n xs ys (omega (arith, h))))

take-length : (xs : Bytes) → take (length xs) xs ≡ xs
take-length [] = refl
take-length (x ∷ xs) = ap (◌∷◌ x) (take-length xs)

complete-ok : (body : Bytes) → complete (length body) (ok body) ≡ ok body
complete-ok body = ground arith

mod_small : (n : ℕ) → n < 4294967296 → n % 4294967296 ≡ n
mod_small n h = omega arith

nil-cases : (xs : Bytes) → (xs ≡ []) ⊎ (xs ≢ [])
nil-cases [] = inl refl
nil-cases (x ∷ xs) = inr (λ e. cc)

-- A chunk, and then the next bytes up to the length that is left.
chunk-take :
    (n : ℕ) (body : Bytes) (b : ℕ) (bs rest : Bytes)
    → length bs < n
    → (body ++ b ∷ bs) ++ take (n - suc (length bs)) rest ≡ body ++ take n (b ∷ (bs ++ rest))
chunk-take n body b bs rest h =
    rw (take-append n (b ∷ bs) rest h)
      (append_assoc body (b ∷ bs) (take (n - suc (length bs)) rest))

module _ {S : Type 0} {read_chunk : ℕ → S → Read × S} (ordered : InOrder read_chunk) where
  -- The body is the next bytes, or all that are left.
  read_body-eq :
      (fuel remaining : ℕ) (body : Bytes) (s : S)
      → remaining ≤ fuel
      → (s' : S) × (read_body read_chunk fuel remaining body s
          ≡ some (ok (body ++ take remaining (ordered.left s)), s'))
  unfolding read_body
  read_body-eq fuel zero body s h = (s, rw (append-nil body) refl)
  read_body-eq zero (suc remaining) body s h = absurd (omega (arith, h))
  read_body-eq (suc fuel) (suc remaining) body s h = elim (nil-cases (ordered.left s)) [
    | inl e ↦ rw (ordered.at_end limit s e, e, append-nil body) ((read_chunk limit s).1, refl)
    | inr e ↦
        let (b, bs, read, fits, rest) = ordered.gives limit s (ground arith) e in
        let (s', eq) =
          read_body-eq fuel (suc remaining - suc (length bs)) (body ++ b ∷ bs)
            (read_chunk limit s).1 (omega (arith, h)) in
        (
          s',
          rw (read, rest, wrapping_sub-eq (suc remaining) (suc (length bs)) (ground (arith, fits)))
              (rw
                (chunk-take (suc remaining) body b bs (ordered.left (read_chunk limit s).1)
                  (ground (arith, fits)))
                at eq),
        )
  ]
    where
      limit : ℕ
      limit = min (suc remaining) 1024

  -- A read of one byte.
  read_one :
      (b : ℕ) (rest : Bytes) (s : S)
      → ordered.left s ≡ b ∷ rest
      → ((read_chunk 1 s).0 ≡ chunk (b ∷ [])) × (ordered.left (read_chunk 1 s).1 ≡ rest)
  read_one b rest s h =
      let (c, cs, read, fits, left) = ordered.gives 1 s (omega arith) (λ e. cc (e, h)) in
      alone c cs read fits left
    where
      alone :
          (c : ℕ) (cs : Bytes)
          → (read_chunk 1 s).0 ≡ chunk (c ∷ cs)
          → length cs < 1
          → ordered.left s ≡ c ∷ (cs ++ ordered.left (read_chunk 1 s).1)
          → ((read_chunk 1 s).0 ≡ chunk (b ∷ [])) × (ordered.left (read_chunk 1 s).1 ≡ rest)
      alone c [] read k left = (cc (read, left, h), cc (left, h))
      alone c (d ∷ cs) read k left = absurd (omega (arith, k))

  read_head-eq :
      (len_buf bs rest : Bytes) (s : S)
      → ordered.left s ≡ bs ++ rest
      → (s' : S) × (read_head read_chunk (length bs) len_buf s ≡ (ok (len_buf ++ bs), s'))
        × (ordered.left s' ≡ rest)
  unfolding read_head
  read_head-eq len_buf [] rest s h = (s, rw (append-nil len_buf) refl, h)
  read_head-eq len_buf (b ∷ bs) rest s h =
      let (read, later) = read_one b (bs ++ rest) s h in
      let (s', eq, left) = read_head-eq (len_buf ++ b ∷ []) bs rest (read_chunk 1 s).1 later in
      (s', rw read (rw (append_assoc len_buf (b ∷ []) bs) at eq), left)

  receive_body-eq :
      (n : ℕ) (len_buf rest : Bytes) (s : S)
      → from_be_bytes len_buf ≡ n
      → ordered.left s ≡ rest
      → receive_body read_chunk (ok len_buf, s) ≡ some (complete n (ok (take n rest)))
  unfolding receive_body
  receive_body-eq n len_buf rest s size left =
      let (s', body) = read_body-eq n n [] s (omega arith) in rw (size, body, left) refl

  receive_bytes-eq :
      (n : ℕ) (rest : Bytes) (s : S)
      → n < 4294967296
      → ordered.left s ≡ to_be_bytes n ++ rest
      → receive_bytes read_chunk s ≡ some (complete n (ok (take n rest)))
  unfolding receive_bytes
  receive_bytes-eq n rest s small h =
      let (s', head, left) = read_head-eq [] (to_be_bytes n) rest s h in
      ap (receive_body read_chunk) head
      ∙ receive_body-eq n (to_be_bytes n) rest s' (from_be_bytes-to_be_bytes n small) left

  -- A message of fewer than 2^32 bytes that was written to a stream is received as it was, where
  -- the stream gives its bytes in order.
  pub receive_bytes-frame :
      (body : Bytes) (s : S)
      → length body < 4294967296
      → ordered.left s ≡ frame body
      → receive_bytes read_chunk s ≡ some (ok body)
  receive_bytes-frame body s small h =
      receive_bytes-eq (length body) body s small (rw (mod_small (length body) small) at h)
      ∙ rw (take-length body) (ap some (complete-ok body))
