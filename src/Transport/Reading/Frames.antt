-- ===== src/Transport/Reading/Frames.antt =====
-- Which frames are read of a stream.
use publisher.Base.{
  ℕ, zero, suc, ◌+◌, ◌*◌, ◌/◌, ◌%◌, ◌≤◌, ◌<◌, ◌≡◌, ◌↔◌, refl, sym, ap, subst, ◌∙◌, inl, inr, some,
  [], ◌∷◌, ◌++◌, arith,
}
use publisher.Base.Tests.{Option-cases}
use publisher.Base.Lists.{length, All}
use publisher.Base.Words.{
  to_be_bytes, from_be_bytes, u32_mod, length-to_be_bytes, from_be_bytes-to_be_bytes,
}
use publisher.Base.Results.{Result, ok, err}
use publisher.Spec.Primitives.{Bytes}
use publisher.Transport.Framing.{TransportError, LengthPrefixCodec, decode_length}
use publisher.Transport.Reading.{Stream, split_exact, read_of, read_exact, ◌>>=◌, read_frame}

split_exact-append :
    (front rest : Bytes) → split_exact (length front) (front ++ rest) ≡ some (front, rest)
unfolding split_exact
split_exact-append [] rest = refl
split_exact-append (b ∷ front) rest = rw (split_exact-append front rest)

split_exact-some :
    (n : ℕ) (bs front rest : Bytes)
    → split_exact n bs ≡ some (front, rest)
    → (bs ≡ front ++ rest) × (length front ≡ n)
unfolding split_exact
split_exact-some zero bs front rest e = ground arith
split_exact-some (suc n) [] front rest e = cc
split_exact-some (suc n) (b ∷ bs) front rest e = elim (Option-cases (split_exact n bs)) [
  | inl short ↦ ground arith
  | inr ((f, r), found) ↦
      let (split, counted) = split_exact-some n bs f r found in
      let same : (front ≡ b ∷ f) × (rest ≡ r) = ground arith in
      ground (arith, split, counted, same.0, same.1)
]

-- Four bytes are the digits of the number that they stand for.
to_be_bytes-from_be_bytes :
    (h : Bytes) → length h ≡ 4 → All (λ b. b < 256) h → to_be_bytes 4 (from_be_bytes h) ≡ h
unfolding to_be_bytes from_be_bytes
to_be_bytes-from_be_bytes [] n a = absurd (omega arith)
to_be_bytes-from_be_bytes (b ∷ []) n a = absurd (omega arith)
to_be_bytes-from_be_bytes (b ∷ c ∷ []) n a = absurd (omega arith)
to_be_bytes-from_be_bytes (b ∷ c ∷ d ∷ []) n a = absurd (omega arith)
to_be_bytes-from_be_bytes (b ∷ c ∷ d ∷ e ∷ []) n (hb, (hc, (hd, (he, _)))) =
    let n1 : ((((0 * 256 + b) * 256 + c) * 256 + d) * 256 + e) / 256 / 256 / 256 % 256 ≡ b =
      omega arith in
    let n2 : ((((0 * 256 + b) * 256 + c) * 256 + d) * 256 + e) / 256 / 256 % 256 ≡ c =
      omega arith in
    let n3 : ((((0 * 256 + b) * 256 + c) * 256 + d) * 256 + e) / 256 % 256 ≡ d = omega arith in
    let n4 : ((((0 * 256 + b) * 256 + c) * 256 + d) * 256 + e) % 256 ≡ e = omega arith in
    λ i. n1 i ∷ n2 i ∷ n3 i ∷ n4 i ∷ []
to_be_bytes-from_be_bytes (b ∷ c ∷ d ∷ e ∷ f ∷ h) n a = absurd (omega arith)

-- The frame of a payload, as `encode` makes it.
abbrev pub IsFrameOf : LengthPrefixCodec → Bytes → Bytes → Type 0
IsFrameOf codec payload bytes =
    (length payload ≤ codec.max_message_size)
    × ((rest : Bytes) × (bytes ≡ to_be_bytes 4 (length payload) ++ (payload ++ rest)))

-- A chain of results that succeeds is two that succeed.
>>=-ok {ℓ κ} :
    {A : Type ℓ} {B : Type κ} (m : Result TransportError A) (f : A → Result TransportError B)
    (b : B)
    → (m >>= f) ≡ ok b
    → (a : A) × (m ≡ ok a) × (f a ≡ ok b)
>>=-ok (ok a) f b e = (a, refl, e)
>>=-ok (err x) f b e = cc

read_exact-ok :
    (n : ℕ) (s : Stream) (front : Bytes) (recv : Stream)
    → read_exact n s ≡ ok (front, recv)
    → (s.bytes ≡ front ++ recv.bytes) × (length front ≡ n)
unfolding read_exact
read_exact-ok n s front recv e = elim (Option-cases (split_exact n s.bytes)) [
  | inl short ↦ ground arith
  | inr ((f, r), found) ↦
      let (split, counted) = split_exact-some n s.bytes f r found in
      let same : (front ≡ f) × (recv.bytes ≡ r) = ground arith in
      ground (arith, split, counted, same.0, same.1)
]

read_exact-append :
    (n : ℕ) (s : Stream) (front rest : Bytes)
    → s.bytes ≡ front ++ rest
    → length front ≡ n
    → read_exact n s ≡ ok (front, record { bytes = rest; ending = s.ending })
unfolding read_exact
read_exact-append n s front rest e counted =
    ap (λ bs. read_of s.ending (split_exact n bs)) e
    ∙ ap (λ k. read_of s.ending (split_exact k (front ++ rest))) (sym counted)
    ∙ ap (read_of s.ending) (split_exact-append front rest)

decode_length-ok :
    (codec : LengthPrefixCodec) (header : Bytes) (len : ℕ)
    → decode_length codec header ≡ ok len
    → (from_be_bytes header ≡ len) × (len ≤ codec.max_message_size)
unfolding decode_length
decode_length-ok codec header len e = ground arith

decode_length_fits :
    (codec : LengthPrefixCodec) (n : ℕ)
    → codec.max_message_size < u32_mod
    → n ≤ codec.max_message_size
    → decode_length codec (to_be_bytes 4 n) ≡ ok n
unfolding decode_length
decode_length_fits codec n small fits = ground (arith, from_be_bytes-to_be_bytes 4 n (omega arith))

All-front : (P : ℕ → Type 0) (xs ys : Bytes) → All P (xs ++ ys) → All P xs
All-front P [] ys h = tt
All-front P (x ∷ xs) ys h = (h.0, All-front P xs ys h.1)

module _ (codec : LengthPrefixCodec) (s : Stream) (payload : Bytes) where
  pub frame_read :
      codec.max_message_size < u32_mod
      → IsFrameOf codec payload s.bytes
      → read_frame codec s ≡ ok payload
  unfolding read_frame
  frame_read small (fits, (rest, e)) =
      let n = length payload in
      let recv : Stream = record { bytes = payload ++ rest; ending = s.ending } in
      ap (λ r. r >>= λ x. decode_length codec x.0 >>= λ len. read_exact len x.1 >>= λ y. ok y.0)
        (read_exact-append 4 s (to_be_bytes 4 n) (payload ++ rest) e (length-to_be_bytes 4 n))
      ∙ ap (λ r. r >>= λ len. read_exact len recv >>= λ y. ok y.0)
          (decode_length_fits codec n small fits)
      ∙ ap (λ r. r >>= λ y. ok y.0) (read_exact-append n recv payload rest refl refl)

  pub read_frame-ok :
      All (λ b. b < 256) s.bytes → read_frame codec s ≡ ok payload → IsFrameOf codec payload s.bytes
  unfolding read_frame
  read_frame-ok bytes e =
      let ((header, recv), first, e1) = >>=-ok (read_exact 4 s) _ payload e in
      let (len, decoded, e2) = >>=-ok (decode_length codec header) _ payload e1 in
      let ((body, rest), second, e3) = >>=-ok (read_exact len recv) _ payload e2 in
      let (split, four) = read_exact-ok 4 s header recv first in
      let (split', counted) = read_exact-ok len recv body rest second in
      let (value, fits) = decode_length-ok codec header len decoded in
      let same : body ≡ payload = ground arith in
      let measured : length payload ≡ len = ap length (sym same) ∙ counted in
      let digits : header ≡ to_be_bytes 4 (length payload) =
        sym (
          to_be_bytes-from_be_bytes header four
            (All-front (λ b. b < 256) header recv.bytes (subst (All (λ b. b < 256)) split bytes)))
        ∙ ap (to_be_bytes 4) (value ∙ sym measured) in
      (
        omega (arith, measured, fits),
        (
          rest.bytes,
          split
              ∙ ap (λ h. h ++ recv.bytes) digits
              ∙ ap (λ r. to_be_bytes 4 (length payload) ++ r)
                  (split' ∙ ap (λ b. b ++ rest.bytes) same),
        ),
      )

-- Under a limit that fits into `u32`, the payload read of a stream of bytes is the one whose frame,
-- within the limit, the stream begins with, and none if it begins with no such frame.
pub read_frame_iff :
    (codec : LengthPrefixCodec) (s : Stream) (payload : Bytes)
    → codec.max_message_size < u32_mod
    → All (λ b. b < 256) s.bytes
    → (read_frame codec s ≡ ok payload) ↔ IsFrameOf codec payload s.bytes
read_frame_iff codec s payload small bytes =
    (read_frame-ok codec s payload bytes, frame_read codec s payload small)
