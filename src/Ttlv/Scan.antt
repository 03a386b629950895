-- ===== src/Ttlv/Scan.antt =====
-- The bytes that stand in the buffer against the words read from them: the converse of `Header`.
use libkmip.Base.{
  ℕ, zero, suc, ◌+◌, ◌*◌, ◌^◌, ◌≤◌, ◌<◌, ◌≡◌, sym, ap, ap₂, ◌∙◌, arith, List, [], ◌∷◌, ◌++◌, length,
  get_or, take, drop, replicate, All, drop_step, ok,
}
use native.Mathlib.Nat.{add-zero}
use libkmip.Ttlv.Bytes.{IsByte, be24, be32, be64, read_be_u32, read_be_u64}
use libkmip.Ttlv.Deserialize.{read_tag, zero_padding_loop}

pub get_or-IsByte : (bytes : List ℕ) (i : ℕ) → All IsByte bytes → get_or bytes i 0 < 256
get_or-IsByte [] i w = omega arith
get_or-IsByte (x ∷ xs) zero w = w.0
get_or-IsByte (x ∷ xs) (suc i) w = get_or-IsByte xs i w.1

pub take-IsByte : (n : ℕ) (bytes : List ℕ) → All IsByte bytes → All IsByte (take n bytes)
take-IsByte zero bytes w = tt
take-IsByte (suc n) [] w = tt
take-IsByte (suc n) (x ∷ xs) w = (w.0, take-IsByte n xs w.1)

pub drop-IsByte : (n : ℕ) (bytes : List ℕ) → All IsByte bytes → All IsByte (drop n bytes)
drop-IsByte zero bytes w = w
drop-IsByte (suc n) [] w = tt
drop-IsByte (suc n) (x ∷ xs) w = drop-IsByte n xs w.1

digits24 :
    (a b c : ℕ) → a < 256 → b < 256 → c < 256 → be24 (a * 2 ^ 16 + b * 2 ^ 8 + c) ≡ a ∷ b ∷ c ∷ []
digits24 a b c ha hb hc = ground arith

digits32 :
    (a b c d : ℕ)
    → a < 256
    → b < 256
    → c < 256
    → d < 256
    → be32 (a * 2 ^ 24 + b * 2 ^ 16 + c * 2 ^ 8 + d) ≡ a ∷ b ∷ c ∷ d ∷ []
digits32 a b c d ha hb hc hd = ground arith

digits64 :
    (a b c d e f g h : ℕ)
    → a < 256
    → b < 256
    → c < 256
    → d < 256
    → e < 256
    → f < 256
    → g < 256
    → h < 256
    → be64 (
        a * 2 ^ 56 + b * 2 ^ 48 + c * 2 ^ 40 + d * 2 ^ 32 + e * 2 ^ 24 + f * 2 ^ 16 + g * 2 ^ 8 + h)
      ≡ a ∷ b ∷ c ∷ d ∷ e ∷ f ∷ g ∷ h ∷ []
digits64 a b c d e f g h ha hb hc hd he hf hg hh = ground arith

module _ (bytes : List ℕ) (off : ℕ) (w : All IsByte bytes) where
  abbrev at : ℕ → ℕ
  at k = get_or bytes (off + k) 0

  at-IsByte : (k : ℕ) → at k < 256
  at-IsByte k = get_or-IsByte bytes (off + k) w

  next : (k : ℕ) → off + k < length bytes → drop (off + k) bytes ≡ at k ∷ drop (off + suc k) bytes
  next k h =
      let same : off + k + 1 ≡ off + suc k = omega arith in
      drop_step (off + k) bytes 0 h ∙ ap (λ (n : ℕ). at k ∷ drop n bytes) same

  -- The tag that is read is the one whose bytes stand there.
  pub be24-read_tag :
      off + 3 ≤ length bytes
      → (drop off bytes ≡ be24 (read_tag bytes off) ++ drop (off + 3) bytes)
        × (read_tag bytes off < 2 ^ 24)
  be24-read_tag h =
      let a = get_or bytes off 0 in
      let ha : a < 256 = get_or-IsByte bytes off w in
      let digits : be24 (read_tag bytes off) ≡ a ∷ at 1 ∷ at 2 ∷ [] =
        digits24 a (at 1) (at 2) ha (at-IsByte 1) (at-IsByte 2) in
      (
        drop_step off bytes 0 (omega arith)
            ∙ ap (◌∷◌ a) (next 1 (omega arith) ∙ ap (◌∷◌ (at 1)) (next 2 (omega arith)))
            ∙ ap (λ (xs : List ℕ). xs ++ drop (off + 3) bytes) (sym digits),
        omega (arith, ha, at-IsByte 1, at-IsByte 2),
      )

  pub be32-read_be_u32 :
      off + 4 ≤ length bytes
      → (drop off bytes ≡ be32 (read_be_u32 bytes off) ++ drop (off + 4) bytes)
        × (read_be_u32 bytes off < 2 ^ 32)
  unfolding read_be_u32
  be32-read_be_u32 h =
      let a = get_or bytes off 0 in
      let ha : a < 256 = get_or-IsByte bytes off w in
      let digits : be32 (read_be_u32 bytes off) ≡ a ∷ at 1 ∷ at 2 ∷ at 3 ∷ [] =
        digits32 a (at 1) (at 2) (at 3) ha (at-IsByte 1) (at-IsByte 2) (at-IsByte 3) in
      (
        drop_step off bytes 0 (omega arith)
            ∙ ap (◌∷◌ a) (
                next 1 (omega arith)
                ∙ ap (◌∷◌ (at 1)) (next 2 (omega arith) ∙ ap (◌∷◌ (at 2)) (next 3 (omega arith))))
            ∙ ap (λ (xs : List ℕ). xs ++ drop (off + 4) bytes) (sym digits),
        omega (arith, ha, at-IsByte 1, at-IsByte 2, at-IsByte 3),
      )

  rest64 :
      off + 8 ≤ length bytes
      → drop (off + 4) bytes ≡ at 4 ∷ at 5 ∷ at 6 ∷ at 7 ∷ drop (off + 8) bytes
  rest64 h =
      next 4 (omega arith)
      ∙ ap (◌∷◌ (at 4)) (
          next 5 (omega arith)
          ∙ ap (◌∷◌ (at 5)) (next 6 (omega arith) ∙ ap (◌∷◌ (at 6)) (next 7 (omega arith))))

  pub be64-read_be_u64 :
      off + 8 ≤ length bytes
      → (drop off bytes ≡ be64 (read_be_u64 bytes off) ++ drop (off + 8) bytes)
        × (read_be_u64 bytes off < 2 ^ 64)
  unfolding read_be_u64
  be64-read_be_u64 h =
      let a = get_or bytes off 0 in
      let ha : a < 256 = get_or-IsByte bytes off w in
      let digits : be64 (read_be_u64 bytes off)
          ≡ a ∷ at 1 ∷ at 2 ∷ at 3 ∷ at 4 ∷ at 5 ∷ at 6 ∷ at 7 ∷ [] =
        digits64 a (at 1) (at 2) (at 3) (at 4) (at 5) (at 6) (at 7) ha (at-IsByte 1) (at-IsByte 2)
          (at-IsByte 3) (at-IsByte 4) (at-IsByte 5) (at-IsByte 6) (at-IsByte 7) in
      (
        drop_step off bytes 0 (omega arith)
            ∙ ap (◌∷◌ a) (
                next 1 (omega arith)
                ∙ ap (◌∷◌ (at 1)) (
                    next 2 (omega arith)
                    ∙ ap (◌∷◌ (at 2)) (next 3 (omega arith) ∙ ap (◌∷◌ (at 3)) (rest64 h))))
            ∙ ap (λ (xs : List ℕ). xs ++ drop (off + 8) bytes) (sym digits),
        omega (
          arith,
          ha,
          at-IsByte 1,
          at-IsByte 2,
          at-IsByte 3,
          at-IsByte 4,
          at-IsByte 5,
          at-IsByte 6,
          at-IsByte 7,
        ),
      )

-- What the padding check lets through is zeros.
pub zero_padding_loop_zeros :
    (n : ℕ) (bytes : List ℕ) (i : ℕ)
    → i + n ≤ length bytes
    → zero_padding_loop n bytes i ≡ ok tt
    → drop i bytes ≡ replicate n 0 ++ drop (i + n) bytes
unfolding zero_padding_loop
zero_padding_loop_zeros zero bytes i h e = rw add-zero
zero_padding_loop_zeros (suc n) bytes i h e =
    let zero_here : get_or bytes i 0 ≡ 0 = ground arith in
    let rest : zero_padding_loop n bytes (i + 1) ≡ ok tt = ground arith in
    let same : i + 1 + n ≡ i + suc n = omega arith in
    drop_step i bytes 0 (omega arith)
    ∙ ap₂ (λ (x : ℕ) (xs : List ℕ). x ∷ xs) zero_here
        (zero_padding_loop_zeros n bytes (i + 1) (omega arith) rest
          ∙ ap (λ (k : ℕ). replicate n 0 ++ drop k bytes) same)
