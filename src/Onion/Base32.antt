-- ===== src/Onion/Base32.antt =====
-- Base 32 of RFC 4648 without padding, on whole blocks: the regular expression in front of the
-- decoder has fixed the length at 56, which is seven blocks of eight characters.
use go_dark_web_crawler.Common.{
  ℕ, suc, zero, ◌+◌, ◌-◌, ◌*◌, ◌/◌, ◌%◌, ◌<◌, ◌≡◌, refl, map, Option-cases, inl, inr, ◌&&◌, List,
  [], ◌∷◌, arith, leb, if◌then◌else◌, Option, none, some, All, length,
}
use go_dark_web_crawler.Common.Text.{Bytes}
use go_dark_web_crawler.Common.Hex.{IsByte}

-- The value of a character of the alphabet `A-Z2-7`.
unfoldable pub digit : ℕ → Option ℕ
digit c =
    if leb b'A' c && leb c b'Z'
    then some (c - 65)
    else if leb b'2' c && leb c b'7'
    then some (c - 24)
    else none

abbrev all_digits : Bytes → Option (List ℕ)
all_digits [] = some []
all_digits (c ∷ s) = elim (digit c) [
  | none ↦ none
  | some d ↦ elim (all_digits s) [ none ↦ none | some ds ↦ some (d ∷ ds) ]
]

unfoldable pub bytes_of : List ℕ → Option Bytes
bytes_of [] = some []
bytes_of (a ∷ b ∷ c ∷ d ∷ e ∷ f ∷ g ∷ h ∷ ds) = elim (bytes_of ds) [
  | none ↦ none
  | some bs ↦ some (
      ((a * 8 + b / 4) % 256)
      ∷ ((b * 64 + c * 2 + d / 16) % 256)
      ∷ ((d * 16 + e / 2) % 256)
      ∷ ((e * 128 + f * 4 + g / 8) % 256)
      ∷ ((g * 32 + h) % 256)
      ∷ bs)
]
bytes_of _ = none

unfoldable pub decode : Bytes → Option Bytes
unfolding digit bytes_of
decode s = elim (all_digits s) [ none ↦ none | some ds ↦ bytes_of ds ]

-- Five bytes make eight digits: the encoder, which the program itself does not call here.
pub digits_of : Bytes → List ℕ
digits_of (a ∷ b ∷ c ∷ d ∷ e ∷ s) =
    (a / 8)
    ∷ ((a * 4 + b / 64) % 32)
    ∷ (b / 2 % 32)
    ∷ ((b * 16 + c / 16) % 32)
    ∷ ((c * 2 + d / 128) % 32)
    ∷ (d / 4 % 32)
    ∷ ((d * 8 + e / 32) % 32)
    ∷ (e % 32)
    ∷ digits_of s
digits_of _ = []

abbrev pub letter : ℕ → ℕ
letter d = if leb d 25 then d + 65 else d + 24

unfoldable pub encode : Bytes → Bytes
unfolding digits_of
encode s = map letter (digits_of s)

-- Whole blocks of bytes.
pub data Blocks : Bytes → Type 0 where
  stop : Blocks []
  block :
      {a b c d e : ℕ} {s : Bytes}
      → a < 256
      → b < 256
      → c < 256
      → d < 256
      → e < 256
      → Blocks s
      → Blocks (a ∷ b ∷ c ∷ d ∷ e ∷ s)

digit-letter : (d : ℕ) → d < 32 → digit (letter d) ≡ some d
unfolding digit
digit-letter d h = ground arith

all_digits-letter : (ds : List ℕ) → All (λ d. d < 32) ds → all_digits (map letter ds) ≡ some ds
all_digits-letter [] h = refl
all_digits-letter (d ∷ ds) h = ground (arith, digit-letter d h.0, all_digits-letter ds h.1)

pub digits_of-lt : {s : Bytes} → Blocks s → All (λ d. d < 32) (digits_of s)
unfolding digits_of
digits_of-lt stop = tt
digits_of-lt (block ha hb hc hd he t) =
    let rest = digits_of-lt t in
    (
      omega arith,
      (
        omega arith,
        (
          omega arith,
          (omega arith, (omega arith, (omega arith, (omega arith, (omega arith, rest))))),
        ),
      ),
    )

bytes_of-digits_of : {s : Bytes} → Blocks s → bytes_of (digits_of s) ≡ some s
unfolding bytes_of digits_of
bytes_of-digits_of stop = refl
bytes_of-digits_of (block {a} {b} {c} {d} {e} ha hb hc hd he t) =
    let p0 : ((a / 8) * 8 + ((a * 4 + b / 64) % 32) / 4) % 256 ≡ a = omega arith in
    let p1 : (((a * 4 + b / 64) % 32) * 64 + (b / 2 % 32) * 2 + ((b * 16 + c / 16) % 32) / 16) % 256
        ≡ b =
      omega arith in
    let p2 : (((b * 16 + c / 16) % 32) * 16 + ((c * 2 + d / 128) % 32) / 2) % 256 ≡ c =
      omega arith in
    let p3 : (((c * 2 + d / 128) % 32) * 128 + (d / 4 % 32) * 4 + ((d * 8 + e / 32) % 32) / 8) % 256
        ≡ d =
      omega arith in
    let p4 : (((d * 8 + e / 32) % 32) * 32 + e % 32) % 256 ≡ e = omega arith in
    rw (bytes_of-digits_of t, p0, p1, p2, p3, p4)

-- The decoder undoes the encoder.
pub decode-encode : {s : Bytes} → Blocks s → decode (encode s) ≡ some s
unfolding decode encode
decode-encode {s} b =
    rw (all_digits-letter (digits_of s) (digits_of-lt b), decode) (bytes_of-digits_of b)

letter-digit : (c d : ℕ) → digit c ≡ some d → (letter d ≡ c) × (d < 32)
unfolding digit
letter-digit c d e = ground arith

letter-all_digits :
    (s : Bytes) (ds : List ℕ) → all_digits s ≡ some ds → (map letter ds ≡ s) × All (λ d. d < 32) ds
letter-all_digits [] ds e = ground arith
letter-all_digits (c ∷ s) ds e = elim (Option-cases (digit c)) [
  | inl bad ↦ absurd (cc (rw (bad, all_digits) at e))
  | inr (d, good) ↦ elim (Option-cases (all_digits s)) [
    | inl bad ↦ absurd (cc (rw (good, bad, all_digits) at e))
    | inr (rest, fine) ↦
        let here = letter-digit c d good in
        let later = letter-all_digits s rest fine in
        let whole : ds ≡ d ∷ rest = cc (rw (good, fine, all_digits) at e) in
        rw whole (rw (here.0, later.0) refl, (here.1, later.1))
  ]
]

bytes_of-Blocks : (ds : List ℕ) (bs : Bytes) → bytes_of ds ≡ some bs → Blocks bs
unfolding bytes_of
bytes_of-Blocks [] bs e = let whole : bs ≡ [] = cc in rw whole stop
bytes_of-Blocks (a ∷ b ∷ c ∷ d ∷ e ∷ f ∷ g ∷ h ∷ ds) bs w = elim (Option-cases (bytes_of ds)) [
  | inl bad ↦ absurd (cc (rw bad at w))
  | inr (rest, fine) ↦
      let later = bytes_of-Blocks ds rest fine in
      let whole : bs
          ≡ ((a * 8 + b / 4) % 256)
            ∷ ((b * 64 + c * 2 + d / 16) % 256)
            ∷ ((d * 16 + e / 2) % 256)
            ∷ ((e * 128 + f * 4 + g / 8) % 256)
            ∷ ((g * 32 + h) % 256)
            ∷ rest =
        cc (rw fine at w) in
      rw whole (block (omega arith) (omega arith) (omega arith) (omega arith) (omega arith) later)
]
bytes_of-Blocks _ bs e = cc

unblock :
    (a b c d e f g h : ℕ) (bs : Bytes) (ds : List ℕ)
    → a < 32
    → b < 32
    → c < 32
    → d < 32
    → e < 32
    → f < 32
    → g < 32
    → h < 32
    → digits_of bs ≡ ds
    → digits_of (
        ((a * 8 + b / 4) % 256)
        ∷ ((b * 64 + c * 2 + d / 16) % 256)
        ∷ ((d * 16 + e / 2) % 256)
        ∷ ((e * 128 + f * 4 + g / 8) % 256)
        ∷ ((g * 32 + h) % 256)
        ∷ bs)
      ≡ a ∷ b ∷ c ∷ d ∷ e ∷ f ∷ g ∷ h ∷ ds
unfolding digits_of
unblock a b c d e f g h bs ds a1 b1 c1 d1 e1 f1 g1 h1 later =
    let p0 : ((a * 8 + b / 4) % 256) / 8 ≡ a = omega arith in
    let p1 : (((a * 8 + b / 4) % 256) * 4 + ((b * 64 + c * 2 + d / 16) % 256) / 64) % 32 ≡ b =
      omega arith in
    let p2 : ((b * 64 + c * 2 + d / 16) % 256) / 2 % 32 ≡ c = omega arith in
    let p3 : (((b * 64 + c * 2 + d / 16) % 256) * 16 + ((d * 16 + e / 2) % 256) / 16) % 32 ≡ d =
      omega arith in
    let p4 : (((d * 16 + e / 2) % 256) * 2 + ((e * 128 + f * 4 + g / 8) % 256) / 128) % 32 ≡ e =
      omega arith in
    let p5 : ((e * 128 + f * 4 + g / 8) % 256) / 4 % 32 ≡ f = omega arith in
    let p6 : (((e * 128 + f * 4 + g / 8) % 256) * 8 + ((g * 32 + h) % 256) / 32) % 32 ≡ g =
      omega arith in
    let p7 : ((g * 32 + h) % 256) % 32 ≡ h = omega arith in
    rw (p0, p1, p2, p3, p4, p5, p6, p7, later)

digits_of-bytes_of :
    (ds : List ℕ) (bs : Bytes) → All (λ d. d < 32) ds → bytes_of ds ≡ some bs → digits_of bs ≡ ds
unfolding bytes_of digits_of
digits_of-bytes_of [] bs v w = let whole : bs ≡ [] = cc in rw whole
digits_of-bytes_of (a ∷ b ∷ c ∷ d ∷ e ∷ f ∷ g ∷ h ∷ ds) bs
      (a1, (b1, (c1, (d1, (e1, (f1, (g1, (h1, v)))))))) w =
    elim (Option-cases (bytes_of ds)) [
      | inl bad ↦ absurd (cc (rw bad at w))
      | inr (rest, fine) ↦
          let later = digits_of-bytes_of ds rest v fine in
          let whole : bs
              ≡ ((a * 8 + b / 4) % 256)
                ∷ ((b * 64 + c * 2 + d / 16) % 256)
                ∷ ((d * 16 + e / 2) % 256)
                ∷ ((e * 128 + f * 4 + g / 8) % 256)
                ∷ ((g * 32 + h) % 256)
                ∷ rest =
            cc (rw fine at w) in
          rw whole (unblock a b c d e f g h rest ds a1 b1 c1 d1 e1 f1 g1 h1 later)
    ]
digits_of-bytes_of _ bs v w = cc

-- The encoder undoes the decoder, whose results are whole blocks of bytes.
pub encode-decode : (s bs : Bytes) → decode s ≡ some bs → (encode bs ≡ s) × Blocks bs
unfolding decode encode
encode-decode s bs e = elim (Option-cases (all_digits s)) [
  | inl bad ↦ absurd (cc (rw (bad, decode) at e))
  | inr (ds, fine) ↦
      let (spelled, small) = letter-all_digits s ds fine in
      let made = rw (fine, decode) at e in
      (rw (digits_of-bytes_of ds bs small made) spelled, bytes_of-Blocks ds bs made)
]

pub Blocks-of : (n : ℕ) (s : Bytes) → length s ≡ 5 * n → All IsByte s → Blocks s
Blocks-of zero [] e h = stop
Blocks-of zero (a ∷ s) e h = absurd (omega arith)
Blocks-of (suc n) (a ∷ b ∷ c ∷ d ∷ e ∷ s) w (ha, (hb, (hc, (hd, (he, t))))) =
    block ha hb hc hd he (Blocks-of n s (omega arith) t)
Blocks-of (suc n) _ w h = absurd (omega arith)

pub length-digits_of : {s : Bytes} → Blocks s → 5 * length (digits_of s) ≡ 8 * length s
unfolding digits_of
length-digits_of stop = refl
length-digits_of (block ha hb hc hd he t) = omega (arith, length-digits_of t)
