-- ===== src/Bridge/Auth/Digest.antt =====
-- The hexadecimal text of a digest: `md5hex` of native/bridge/pglite_bridge.c.
use pglite_ios.Common.{
  ℕ, zero, suc, ◌+◌, ◌-◌, ◌*◌, ◌/◌, ◌%◌, ◌≤◌, ◌<◌, ◌≡◌, refl, sym, ap, ◌∙◌, ◌⊎◌, drop_all,
  drop-cons, [], ◌∷◌, arith, ltb, if◌then◌else◌, length, get_or, drop, Bytes,
}
use pglite_ios.Bridge.Auth.{hex_digit, hex_loop, md5hex}

-- A digit of a text of hexadecimal digits, '0' to '9' or 'a' to 'f'.
abbrev pub IsHexDigit : ℕ → Type 0
IsHexDigit c = ((48 ≤ c) × (c ≤ 57)) ⊎ ((97 ≤ c) × (c ≤ 102))

abbrev pub AllHex : Bytes → Type 0
AllHex [] = Unit {0}
AllHex (c ∷ cs) = IsHexDigit c × AllHex cs

-- The value of a digit, and the bytes that a text of digits stands for.
unfoldable hex_value : ℕ → ℕ
hex_value c = if ltb c 58 then c - 48 else c - 87

pub hex_bytes : Bytes → Bytes
unfolding hex_value
hex_bytes (h ∷ l ∷ cs) = (hex_value h * 16 + hex_value l) ∷ hex_bytes cs
hex_bytes _ = []

abbrev pub IsBytes : Bytes → Type 0
IsBytes [] = Unit {0}
IsBytes (b ∷ bs) = (b < 256) × IsBytes bs

hex_digit-IsHexDigit : (d : ℕ) → d < 16 → IsHexDigit (hex_digit d)
unfolding hex_digit
hex_digit-IsHexDigit d h = ground arith

hex_value-hex_digit : (d : ℕ) → d < 16 → hex_value (hex_digit d) ≡ d
unfolding hex_value hex_digit
hex_value-hex_digit d h = ground arith

get_or-IsBytes : (bs : Bytes) (i : ℕ) → IsBytes bs → get_or bs i 0 < 256
get_or-IsBytes [] i h = omega arith
get_or-IsBytes (b ∷ bs) zero h = h.0
get_or-IsBytes (b ∷ bs) (suc i) h = get_or-IsBytes bs i h.1

hex_loop-AllHex : (n i : ℕ) (d : Bytes) → IsBytes d → AllHex (hex_loop n i d)
unfolding hex_loop
hex_loop-AllHex zero i d h = tt
hex_loop-AllHex (suc n) i d h =
    let b = get_or-IsBytes d i h in
    (
      hex_digit-IsHexDigit (get_or d i 0 / 16) (omega arith),
      (hex_digit-IsHexDigit (get_or d i 0 % 16) (omega arith), hex_loop-AllHex n (i + 1) d h),
    )

hex_loop-bytes :
    (n i : ℕ) (d : Bytes) → IsBytes d → i + n ≡ length d → hex_bytes (hex_loop n i d) ≡ drop i d
unfolding hex_loop hex_bytes
hex_loop-bytes zero i d h e = sym (drop_all i d (omega arith))
hex_loop-bytes (suc n) i d h e =
    let b = get_or d i 0 in
    let small = get_or-IsBytes d i h in
    let high = hex_value-hex_digit (b / 16) (omega arith) in
    let low = hex_value-hex_digit (b % 16) (omega arith) in
    let value : hex_value (hex_digit (b / 16)) * 16 + hex_value (hex_digit (b % 16)) ≡ b =
      omega (arith, high, low) in
    let next : suc i ≡ i + 1 = omega arith in
    ap (λ v. v ∷ hex_bytes (hex_loop n (i + 1) d)) value
    ∙ ap (λ t. b ∷ t) (hex_loop-bytes n (i + 1) d h (omega arith))
    ∙ ap (λ j. b ∷ drop j d) (sym next)
    ∙ sym (drop-cons i d 0 (omega arith))

length-hex_loop : (n i : ℕ) (d : Bytes) → length (hex_loop n i d) ≡ 2 * n
unfolding hex_loop
length-hex_loop zero i d = refl
length-hex_loop (suc n) i d = omega (arith, length-hex_loop n (i + 1) d)

-- For a digest of sixteen bytes `md5hex` gives 32 hexadecimal digits that spell the digest.
pub md5hex_lem :
    (md5 : Bytes → Bytes) (bs : Bytes)
    → IsBytes (md5 bs)
    → length (md5 bs) ≡ 16
    → (length (md5hex md5 bs) ≡ 32) × AllHex (md5hex md5 bs) × (hex_bytes (md5hex md5 bs) ≡ md5 bs)
unfolding md5hex
md5hex_lem md5 bs bytes size = (
  length-hex_loop 16 0 (md5 bs),
  hex_loop-AllHex 16 0 (md5 bs) bytes,
  hex_loop-bytes 16 0 (md5 bs) bytes (omega arith),
)
