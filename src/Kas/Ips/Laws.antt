-- ===== src/Kas/Ips/Laws.antt =====
-- `nextIP` adds one to an address.
use hypershift_lite.Prelude.{
  ℕ, suc, ◌+◌, ◌*◌, ◌%◌, ◌^◌, ◌<◌, ◌≡◌, refl, ◌⊎◌, inl, inr, ◌∙◌, ap, sym, [], ◌∷◌, ◌++◌, length,
}
use hypershift_lite.Prelude.{arith, ltb, true, nat_eq, if◌then◌else◌, length-append}
use hypershift_lite.Api.{Bytes}
use hypershift_lite.Kas.Ips.{increment, next_ip}
use mathlib.Core.Path.{subst, ap₂}
use mathlib.Core.List.{reverse, reverse-cons, reverse-reverse}
use hypershift_lite.Prelude.{dec_lt}
use native.Mathlib.Nat.{mod-eq_of_lt, add-mod_right, pow-suc}

-- The number that an address stands for, its first byte the highest.
abbrev pub value : Bytes → ℕ
value [] = 0
value (b ∷ rest) = b * 256 ^ length rest + value rest

abbrev pub AreBytes : Bytes → Type 0
AreBytes [] = Unit {0}
AreBytes (b ∷ rest) = (b < 256) × AreBytes rest

-- The same with the lowest byte first.
low_value : Bytes → ℕ
low_value [] = 0
low_value (b ∷ rest) = b + 256 * low_value rest

-- 1 if every byte is 255.
carry : Bytes → ℕ
carry [] = 1
carry (b ∷ rest) = if nat_eq b 255 then carry rest else 0

increment_last : (b : ℕ) (rest : Bytes) → b ≡ 255 → increment (b ∷ rest) ≡ 0 ∷ increment rest
unfolding increment
increment_last b rest e = rw e

increment_below : (b : ℕ) (rest : Bytes) → b < 255 → increment (b ∷ rest) ≡ (b + 1) ∷ rest
unfolding increment
increment_below b rest h =
    let next : (b + 1) % 2 ^ 8 ≡ b + 1 = omega arith in
    let more : ltb 0 (b + 1) ≡ true = ground arith in rw (next, more)

carry_last : (b : ℕ) (rest : Bytes) → b ≡ 255 → carry (b ∷ rest) ≡ carry rest
unfolding carry
carry_last b rest e = rw e

carry_below : (b : ℕ) (rest : Bytes) → b < 255 → carry (b ∷ rest) ≡ 0
unfolding carry
carry_below b rest h = ground arith

-- One byte more: the power's product and the low part shift together.
shift_step :
    (c p q x y b : ℕ)
    → x + c * p ≡ y + 1
    → q ≡ 256 * p
    → b ≡ 255
    → 0 + 256 * x + c * q ≡ b + 256 * y + 1
shift_step c p q x y b h e last =
    let product : c * q ≡ 256 * (c * p) = rw (e) (grind arith) in omega (arith, product, h)

low_value-increment :
    (bs : Bytes)
    → AreBytes bs
    → low_value (increment bs) + carry bs * 256 ^ length bs ≡ low_value bs + 1
unfolding low_value
low_value-increment [] h = unfold increment low_value carry in refl
low_value-increment (b ∷ rest) h = elim (dec_lt b 255) [
  | yes below ↦
      rw (increment_below b rest below, carry_below b rest below) (unfold low_value in omega arith)
  | no last ↦
      let e : b ≡ 255 = omega arith in
      let power = pow-suc 256 (length rest) in
      rw (increment_last b rest e, carry_last b rest e)
        (shift_step (carry rest) (256 ^ length rest) (256 ^ suc (length rest))
          (low_value (increment rest)) (low_value rest) b (low_value-increment rest h.1)
          (omega (arith, power)) e)
]

low_value-lt : (bs : Bytes) → AreBytes bs → low_value bs < 256 ^ length bs
unfolding low_value
low_value-lt [] h = omega arith
low_value-lt (b ∷ rest) h = omega (arith, low_value-lt rest h.1, pow-suc 256 (length rest))

carry_cases : (bs : Bytes) → (carry bs ≡ 0) ⊎ (carry bs ≡ 1)
unfolding carry
carry_cases [] = inr refl
carry_cases (b ∷ rest) = ground (arith, carry_cases rest)

length-increment : (bs : Bytes) → length (increment bs) ≡ length bs
unfolding increment
length-increment [] = refl
length-increment (b ∷ rest) = ground (arith, length-increment rest)

increment-AreBytes : (bs : Bytes) → AreBytes bs → AreBytes (increment bs)
unfolding increment
increment-AreBytes [] h = tt
increment-AreBytes (b ∷ rest) h = ground (arith, increment-AreBytes rest h.1)

increment-mod :
    (bs : Bytes) → AreBytes bs → low_value (increment bs) ≡ (low_value bs + 1) % 256 ^ length bs
increment-mod bs h =
    let sum = low_value-increment bs h in
    let below : low_value (increment bs) < 256 ^ length (increment bs) =
      low_value-lt (increment bs) (increment-AreBytes bs h) in
    let below' : low_value (increment bs) < 256 ^ length bs =
      subst (λ n. low_value (increment bs) < 256 ^ n) (length-increment bs) below in
    elim (carry_cases bs) [
      | inl e ↦
          let equal : low_value bs + 1 ≡ low_value (increment bs) = grind (arith, sum, e) in
          rw (equal) (sym (mod-eq_of_lt below'))
      | inr e ↦
          let equal : low_value bs + 1 ≡ low_value (increment bs) + 256 ^ length bs =
            grind (arith, sum, e) in
          rw (equal, add-mod_right) (sym (mod-eq_of_lt below'))
    ]

-- The bytes from the last to the first.
low_value-append_one :
    (bs : Bytes) (b : ℕ) → low_value (bs ++ b ∷ []) ≡ low_value bs + b * 256 ^ length bs
unfolding low_value
low_value-append_one [] b = omega arith
low_value-append_one (a ∷ rest) b =
    shift_one a b (256 ^ length rest) (256 ^ suc (length rest)) (low_value rest)
      (low_value (rest ++ b ∷ [])) (omega (arith, pow-suc 256 (length rest)))
      (low_value-append_one rest b)
  where
    shift_one : (a b p q x y : ℕ) → q ≡ 256 * p → y ≡ x + b * p → a + 256 * y ≡ a + 256 * x + b * q
    shift_one a b p q x y e h =
        let product : b * q ≡ 256 * (b * p) = rw (e) (grind arith) in omega (arith, product, h)

length-reverse : (bs : Bytes) → length (reverse bs) ≡ length bs
length-reverse [] = refl
length-reverse (b ∷ rest) = rw (reverse-cons, length-append) (omega (arith, length-reverse rest))

low_value-reverse : (bs : Bytes) → low_value (reverse bs) ≡ value bs
low_value-reverse [] = unfold low_value in refl
low_value-reverse (b ∷ rest) =
    rw (reverse-cons, low_value-append_one, length-reverse, low_value-reverse rest) (omega arith)

AreBytes-append : (xs ys : Bytes) → AreBytes xs → AreBytes ys → AreBytes (xs ++ ys)
AreBytes-append [] ys h k = k
AreBytes-append (x ∷ xs) ys h k = (h.0, AreBytes-append xs ys h.1 k)

AreBytes-reverse : (bs : Bytes) → AreBytes bs → AreBytes (reverse bs)
AreBytes-reverse [] h = tt
AreBytes-reverse (b ∷ rest) h =
    rw (reverse-cons b rest)
      (AreBytes-append (reverse rest) (b ∷ []) (AreBytes-reverse rest h.1) (h.0, tt))

-- The address that nextIP gives for an address of bytes is of bytes and as long, and its number is
-- one more, or 0 after the highest.
pub next_ip-successor :
    (ip : Bytes)
    → AreBytes ip
    → (AreBytes (next_ip ip))
      × (length (next_ip ip) ≡ length ip)
      × (value (next_ip ip) ≡ (value ip + 1) % 256 ^ length ip)
unfolding next_ip
next_ip-successor ip h =
    let low = reverse ip in
    let bytes = AreBytes-reverse ip h in
    let numbers =
      sym (low_value-reverse (reverse (increment low)))
      ∙ ap low_value (reverse-reverse (increment low))
      ∙ increment-mod low bytes in
    (
      AreBytes-reverse (increment low) (increment-AreBytes low bytes),
      length-reverse (increment low) ∙ length-increment low ∙ length-reverse ip,
      numbers ∙ ap₂ (λ v n. (v + 1) % 256 ^ n) (low_value-reverse ip) (length-reverse ip),
    )
