-- ===== src/Config/Size.antt =====
-- `parse_size` of src/config.cpp: a decimal number with an optional binary suffix.
use local_cache_service.Base.{
  ℕ, ◌+◌, ◌-◌, ◌*◌, ◌/◌, ◌%◌, ◌^◌, ◌≤◌, ◌<◌, ◌≡◌, refl, ◌⊎◌, inl, inr, ◌↔◌, sym, ap, ap₂, ◌∙◌, [],
  ◌∷◌, ◌++◌, append-nil, Bool-cases, false, Bytes, u64_mod, arith, Option, none, some, Bool, true,
  ltb, ◌==◌, ◌||◌, ◌&&◌, if◌then◌else◌, ◌>>=◌,
}

abbrev pub size_max : ℕ
size_max = 2 ^ 64 - 1

-- the loop over the characters
unfoldable pub parse_digits : ℕ → Bytes → Option ℕ
parse_digits value [] = some value
parse_digits value (c ∷ text) =
    let digit = c - b'0' in
    let rest = parse_digits ((value * 10 + digit) % u64_mod) text in
    if ltb c b'0' || ltb b'9' c
    then none
    else if ltb ((size_max - digit) / 10) value
    then none
    else rest

-- text.back(), for a text that is not empty
abbrev pub back : ℕ → Bytes → ℕ
back c [] = c
back c (d ∷ text) = back d text

-- text.remove_suffix(1), for a text that is not empty
abbrev pub remove_suffix : ℕ → Bytes → Bytes
remove_suffix c [] = []
remove_suffix c (d ∷ text) = c ∷ remove_suffix d text

-- the switch on the suffix; 1 for a suffix that is none
unfoldable pub multiplier : ℕ → ℕ
multiplier suffix =
    if suffix == b'k' || suffix == b'K'
    then 1024
    else if suffix == b'm' || suffix == b'M'
    then 1024 * 1024
    else if suffix == b'g' || suffix == b'G'
    then 1024 * 1024 * 1024
    else 1

-- what is left of the text behind the switch
unfoldable pub without_suffix : ℕ → Bytes → Bytes
without_suffix c text = if multiplier (back c text) == 1 then c ∷ text else remove_suffix c text

-- behind the second test for an empty text
unfoldable pub scaled : ℕ → Bytes → Option ℕ
scaled factor text = parse_digits 0 text >>= λ value.
    if ltb 1 factor && ltb (size_max / factor) value then none else some (value * factor % u64_mod)

unfoldable pub parse_number : ℕ → Bytes → Option ℕ
parse_number factor [] = none
parse_number factor (c ∷ text) = scaled factor (c ∷ text)

unfoldable pub parse_size : Bytes → Option ℕ
parse_size [] = none
parse_size (c ∷ text) = parse_number (multiplier (back c text)) (without_suffix c text)

-- The reference, on numbers of any size.
abbrev pub all_digits : Bytes → Bool
all_digits [] = true
all_digits (c ∷ text) = (ltb c b'9' || c == b'9') && (ltb b'0' c || c == b'0') && all_digits text

abbrev pub decimal : ℕ → Bytes → ℕ
decimal value [] = value
decimal value (c ∷ text) = decimal (value * 10 + (c - b'0')) text

decimal_grows : (value : ℕ) (text : Bytes) → value ≤ decimal value text
decimal_grows value [] = omega arith
decimal_grows value (c ∷ text) = omega (arith, decimal_grows (value * 10 + (c - b'0')) text)

-- The loop gives up at the first character that is no digit, or that would carry the value past
-- `size_max`; otherwise it gives the number.
pub parse_digits-decimal :
    (value : ℕ) (text : Bytes)
    → value ≤ size_max
    → parse_digits value text ≡ (
        if all_digits text && ltb (decimal value text) u64_mod
        then some (decimal value text)
        else none)
unfolding parse_digits
parse_digits-decimal value [] h = ground arith
parse_digits-decimal value (c ∷ text) h = ground (
  arith,
  decimal_grows (value * 10 + (c - b'0')) text,
  parse_digits-decimal (value * 10 + (c - b'0')) text,
)

multiplier_pos : (suffix : ℕ) → (0 < multiplier suffix) × (multiplier suffix ≤ 2 ^ 30)
unfolding multiplier
multiplier_pos suffix = ground arith

-- What an option's value means: digits, perhaps a suffix, and a number below 2 ^ 64.
abbrev pub size_of : ℕ → Bytes → Option ℕ
size_of factor [] = none
size_of factor (c ∷ text) =
    if all_digits (c ∷ text) && ltb (decimal 0 (c ∷ text) * factor) u64_mod
    then some (decimal 0 (c ∷ text) * factor)
    else none

-- The factors of the switch.
abbrev IsFactor : ℕ → Type 0
IsFactor f = (f ≡ 1) ⊎ ((f ≡ 1024) ⊎ ((f ≡ 1024 * 1024) ⊎ (f ≡ 1024 * 1024 * 1024)))

multiplier-IsFactor : (suffix : ℕ) → IsFactor (multiplier suffix)
unfolding multiplier
multiplier-IsFactor suffix = ground arith

-- The test by division is the test on the product.
fits_by_division :
    (f value : ℕ)
    → IsFactor f
    → value < u64_mod
    → (if ltb 1 f && ltb (size_max / f) value then none else some (value * f % u64_mod))
      ≡ (if ltb (value * f) u64_mod then some (value * f) else none)
fits_by_division f value (inl e) h = rw e (ground arith)
fits_by_division f value (inr (inl e)) h = rw e (ground arith)
fits_by_division f value (inr (inr (inl e))) h = rw e (ground arith)
fits_by_division f value (inr (inr (inr e))) h = rw e (ground arith)

factor_grows : (f value : ℕ) → IsFactor f → value ≤ value * f
factor_grows f value (inl e) = rw e (omega arith)
factor_grows f value (inr (inl e)) = rw e (omega arith)
factor_grows f value (inr (inr (inl e))) = rw e (omega arith)
factor_grows f value (inr (inr (inr e))) = rw e (omega arith)

scaled-size_of : (f c : ℕ) (text : Bytes) → IsFactor f → scaled f (c ∷ text) ≡ size_of f (c ∷ text)
unfolding scaled
scaled-size_of f c text h =
    let value = decimal 0 (c ∷ text) in
    ground
      (arith, parse_digits-decimal 0 (c ∷ text), fits_by_division f value h, factor_grows f value h)

parse_number-size_of : (f : ℕ) (text : Bytes) → IsFactor f → parse_number f text ≡ size_of f text
unfolding parse_number
parse_number-size_of f [] h = refl
parse_number-size_of f (c ∷ text) h = scaled-size_of f c text h

pub parse_size-size_of :
    (c : ℕ) (text : Bytes)
    → parse_size (c ∷ text) ≡ size_of (multiplier (back c text)) (without_suffix c text)
unfolding parse_size
parse_size-size_of c text =
    parse_number-size_of (multiplier (back c text)) (without_suffix c text)
      (multiplier-IsFactor (back c text))

-- The suffixes that there are, what each is written as, and what it stands for.
pub data Suffix : Type 0 where
  plain kilo mega giga upper_kilo upper_mega upper_giga : Suffix

abbrev pub letters : Suffix → Bytes
letters plain = []
letters kilo = b'k' ∷ []
letters mega = b'm' ∷ []
letters giga = b'g' ∷ []
letters upper_kilo = b'K' ∷ []
letters upper_mega = b'M' ∷ []
letters upper_giga = b'G' ∷ []

abbrev pub scale : Suffix → ℕ
scale plain = 1
scale kilo = 2 ^ 10
scale mega = 2 ^ 20
scale giga = 2 ^ 30
scale upper_kilo = 2 ^ 10
scale upper_mega = 2 ^ 20
scale upper_giga = 2 ^ 30

-- Digits and a suffix, and the number of them.
pub record IsSize (text : Bytes) (n : ℕ) : Type 0 where
  pub first : ℕ
  pub digits : Bytes
  pub suffix : Suffix
  pub written : text ≡ (first ∷ digits) ++ letters suffix
  pub decimals : all_digits (first ∷ digits) ≡ true
  pub number : n ≡ decimal 0 (first ∷ digits) * scale suffix
  pub fits : n < 2 ^ 64

split_last : (c : ℕ) (text : Bytes) → c ∷ text ≡ remove_suffix c text ++ (back c text ∷ [])
split_last c [] = refl
split_last c (d ∷ text) = ap (◌∷◌ c) (split_last d text)

-- The suffix of a text, and what is in front of it.
record IsSplit (c : ℕ) (text : Bytes) : Type 0 where
  suffix : Suffix
  factor : multiplier (back c text) ≡ scale suffix
  written : c ∷ text ≡ without_suffix c text ++ letters suffix

suffixed :
    (c : ℕ) (text : Bytes) (s : Suffix)
    → multiplier (back c text) ≡ scale s
    → (scale s == 1) ≡ false
    → letters s ≡ back c text ∷ []
    → IsSplit c text
unfolding without_suffix
suffixed c text s e n l = record {
  suffix = s;
  factor = e;
  written = rw (e, n, l) (split_last c text);
}

-- The suffix that a last character is.
data IsLast (x : ℕ) : Type 0 where
  letter :
      (s : Suffix) → multiplier x ≡ scale s → (scale s == 1) ≡ false → letters s ≡ x ∷ [] → IsLast x
  other : multiplier x ≡ 1 → IsLast x

is_letter :
    (x y : ℕ) (s : Suffix)
    → (x == y) ≡ true
    → multiplier y ≡ scale s
    → (scale s == 1) ≡ false
    → letters s ≡ y ∷ []
    → IsLast x
is_letter x y s e f n l = let same : x ≡ y = ground (arith, e) in letter s (rw same f) n (rw same l)

multiplier-IsLast : (x : ℕ) → IsLast x
unfolding multiplier
multiplier-IsLast x = elim (Bool-cases (x == b'k')) [
  | inl e ↦ is_letter x b'k' kilo e refl refl refl
  | inr e0 ↦ elim (Bool-cases (x == b'K')) [
    | inl e ↦ is_letter x b'K' upper_kilo e refl refl refl
    | inr e1 ↦ elim (Bool-cases (x == b'm')) [
      | inl e ↦ is_letter x b'm' mega e refl refl refl
      | inr e2 ↦ elim (Bool-cases (x == b'M')) [
        | inl e ↦ is_letter x b'M' upper_mega e refl refl refl
        | inr e3 ↦ elim (Bool-cases (x == b'g')) [
          | inl e ↦ is_letter x b'g' giga e refl refl refl
          | inr e4 ↦ elim (Bool-cases (x == b'G')) [
            | inl e ↦ is_letter x b'G' upper_giga e refl refl refl
            | inr e5 ↦ other (ground (arith, e0, e1, e2, e3, e4, e5))
          ]
        ]
      ]
    ]
  ]
]

split : (c : ℕ) (text : Bytes) → IsSplit c text
unfolding without_suffix
split c text = elim (multiplier-IsLast (back c text)) [
  | letter s e n l ↦ suffixed c text s e n l
  | other e ↦ record { suffix = plain; factor = e; written = rw e (sym (append-nil (c ∷ text))) }
]

-- What the reference says of a text with its suffix taken off.
size_of-IsSize :
    (body text : Bytes) (s : Suffix) (n : ℕ)
    → text ≡ body ++ letters s
    → size_of (scale s) body ≡ some n
    → IsSize text n
size_of-IsSize [] text s n w e = absurd cc
size_of-IsSize (c ∷ body) text s n w e = elim (Bool-cases (all_digits (c ∷ body))) [
  | inr h ↦ absurd (ground (arith, h, e))
  | inl h ↦ elim (Bool-cases (ltb (decimal 0 (c ∷ body) * scale s) u64_mod)) [
    | inr k ↦ absurd (ground (arith, h, k, e))
    | inl k ↦
        let same : decimal 0 (c ∷ body) * scale s ≡ n = ground (arith, h, k, e) in
        record {
          first = c;
          digits = body;
          suffix = s;
          written = w;
          decimals = h;
          number = sym same;
          fits = ground (arith, k, same);
        }
  ]
]

-- The last character of digits is a digit.
back_digit : (c : ℕ) (text : Bytes) → all_digits (c ∷ text) ≡ true → multiplier (back c text) ≡ 1
unfolding multiplier
back_digit c [] h = ground (arith, h)
back_digit c (d ∷ text) h = back_digit d text (ground (arith, h))

back-append : (c : ℕ) (text : Bytes) (x : ℕ) → back c (text ++ (x ∷ [])) ≡ x
back-append c [] x = refl
back-append c (d ∷ text) x = back-append d text x

remove_suffix-append :
    (c : ℕ) (text : Bytes) (x : ℕ) → remove_suffix c (text ++ (x ∷ [])) ≡ c ∷ text
remove_suffix-append c [] x = refl
remove_suffix-append c (d ∷ text) x = ap (◌∷◌ c) (remove_suffix-append d text x)

parse_lettered :
    (c : ℕ) (text : Bytes) (s : Suffix) (x : ℕ)
    → multiplier x ≡ scale s
    → (scale s == 1) ≡ false
    → parse_size (c ∷ (text ++ (x ∷ []))) ≡ size_of (scale s) (c ∷ text)
unfolding without_suffix
parse_lettered c text s x e n =
    let f = ap multiplier (back-append c text x) ∙ e in
    let body : without_suffix c (text ++ (x ∷ [])) ≡ c ∷ text =
      rw (f, n) (remove_suffix-append c text x) in
    parse_size-size_of c (text ++ (x ∷ [])) ∙ ap₂ size_of f body

plain_size :
    (c : ℕ) (text : Bytes)
    → all_digits (c ∷ text) ≡ true
    → size_of (multiplier (back c text)) (without_suffix c text) ≡ size_of 1 (c ∷ text)
unfolding without_suffix
plain_size c text h =
    let f = back_digit c text h in
    let body : without_suffix c text ≡ c ∷ text = rw f refl in ap₂ size_of f body

parse_suffixed :
    (c : ℕ) (text : Bytes) (s : Suffix)
    → all_digits (c ∷ text) ≡ true
    → parse_size ((c ∷ text) ++ letters s) ≡ size_of (scale s) (c ∷ text)
unfolding multiplier
parse_suffixed c text plain h =
    ap parse_size (append-nil (c ∷ text)) ∙ parse_size-size_of c text ∙ plain_size c text h
parse_suffixed c text kilo h = parse_lettered c text kilo b'k' refl refl
parse_suffixed c text mega h = parse_lettered c text mega b'm' refl refl
parse_suffixed c text giga h = parse_lettered c text giga b'g' refl refl
parse_suffixed c text upper_kilo h = parse_lettered c text upper_kilo b'K' refl refl
parse_suffixed c text upper_mega h = parse_lettered c text upper_mega b'M' refl refl
parse_suffixed c text upper_giga h = parse_lettered c text upper_giga b'G' refl refl

parse_size_sound : (text : Bytes) (n : ℕ) → parse_size text ≡ some n → IsSize text n
unfolding parse_size
parse_size_sound [] n e = absurd cc
parse_size_sound (c ∷ text) n e =
    let s = split c text in
    size_of-IsSize (without_suffix c text) (c ∷ text) s.suffix n s.written
      (rw (sym s.factor) (sym (parse_size-size_of c text) ∙ e))

-- parse_size accepts a text with a number exactly when the text is one or more digits, perhaps
-- with one of the suffixes k, m, g, K, M, G behind them, and the number is that of the digits
-- times 1, 2 ^ 10, 2 ^ 20 or 2 ^ 30 for the suffix and is below 2 ^ 64.
pub parse_size_iff : (text : Bytes) (n : ℕ) → (parse_size text ≡ some n) ↔ IsSize text n
parse_size_iff text n = (
  parse_size_sound text n,
  λ v.
      ap parse_size v.written
      ∙ parse_suffixed v.first v.digits v.suffix v.decimals
      ∙ ground (arith, v.decimals, v.number, v.fits),
)
