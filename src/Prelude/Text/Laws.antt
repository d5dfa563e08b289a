-- ===== src/Prelude/Text/Laws.antt =====
-- What `to_string` writes, `atoi` reads back, and which characters it writes.
use projects_cpp.Prelude.{
  ℕ, zero, suc, ◌+◌, ◌-◌, ◌*◌, ◌/◌, ◌%◌, ◌≤◌, ◌<◌, ◌≡◌, refl, ap, ◌∙◌, ◌⊎◌, inl, inr, [], ◌∷◌, ◌++◌,
  arith, ap₂, ◌≢◌, true, false, ◌==◌, ==_iff, ltb, ltb→lt, All, Bool-cases, All-append, some,
}
use projects_cpp.Prelude.Int.{ℤ, pos, negsuc}
use projects_cpp.Prelude.Text.Decimal.{
  Text, text_eq, digits_from, digits, to_string, scan, atoi, number, stoi, negate,
}

-- A digit's code.
abbrev pub IsDigit : ℕ → Type 0
IsDigit c = (48 ≤ c) × (c ≤ 57)

digits_from-IsDigit : (f n : ℕ) → All IsDigit (digits_from f n)
unfolding digits_from
digits_from-IsDigit zero n = tt
digits_from-IsDigit (suc f) n = elim (Bool-cases (ltb n 10)) [
  | inl e ↦ rw e (omega (arith, ltb→lt n 10 e))
  | inr e ↦ rw e (
      All-append IsDigit (digits_from f (n / 10)) ((n % 10 + 48) ∷ [])
        (digits_from-IsDigit f (n / 10)) (omega arith))
]

scan-snoc :
    (acc : ℕ) (xs : Text) (c : ℕ)
    → All IsDigit xs
    → IsDigit c
    → scan acc (xs ++ c ∷ []) ≡ scan acc xs * 10 + (c - 48)
unfolding scan
scan-snoc acc [] c h d = ground arith
scan-snoc acc (x ∷ xs) c h d = ground (arith, scan-snoc (acc * 10 + (x - 48)) xs c h.1 d)

scan-digits_from : (f n : ℕ) → n < f → scan 0 (digits_from f n) ≡ n
unfolding digits_from
scan-digits_from zero n h = elim h [ ]
scan-digits_from (suc f) n h = elim (Bool-cases (ltb n 10)) [
  | inl e ↦ rw e (unfold scan in ground arith)
  | inr e ↦ rw e (
      omega (
        arith,
        scan-snoc 0 (digits_from f (n / 10)) (n % 10 + 48) (digits_from-IsDigit f (n / 10))
            (omega arith),
        scan-digits_from f (n / 10) (ground arith),
      ))
]

atoi_of_digits : (s : Text) → All IsDigit s → atoi s ≡ pos (scan 0 s)
unfolding atoi scan
atoi_of_digits [] h = refl
atoi_of_digits (c ∷ s) h = ground arith

pub digits-IsDigit : (n : ℕ) → All IsDigit (digits n)
unfolding digits
digits-IsDigit n = digits_from-IsDigit (suc n) n

pub scan-digits : (n : ℕ) → scan 0 (digits n) ≡ n
unfolding digits
scan-digits n = scan-digits_from (suc n) n (omega arith)

-- `atoi` reads back what `to_string` wrote.
pub atoi-to_string : (z : ℤ) → atoi (to_string z) ≡ z
unfolding to_string
atoi-to_string (pos n) = atoi_of_digits (digits n) (digits-IsDigit n) ∙ ap pos (scan-digits n)
atoi-to_string (negsuc n) = unfold atoi in rw (scan-digits (suc n))

-- `to_string` writes digits and the minus sign only.
abbrev pub IsNumeral : ℕ → Type 0
IsNumeral c = IsDigit c ⊎ (c ≡ 45)

IsDigit-IsNumeral : (s : Text) → All IsDigit s → All IsNumeral s
IsDigit-IsNumeral [] h = tt
IsDigit-IsNumeral (c ∷ s) h = (inl h.0, IsDigit-IsNumeral s h.1)

pub to_string-IsNumeral : (z : ℤ) → All IsNumeral (to_string z)
unfolding to_string
to_string-IsNumeral (pos n) = IsDigit-IsNumeral (digits n) (digits-IsDigit n)
to_string-IsNumeral (negsuc n) =
    (inr refl, IsDigit-IsNumeral (digits (suc n)) (digits-IsDigit (suc n)))

snoc-cons : (xs : Text) (y : ℕ) → (c : ℕ) × (s : Text) × (xs ++ y ∷ [] ≡ c ∷ s)
snoc-cons [] y = (y, [], refl)
snoc-cons (x ∷ xs) y = (x, xs ++ y ∷ [], refl)

pub digits-cons : (n : ℕ) → (c : ℕ) × (s : Text) × (digits n ≡ c ∷ s)
unfolding digits digits_from
digits-cons n = elim (Bool-cases (ltb n 10)) [
  | inl e ↦ (n + 48, [], rw e)
  | inr e ↦ rw e (snoc-cons (digits_from n (n / 10)) (n % 10 + 48))
]

-- A numeral is never empty.
pub to_string-cons : (z : ℤ) → (c : ℕ) × (s : Text) × (to_string z ≡ c ∷ s)
unfolding to_string
to_string-cons (pos n) = digits-cons n
to_string-cons (negsuc n) = (45, digits (suc n), refl)

number-digits :
    (sign : ℕ → ℤ) (s : Text)
    → All IsDigit s
    → (c : ℕ) (t : Text) → s ≡ c ∷ t
    → number sign s ≡ some (sign (scan 0 s))
number-digits sign [] h c t e = absurd (nil-ne e)
  where
    nil-ne : {c : ℕ} {t : Text} → [] ≡ c ∷ t → ⊥
    nil-ne q = cc
number-digits sign (d ∷ s) h c t e = ground arith

stoi_of_digits : (s : Text) → All IsDigit s → (c : ℕ) (t : Text) → s ≡ c ∷ t → stoi s ≡ number pos s
unfolding stoi
stoi_of_digits [] h c t e = refl
stoi_of_digits (d ∷ s) h c t e = ground arith

-- So does `stoi`.
pub stoi-to_string : (z : ℤ) → stoi (to_string z) ≡ some z
unfolding to_string
stoi-to_string (pos n) =
    let (c, s, e) = digits-cons n in
    stoi_of_digits (digits n) (digits-IsDigit n) c s e
    ∙ number-digits pos (digits n) (digits-IsDigit n) c s e
    ∙ ap (λ m. some (pos m)) (scan-digits n)
stoi-to_string (negsuc n) =
    let (c, s, e) = digits-cons (suc n) in
    unfold stoi in
    number-digits negate (digits (suc n)) (digits-IsDigit (suc n)) c s e
    ∙ ap (λ m. some (negate m)) (scan-digits (suc n))

pub text_eq→eq : (s t : Text) → text_eq s t ≡ true → s ≡ t
text_eq→eq [] [] h = refl
text_eq→eq [] (d ∷ t) h = ground arith
text_eq→eq (c ∷ s) [] h = ground arith
text_eq→eq (c ∷ s) (d ∷ t) h = elim (Bool-cases (c == d)) [
  | inl e ↦ ap₂ (λ x y. x ∷ y) ((==_iff c d).0 e) (text_eq→eq s t (rw e at h))
  | inr e ↦ ground arith
]

pub text_eq-ne : (s t : Text) → s ≢ t → text_eq s t ≡ false
text_eq-ne s t h = elim (Bool-cases (text_eq s t)) [
  | inl e ↦ absurd (h (text_eq→eq s t e))
  | inr e ↦ e
]
