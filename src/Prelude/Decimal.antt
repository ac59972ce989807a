-- ===== src/Prelude/Decimal.antt =====
-- `strconv.FormatUint(n, 10)` and `strconv.ParseUint(s, 10, 64)`.
use Prim.Native.Nat.{ℕ, zero, suc, ◌+◌, ◌-◌, ◌*◌, ◌/◌, ◌%◌, ◌^◌, ◌<◌}
use Prim.Native.Char.{Char, code}
use Prim.Native.String.{String}
use mathlib.Core.Path.{◌≡◌, refl, ap, ◌∙◌, sym}
use mathlib.Core.Logic.{inl, inr}
use mathlib.Core.Bool.{◌&&◌}
use mathlib.Core.Option
use mathlib.Core.Option.{Option, none, some}
use native.Mathlib.Omega.{arith}
use sum.Prelude.Tests.{ltb, leb, if◌then◌else◌, Bool-cases, lt→ltb}

digit : ℕ → Char
digit zero = "0"
digit (suc zero) = "1"
digit (suc (suc zero)) = "2"
digit (suc (suc (suc zero))) = "3"
digit (suc (suc (suc (suc zero)))) = "4"
digit (suc (suc (suc (suc (suc zero))))) = "5"
digit (suc (suc (suc (suc (suc (suc zero)))))) = "6"
digit (suc (suc (suc (suc (suc (suc (suc zero))))))) = "7"
digit (suc (suc (suc (suc (suc (suc (suc (suc zero)))))))) = "8"
digit _ = "9"

-- the digits of `n` before the text `s`; a number below the fuel has fewer digits than the fuel
format_from : ℕ → ℕ → String → String
format_from zero n s = s
format_from (suc fuel) n s =
    let t = String.◌∷◌ (digit (n % 10)) s in
    let rest = format_from fuel (n / 10) t in if ltb n 10 then t else rest

unfoldable pub format_uint : ℕ → String
unfolding format_from digit
format_uint n = format_from (suc n) n String.[]

-- the value of the digits of a text after those that gave `n`; any other character is an error
parse_from : ℕ → String → Option ℕ
parse_from n String.[] = some n
parse_from n (String.◌∷◌ c s) =
    if leb 48 (code c) && leb (code c) 57 then parse_from (n * 10 + (code c - 48)) s else none

-- an empty text and a value of more than 64 bits are errors
unfoldable pub parse_uint : String → Option ℕ
unfolding parse_from
parse_uint String.[] = none
parse_uint (String.◌∷◌ c s) = elim (parse_from 0 (String.◌∷◌ c s)) [
  | none ↦ none
  | some n ↦ if ltb n (2 ^ 64) then some n else none
]

parse-digit :
    (m d : ℕ) (s : String)
    → d < 10
    → parse_from m (String.◌∷◌ (digit d) s) ≡ parse_from (m * 10 + d) s
unfolding parse_from digit
parse-digit m zero s h = refl
parse-digit m (suc zero) s h = refl
parse-digit m (suc (suc zero)) s h = refl
parse-digit m (suc (suc (suc zero))) s h = refl
parse-digit m (suc (suc (suc (suc zero)))) s h = refl
parse-digit m (suc (suc (suc (suc (suc zero))))) s h = refl
parse-digit m (suc (suc (suc (suc (suc (suc zero)))))) s h = refl
parse-digit m (suc (suc (suc (suc (suc (suc (suc zero))))))) s h = refl
parse-digit m (suc (suc (suc (suc (suc (suc (suc (suc zero)))))))) s h = refl
parse-digit m (suc (suc (suc (suc (suc (suc (suc (suc (suc zero))))))))) s h = refl
parse-digit m (suc (suc (suc (suc (suc (suc (suc (suc (suc (suc n)))))))))) s h =
    absurd (omega arith)

parse-format_from :
    (fuel n : ℕ) (s : String) → n < fuel → parse_from 0 (format_from fuel n s) ≡ parse_from n s
unfolding format_from
parse-format_from zero n s h = absurd (omega arith)
parse-format_from (suc fuel) n s h = elim (Bool-cases (ltb n 10)) [
  | inl e ↦ rw e (
      parse-digit 0 (n % 10) s (omega arith)
      ∙ ap (λ k. parse_from k s) {x = 0 * 10 + n % 10} {y = n} (ground arith))
  | inr e ↦ rw e (
      parse-format_from fuel (n / 10) (String.◌∷◌ (digit (n % 10)) s) (ground arith)
      ∙ parse-digit (n / 10) (n % 10) s (omega arith)
      ∙ ap (λ k. parse_from k s) {x = n / 10 * 10 + n % 10} {y = n} (omega arith))
]

format_from-cons :
    (fuel n : ℕ) (c : Char) (s : String)
    → (d : Char) × (t : String) × (format_from fuel n (String.◌∷◌ c s) ≡ String.◌∷◌ d t)
unfolding format_from
format_from-cons zero n c s = (c, s, refl)
format_from-cons (suc fuel) n c s = elim (Bool-cases (ltb n 10)) [
  | inl e ↦ (digit (n % 10), String.◌∷◌ c s, rw e refl)
  | inr e ↦ rw e (format_from-cons fuel (n / 10) (digit (n % 10)) (String.◌∷◌ c s))
]

format_uint-cons : (n : ℕ) → (d : Char) × (t : String) × (format_uint n ≡ String.◌∷◌ d t)
unfolding format_uint
format_uint-cons n = elim (Bool-cases (ltb n 10)) [
  | inl e ↦ (digit (n % 10), String.[], rw e refl)
  | inr e ↦ rw e (format_from-cons n (n / 10) (digit (n % 10)) String.[])
]

parse_uint_of_value :
    (s t : String) (c : Char) (n : ℕ)
    → s ≡ String.◌∷◌ c t
    → parse_from 0 s ≡ some n
    → n < 2 ^ 64
    → parse_uint s ≡ some n
unfolding parse_uint
parse_uint_of_value s t c n e h lt = rw e (rw (rw e at h, parse_uint) (rw (lt→ltb n (2 ^ 64) lt)))

-- The decimal text of a number parses to the number.
pub parse-format_uint : (n : ℕ) → n < 2 ^ 64 → parse_uint (format_uint n) ≡ some n
unfolding parse_from
parse-format_uint n h =
    let (c, t, e) = format_uint-cons n in
    parse_uint_of_value (format_uint n) t c n e
      (unfold format_uint in parse-format_from (suc n) n String.[] (omega arith)) h

-- So two numbers of 64 bits have different texts.
pub format_uint_inj : (m n : ℕ) → m < 2 ^ 64 → n < 2 ^ 64 → format_uint m ≡ format_uint n → m ≡ n
format_uint_inj m n hm hn e =
    Option.some-injective m n
      (sym (parse-format_uint m hm) ∙ ap parse_uint e ∙ parse-format_uint n hn)
