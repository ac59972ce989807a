-- ===== src/Prelude/Text.antt =====
-- Slices of a text, whose characters stand for the bytes of a Go string.
use Prim.Native.Nat.{ℕ, zero, suc, ◌+◌}
use Prim.Native.String.{String}
use mathlib.Core.Path.{◌≡◌, refl, ap}
use native.Mathlib.Omega.{arith}
use text.Mathlib.TextLemmas.{nil-append, cons-append}
use sum.Prelude.Tests.{◌◇◌}

unfoldable pub size : String → ℕ
size String.[] = 0
size (String.◌∷◌ c s) = suc (size s)

-- `s[:n]` and `s[n:]`, for `n` within the text
unfoldable pub before : ℕ → String → String
before zero s = ""
before (suc n) String.[] = ""
before (suc n) (String.◌∷◌ c s) = String.◌∷◌ c (before n s)

unfoldable pub after : ℕ → String → String
after zero s = s
after (suc n) String.[] = ""
after (suc n) (String.◌∷◌ c s) = after n s

-- `s[:i] + t + s[j:]`
unfoldable pub cut : ℕ → ℕ → String → String → String
unfolding before after
cut i j t s = before i s ◇ t ◇ after j s

pub before-append : (s t : String) → before (size s) (s ◇ t) ≡ s
unfolding before size
before-append String.[] t = refl
before-append (String.◌∷◌ c s) t = rw (cons-append c s t) (ap (String.◌∷◌ c) (before-append s t))

pub after-append : (s t : String) → after (size s) (s ◇ t) ≡ t
unfolding after size
after-append String.[] t = nil-append t
after-append (String.◌∷◌ c s) t = rw (cons-append c s t) (after-append s t)

pub size-append : (s t : String) → size (s ◇ t) ≡ size s + size t
unfolding size
size-append String.[] t = rw (nil-append t) (omega arith)
size-append (String.◌∷◌ c s) t = rw (cons-append c s t) (omega (arith, size-append s t))
