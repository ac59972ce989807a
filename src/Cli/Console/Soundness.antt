-- ===== src/Cli/Console/Soundness.antt =====
-- Pieces of the client that keep to the bounds of what they index and give nothing back to the
-- terminal, and that compositions of such pieces are of the kind.
use sum.Prelude.{
  ℕ, zero, suc, [], ◌∷◌, ◌≢◌, ◌≤◌, ◌<◌, ◌≡◌, ◌∙◌, refl, inl, inr, String, Bool, true, false, Option,
  none, some, List, arith,
}
use sum.Prelude.Tests.{Result, ok, err, Option-cases, if◌then◌else◌}
use sum.Prelude.Lists.{length, get_elem?}
use sum.Cli.Console.{
  Act, Console, Ending, returned, failed, exited, panicked, index_out_of_range, nil_pointer,
  continue_with, ◌>>=◌, ◌>>◌, pure, fail, exit, print, readline, arg, deref, try, call, check,
}

-- whether an ending is an index out of range
unfoldable pub is_out_of_range : {A : Type 0} → Ending A → Bool
is_out_of_range (returned a) = false
is_out_of_range (failed e) = false
is_out_of_range (exited n) = false
is_out_of_range (panicked index_out_of_range) = true
is_out_of_range (panicked nil_pointer) = false

get_elem?-lt : (args : List String) (i : ℕ) → i < length args → get_elem? args i ≢ none
get_elem?-lt [] i h = absurd (omega arith)
get_elem?-lt (a ∷ args) zero h = ground arith
get_elem?-lt (a ∷ args) (suc i) h = get_elem?-lt args i (omega arith)

module _ {W : Type 0} where
  -- from here on, at most the input of there is left, with the same closing, and no index was out of
  -- range
  unfoldable pub IsSoundFrom : {A : Type 0} → Console W → Console W × Ending A → Type 0
  IsSoundFrom c (c', e) =
      (length c'.input ≤ length c.input) × (is_out_of_range e ≡ false) × (c'.closing ≡ c.closing)

  pub record IsSound {A : Type 0} (m : Act W A) : Type 0 where
    pub on : (c : Console W) → IsSoundFrom c (m c)

  continue_with-IsSound :
      {A B : Type 0} (f : A → Act W B) (c : Console W) (out : Console W × Ending A)
      → ((a : A) → IsSound (f a))
      → IsSoundFrom c out
      → IsSoundFrom c (continue_with f out)
  unfolding IsSoundFrom continue_with is_out_of_range
  continue_with-IsSound f c (c', returned a) h (k, _, same) =
      let (below, fine, same') = (h a).on c' in (omega arith, fine, same' ∙ same)
  continue_with-IsSound f c (c', failed e) h (k, _, same) = (k, refl, same)
  continue_with-IsSound f c (c', exited n) h (k, _, same) = (k, refl, same)
  continue_with-IsSound f c (c', panicked index_out_of_range) h (k, bad, same) =
      absurd (ground arith)
  continue_with-IsSound f c (c', panicked nil_pointer) h (k, _, same) = (k, refl, same)

  pub bind-IsSound :
      {A B : Type 0} {m : Act W A} {f : A → Act W B}
      → IsSound m
      → ((a : A) → IsSound (f a))
      → IsSound (m >>= f)
  unfolding ◌>>=◌
  bind-IsSound {m} {f} h k = record { on = λ c. continue_with-IsSound f c (m c) k (h.on c) }

  pub then-IsSound :
      {A B : Type 0} {m : Act W A} {k : Act W B} → IsSound m → IsSound k → IsSound (m >> k)
  unfolding ◌>>◌
  then-IsSound h k = bind-IsSound h (λ _. k)

  pub pure-IsSound : {A : Type 0} (a : A) → IsSound (pure a)
  unfolding IsSoundFrom pure is_out_of_range
  pure-IsSound a = record { on = λ c. (omega arith, refl, refl) }

  pub fail-IsSound : {A : Type 0} (e : String) → IsSound (fail {A = A} e)
  unfolding IsSoundFrom fail is_out_of_range
  fail-IsSound e = record { on = λ c. (omega arith, refl, refl) }

  pub exit-IsSound : {A : Type 0} (n : ℕ) → IsSound (exit {A = A} n)
  unfolding IsSoundFrom exit is_out_of_range
  exit-IsSound n = record { on = λ c. (omega arith, refl, refl) }

  pub print-IsSound : (s : String) → IsSound (print s)
  unfolding IsSoundFrom print is_out_of_range
  print-IsSound s = record { on = λ c. (omega arith, refl, refl) }

  pub readline-IsSound : IsSound readline
  unfolding IsSoundFrom readline is_out_of_range
  readline-IsSound = record { on = λ c. (ground (arith)) }

  pub arg-IsSound : (args : List String) (i : ℕ) → i < length args → IsSound (arg args i)
  unfolding IsSoundFrom arg is_out_of_range
  arg-IsSound args i h = record {
    on = λ c. elim (Option-cases (get_elem? args i)) [
      | inl e ↦ absurd (get_elem?-lt args i h e)
      | inr (a, e) ↦ rw (arg, e) (omega arith, refl, refl)
    ];
  }

  pub deref-IsSound : {A : Type 0} (o : Option A) → IsSound (deref o)
  unfolding IsSoundFrom deref is_out_of_range
  deref-IsSound none = record { on = λ c. (omega arith, refl, refl) }
  deref-IsSound (some a) = record { on = λ c. (omega arith, refl, refl) }

  pub try-IsSound : {A : Type 0} (r : Result String A) → IsSound (try r)
  unfolding IsSoundFrom try is_out_of_range
  try-IsSound (ok a) = record { on = λ c. (omega arith, refl, refl) }
  try-IsSound (err e) = record { on = λ c. (omega arith, refl, refl) }

  pub call-IsSound : {A : Type 0} (f : W → W × Result String A) → IsSound (call f)
  unfolding IsSoundFrom call
  call-IsSound f = record {
    on = λ c. (try-IsSound ((f c.world).1)).on (record c { world = (f c.world).0 });
  }

  pub check-IsSound : (b : Bool) (msg : String) → IsSound (check b msg)
  unfolding IsSoundFrom check is_out_of_range
  check-IsSound true msg = record { on = λ c. (omega arith, refl, refl) }
  check-IsSound false msg = record { on = λ c. (omega arith, refl, refl) }

module _ {W : Type 0} where
  pub if-IsSound :
      {A : Type 0} (b : Bool) {m k : Act W A} → IsSound m → IsSound k → IsSound (if b then m else k)
  if-IsSound true h k = h
  if-IsSound false h k = k

pub ruleset sound_parts = (
  bind-IsSound, then-IsSound, pure-IsSound, fail-IsSound, exit-IsSound, print-IsSound,
  readline-IsSound, arg-IsSound, deref-IsSound, try-IsSound, call-IsSound, check-IsSound,
  if-IsSound,
)
