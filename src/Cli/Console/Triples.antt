-- ===== src/Cli/Console/Triples.antt =====
-- A logic of the pieces of the client: what holds of the services before and after, and what holds
-- whenever a piece ends early.
use sum.Prelude.{ℕ, ◌≡◌, String, Bool, true, false, List, inl, inr}
use sum.Prelude.Tests.{Result, ok, err, Option-cases}
use sum.Prelude.Lists.{get_elem?}
use sum.Cli.Console.{
  Act, Console, Ending, returned, failed, exited, panicked, continue_with, ◌>>=◌, ◌>>◌, print, arg,
  try, call, check,
}

module _ {W : Type 0} (I : W → Type 0) where
  unfoldable pub Post : {A : Type 0} → (A → W → Type 0) → Console W × Ending A → Type 0
  Post Q (c, returned a) = Q a c.world
  Post Q (c, failed e) = I c.world
  Post Q (c, exited n) = I c.world
  Post Q (c, panicked p) = I c.world

  pub record Triple {A : Type 0} (P : W → Type 0) (m : Act W A) (Q : A → W → Type 0) : Type 0 where
    pub run : (c : Console W) → P c.world → Post Q (m c)

  continue_with-Post :
      {A B : Type 0} (f : A → Act W B) (Q : A → W → Type 0) (R : B → W → Type 0)
      (out : Console W × Ending A)
      → ((a : A) → Triple (Q a) (f a) R)
      → Post Q out
      → Post R (continue_with f out)
  unfolding Post continue_with
  continue_with-Post f Q R (c, returned a) h p = (h a).run c p
  continue_with-Post f Q R (c, failed e) h p = p
  continue_with-Post f Q R (c, exited n) h p = p
  continue_with-Post f Q R (c, panicked x) h p = p

  pub bind-Triple :
      {A B : Type 0} {P : W → Type 0} {m : Act W A} {f : A → Act W B} (Q : A → W → Type 0)
      {R : B → W → Type 0}
      → Triple P m Q
      → ((a : A) → Triple (Q a) (f a) R)
      → Triple P (m >>= f) R
  unfolding ◌>>=◌
  bind-Triple {m} {f} Q {R} h k = record {
    run = λ c p. continue_with-Post f Q R (m c) k (h.run c p);
  }

  pub then-Triple :
      {A B : Type 0} {P : W → Type 0} {m : Act W A} {k : Act W B} (Q : W → Type 0)
      {R : B → W → Type 0}
      → Triple P m (λ _. Q)
      → Triple Q k R
      → Triple P (m >> k) R
  unfolding ◌>>◌
  then-Triple Q h k = bind-Triple (λ _. Q) h (λ _. k)

  -- the pieces that do not call a service
  module _ (P : W → Type 0) (weaken : (w : W) → P w → I w) where
    pub arg-Triple : (args : List String) (i : ℕ) → Triple P (arg args i) (λ _. P)
    unfolding arg Post
    arg-Triple args i = record {
      run = λ c p. elim (Option-cases (get_elem? args i)) [
        | inl e ↦ rw (arg, e) (weaken c.world p)
        | inr (a, e) ↦ rw (arg, e) p
      ];
    }

    pub try-Triple : {A : Type 0} (r : Result String A) → Triple P (try r) (λ _. P)
    unfolding try Post
    try-Triple (ok a) = record { run = λ c p. p }
    try-Triple (err e) = record { run = λ c p. weaken c.world p }

    pub print-Triple : (s : String) → Triple P (print s) (λ _. P)
    unfolding print Post
    print-Triple s = record { run = λ c p. p }

    pub check-Triple : (b : Bool) (msg : String) → Triple P (check b msg) (λ _. P)
    unfolding check Post
    check-Triple true msg = record { run = λ c p. p }
    check-Triple false msg = record { run = λ c p. weaken c.world p }

  -- a call whose reply is no error of the connection
  pub call-Triple :
      {A : Type 0} (P : W → Type 0) (Q : A → W → Type 0) (f : W → W × Result String A)
      (answer : W → W × A)
      → ((w : W) → f w ≡ ((answer w).0, ok (answer w).1))
      → ((w : W) → P w → Q (answer w).1 (answer w).0)
      → Triple P (call f) Q
  unfolding call try Post
  call-Triple P Q f answer delivered h = record {
    run = λ c p. rw (call, delivered c.world) (h c.world p);
  }
