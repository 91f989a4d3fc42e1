-- ===== src/Base/Search.antt =====
-- The first elements of a list that pass a test: whether there is one, which it is, and a change of it.
use Prim.Native.Nat.{ℕ, zero, suc, ◌≤◌, ◌<◌}
use mathlib.Core.Path.{◌≡◌, refl}
use mathlib.Core.Logic.{◌↔◌, inl, inr}
use mathlib.Core.Bool.{Bool, true, false, ◌||◌}
use mathlib.Core.Option.{Option, none, some}
use mathlib.Core.List.{List, [], ◌∷◌}
use native.Mathlib.Omega.{arith}
use backendofcryptotradingbo.Base.Lists.{length, get_or}
use backendofcryptotradingbo.Base.Tests.{if◌then◌else◌, Bool-cases}

module _ {ℓ} {A : Type ℓ} (test : A → Bool) where
  unfoldable pub any_first : ℕ → List A → Bool
  any_first zero xs = false
  any_first (suc n) [] = false
  any_first (suc n) (x ∷ xs) = test x || any_first n xs

  any_first-some :
      (n : ℕ) (xs : List A) (d : A)
      → any_first n xs ≡ true
      → (i : ℕ) × (i < n) × (test (get_or xs i d) ≡ true)
  unfolding any_first
  any_first-some zero xs d e = cc
  any_first-some (suc n) [] d e = cc
  any_first-some (suc n) (x ∷ xs) d e = elim (Bool-cases (test x)) [
    | inl hit ↦ (0, omega arith, hit)
    | inr miss ↦
        let (i, h, t) = any_first-some n xs d (rw miss at e) in (suc i, omega (arith, h), t)
  ]

  any_first-of :
      (n : ℕ) (xs : List A) (d : A) (i : ℕ)
      → n ≤ length xs
      → i < n
      → test (get_or xs i d) ≡ true
      → any_first n xs ≡ true
  unfolding any_first
  any_first-of zero xs d i l h t = absurd (omega arith)
  any_first-of (suc n) [] d i l h t = absurd (omega arith)
  any_first-of (suc n) (x ∷ xs) d zero l h t = rw t refl
  any_first-of (suc n) (x ∷ xs) d (suc i) l h t =
      let rest = any_first-of n xs d i (omega arith) (omega arith) t in ground (arith, rest)

  pub any_first_iff :
      (n : ℕ) (xs : List A) (d : A)
      → n ≤ length xs
      → (any_first n xs ≡ true) ↔ ((i : ℕ) × (i < n) × (test (get_or xs i d) ≡ true))
  any_first_iff n xs d l =
      ((λ e. any_first-some n xs d e), (λ (i, h, t). any_first-of n xs d i l h t))

-- A loop that changes the first of the first `n` elements that passes a test, and stops
unfoldable pub update_first : {A : Type 0} → (A → Bool) → (A → A) → ℕ → List A → List A
update_first test change zero xs = xs
update_first test change (suc n) [] = []
update_first test change (suc n) (x ∷ xs) =
    if test x then change x ∷ xs else x ∷ update_first test change n xs

unfoldable pub find_first : {A : Type 0} → (A → Bool) → ℕ → List A → Option A
find_first test zero xs = none
find_first test (suc n) [] = none
find_first test (suc n) (x ∷ xs) = if test x then some x else find_first test n xs

pub length-update_first :
    {A : Type 0} (test : A → Bool) (change : A → A) (m : ℕ) (xs : List A)
    → length (update_first test change m xs) ≡ length xs
unfolding update_first
length-update_first test change zero xs = refl
length-update_first test change (suc m) [] = refl
length-update_first test change (suc m) (x ∷ xs) =
    ground (arith, length-update_first test change m xs)
