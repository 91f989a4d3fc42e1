-- ===== src/Base/Slices.antt =====
-- Elements of written, cut and joined lists, and remainders of a sum.
use native.Mathlib.Nat.{mod-add-mod, mod-eq_of_lt, mod-eq-sub-mod, mod-lt}
use Prim.Native.Nat.{ℕ, zero, suc, ◌+◌, ◌-◌, ◌%◌, ◌≤◌, ◌<◌}
use mathlib.Core.Path.{◌≡◌, refl, sym, ap, ◌∙◌}
use mathlib.Core.Logic.{inl, inr}
use mathlib.Core.Bool.{◌&&◌}
use mathlib.Core.List.{List, [], ◌∷◌, ◌++◌}
use native.Mathlib.Omega.{arith}
use backendofcryptotradingbo.Base.Tests.{ltb, leb, if◌then◌else◌, Bool-cases}
use backendofcryptotradingbo.Base.Lists.{length, get_or}
use backendofcryptotradingbo.Base.Bytes.{take, drop, write}

pub mod_shift :
    (w k s : ℕ)
    → 0 < s
    → k ≤ s
    → (w + k) % s ≡ (if ltb (w % s + k) s then w % s + k else w % s + k - s)
mod_shift w k s p h = elim (Bool-cases (ltb (w % s + k) s)) [
  | inl inside ↦
      rw inside (sym (mod-add-mod w s k) ∙ mod-eq_of_lt {n = w % s + k} {m = s} (ground arith))
  | inr past ↦
      let le : s ≤ w % s + k = ground (arith, past) in
      let lt : w % s + k - s < s = omega (arith, mod-lt w p) in
      rw past (sym (mod-add-mod w s k) ∙ mod-eq-sub-mod le ∙ mod-eq_of_lt lt)
]

module _ {A : Type 0} where
  pub get_or-write :
      (xs : List A) (p : ℕ) (bytes : List A) (j : ℕ) (d : A)
      → p + length bytes ≤ length xs
      → get_or (write xs p bytes) j d
        ≡ (if leb p j && ltb j (p + length bytes) then get_or bytes (j - p) d else get_or xs j d)
  get_or-write [] p [] j d h = ground arith
  get_or-write [] p (b ∷ bytes) j d h = absurd (omega arith)
  get_or-write (x ∷ xs) zero [] j d h = ground arith
  get_or-write (x ∷ xs) zero (b ∷ bytes) zero d h = ground arith
  get_or-write (x ∷ xs) zero (b ∷ bytes) (suc j) d h =
      let at : suc j - 0 ≡ suc j = omega arith in
      ground (
        arith,
        get_or-write xs zero bytes j d,
        ap (λ k. get_or (b ∷ bytes) k d) at,
        ap (λ k. get_or bytes k d) {x = j - 0} {y = j} (omega arith),
      )
  get_or-write (x ∷ xs) (suc p) bytes zero d h = ground arith
  get_or-write (x ∷ xs) (suc p) bytes (suc j) d h = ground (
    arith,
    get_or-write xs p bytes j d,
    ap (λ k. get_or bytes k d) {x = suc j - suc p} {y = j - p} (omega arith),
  )

  pub get_or-take :
      (n : ℕ) (xs : List A) (j : ℕ) (d : A) → j < n → get_or (take n xs) j d ≡ get_or xs j d
  get_or-take zero xs j d h = absurd (omega arith)
  get_or-take (suc n) [] j d h = refl
  get_or-take (suc n) (x ∷ xs) zero d h = refl
  get_or-take (suc n) (x ∷ xs) (suc j) d h = get_or-take n xs j d (omega arith)

  pub get_or-drop :
      (n : ℕ) (xs : List A) (j : ℕ) (d : A) → get_or (drop n xs) j d ≡ get_or xs (n + j) d
  get_or-drop zero xs j d = ap (λ k. get_or xs k d) (omega arith)
  get_or-drop (suc n) [] j d = refl
  get_or-drop (suc n) (x ∷ xs) j d =
      get_or-drop n xs j d ∙ ap (λ k. get_or (x ∷ xs) k d) {x = suc (n + j)} (omega arith)

  pub get_or-append :
      (xs ys : List A) (j : ℕ) (d : A)
      → get_or (xs ++ ys) j d
        ≡ (if ltb j (length xs) then get_or xs j d else get_or ys (j - length xs) d)
  get_or-append [] ys j d =
      ground (arith, ap (λ k. get_or ys k d) {x = j - 0} {y = j} (omega arith))
  get_or-append (x ∷ xs) ys zero d = ground arith
  get_or-append (x ∷ xs) ys (suc j) d = ground (
    arith,
    get_or-append xs ys j d,
    ap (λ k. get_or ys k d) {x = suc j - suc (length xs)} {y = j - length xs} (omega arith),
  )

  pub length-take : (n : ℕ) (xs : List A) → n ≤ length xs → length (take n xs) ≡ n
  length-take zero xs h = refl
  length-take (suc n) [] h = absurd (omega arith)
  length-take (suc n) (x ∷ xs) h = ap suc (length-take n xs (omega arith))

  pub length-drop : (n : ℕ) (xs : List A) → length (drop n xs) ≡ length xs - n
  length-drop zero xs = omega arith
  length-drop (suc n) [] = omega arith
  length-drop (suc n) (x ∷ xs) = length-drop n xs ∙ omega arith

  -- Lists of the same length with the same elements are equal.
  pub list_ext :
      (xs ys : List A) (d : A)
      → length xs ≡ length ys
      → ((j : ℕ) → j < length xs → get_or xs j d ≡ get_or ys j d)
      → xs ≡ ys
  list_ext [] [] d l h = refl
  list_ext [] (y ∷ ys) d l h = absurd (omega (arith, l))
  list_ext (x ∷ xs) [] d l h = absurd (omega (arith, l))
  list_ext (x ∷ xs) (y ∷ ys) d l h =
      let tail = list_ext xs ys d (omega (arith, l)) (λ j k. h (suc j) (omega arith)) in
      cc (h 0 (omega arith), tail)

  pub take_all : (xs : List A) → take (length xs) xs ≡ xs
  take_all [] = refl
  take_all (x ∷ xs) = ap (λ l. x ∷ l) (take_all xs)

  pub take_long : (n : ℕ) (xs : List A) → length xs ≤ n → take n xs ≡ xs
  take_long zero [] h = refl
  take_long zero (x ∷ xs) h = absurd (omega arith)
  take_long (suc n) [] h = refl
  take_long (suc n) (x ∷ xs) h = ap (λ l. x ∷ l) (take_long n xs (omega arith))

  pub take-append : (n : ℕ) (xs ys : List A) → n ≤ length xs → take n (xs ++ ys) ≡ take n xs
  take-append zero xs ys h = refl
  take-append (suc n) [] ys h = absurd (omega arith)
  take-append (suc n) (x ∷ xs) ys h = ap (λ l. x ∷ l) (take-append n xs ys (omega arith))
