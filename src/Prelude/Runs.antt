-- ===== src/Prelude/Runs.antt =====
-- Laws of `take_while` and `drop_while`, the loops that skip a run of bytes of one class.
use Prim.Native.Nat.{◌+◌, ◌≤◌}
use mathlib.Core.Path.{◌≡◌, refl, ap}
use mathlib.Core.Bool.{Bool, true, not}
use mathlib.Core.List.{List, [], ◌∷◌, ◌++◌}
use native.Mathlib.Omega.{arith}
use qwertty.Prelude.Lists.{length, take, drop, all, take_while, drop_while}

module _ {ℓ} {A : Type ℓ} (p : A → Bool) where
  pub take_while-append-drop_while : (xs : List A) → take_while p xs ++ drop_while p xs ≡ xs
  take_while-append-drop_while [] = refl
  take_while-append-drop_while (x ∷ xs) = ground (arith, take_while-append-drop_while xs)

  -- A run that ends inside a list ends at the same place in every extension of the list.
  pub take_while-append :
      (xs ys : List A) {c : A} {r : List A}
      → drop_while p xs ≡ c ∷ r
      → take_while p (xs ++ ys) ≡ take_while p xs
  take_while-append [] ys h = cc
  take_while-append (x ∷ xs) ys {c} {r} h = ground (arith, take_while-append xs ys {c = c} {r = r})

  pub drop_while-append :
      (xs ys : List A) {c : A} {r : List A}
      → drop_while p xs ≡ c ∷ r
      → drop_while p (xs ++ ys) ≡ drop_while p xs ++ ys
  drop_while-append [] ys h = cc
  drop_while-append (x ∷ xs) ys {c} {r} h = ground (arith, drop_while-append xs ys {c = c} {r = r})

  pub length-take_while :
      (xs : List A) → length (take_while p xs) + length (drop_while p xs) ≡ length xs
  length-take_while [] = omega arith
  length-take_while (x ∷ xs) = ground (arith, length-take_while xs)

  -- A run that reaches the end of a list is at least as long in every extension of the list.
  pub take_while_run :
      (xs ys : List A) → drop_while p xs ≡ [] → length xs ≤ length (take_while p (xs ++ ys))
  take_while_run [] ys h = omega arith
  take_while_run (x ∷ xs) ys h = ground (arith, take_while_run xs ys)

  -- Whether a list does not begin with an element of the class.
  abbrev pub stops : List A → Bool
  stops [] = true
  stops (x ∷ xs) = not (p x)

  -- A run is taken whole, up to where it stops.
  pub take_while-all :
      (xs ys : List A) → all p xs ≡ true → stops ys ≡ true → take_while p (xs ++ ys) ≡ xs
  take_while-all [] [] h k = refl
  take_while-all [] (y ∷ ys) h k = ground arith
  take_while-all (x ∷ xs) ys h k = ground (arith, take_while-all xs ys)

  pub drop_while-all :
      (xs ys : List A) → all p xs ≡ true → stops ys ≡ true → drop_while p (xs ++ ys) ≡ ys
  drop_while-all [] [] h k = refl
  drop_while-all [] (y ∷ ys) h k = ground arith
  drop_while-all (x ∷ xs) ys h k = ground (arith, drop_while-all xs ys)

-- Lists cut at the end of their first part.
module _ {ℓ} {A : Type ℓ} where
  pub take-length : (xs ys : List A) → take (length xs) (xs ++ ys) ≡ xs
  take-length [] ys = refl
  take-length (x ∷ xs) ys = ap (◌∷◌ x) (take-length xs ys)

  pub drop-length : (xs ys : List A) → drop (length xs) (xs ++ ys) ≡ ys
  drop-length [] ys = refl
  drop-length (x ∷ xs) ys = drop-length xs ys
