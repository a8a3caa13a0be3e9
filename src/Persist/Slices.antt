-- ===== src/Persist/Slices.antt =====
-- Slices: copy, and the prefixes of lists that the readers of proxy/cache cut.
use lambda_objectstore.Base.{
  ℕ, zero, suc, ◌+◌, ◌≤◌, ◌≡◌, refl, sym, ◌∙◌, ap, List, [], ◌∷◌, ◌++◌, length, take, drop, arith,
}
use native.Mathlib.Nat.{zero-add, suc-add}
use lambda_objectstore.Persist.Intercept.{copy}

pub length-copy : (dst src : List ℕ) → length (copy dst src) ≡ length dst
unfolding copy
length-copy [] src = refl
length-copy (d ∷ dst) [] = refl
length-copy (d ∷ dst) (s ∷ src) = ap suc (length-copy dst src)

pub take-copy :
    (dst src : List ℕ) → length src ≤ length dst → take (length src) (copy dst src) ≡ src
unfolding copy
take-copy [] [] room = refl
take-copy [] (s ∷ src) room = absurd (omega arith)
take-copy (d ∷ dst) [] room = refl
take-copy (d ∷ dst) (s ∷ src) room = ap (◌∷◌ s) (take-copy dst src (omega arith))

pub take-append_more : (xs ys : List ℕ) (n : ℕ) → take (length xs + n) (xs ++ ys) ≡ xs ++ take n ys
take-append_more [] ys n = rw zero-add refl
take-append_more (x ∷ xs) ys n = rw suc-add (ap (◌∷◌ x) (take-append_more xs ys n))

pub take-nil : (n : ℕ) → take {A = ℕ} n [] ≡ []
take-nil zero = refl
take-nil (suc n) = refl

pub take-take-drop : (xs : List ℕ) (m n : ℕ) → take m xs ++ take n (drop m xs) ≡ take (m + n) xs
take-take-drop xs zero n = rw zero-add refl
take-take-drop [] (suc m) n = take-nil n ∙ sym (take-nil (suc m + n))
take-take-drop (x ∷ xs) (suc m) n = rw suc-add (ap (◌∷◌ x) (take-take-drop xs m n))

pub take-take_less : (xs : List ℕ) (n k : ℕ) → n ≤ k → take n (take k xs) ≡ take n xs
take-take_less xs zero k less = refl
take-take_less xs (suc n) zero less = absurd (omega arith)
take-take_less [] (suc n) (suc k) less = refl
take-take_less (x ∷ xs) (suc n) (suc k) less = ap (◌∷◌ x) (take-take_less xs n k (omega arith))

pub take-drop_less :
    (xs : List ℕ) (m n k : ℕ) → m + n ≤ k → take n (drop m (take k xs)) ≡ take n (drop m xs)
take-drop_less xs zero n k less = take-take_less xs n k (omega arith)
take-drop_less xs (suc m) n zero less = absurd (omega arith)
take-drop_less [] (suc m) n (suc k) less = refl
take-drop_less (x ∷ xs) (suc m) n (suc k) less = take-drop_less xs m n k (omega arith)

pub take-append_left : (xs ys : List ℕ) (n : ℕ) → n ≤ length xs → take n (xs ++ ys) ≡ take n xs
take-append_left xs ys zero less = refl
take-append_left [] ys (suc n) less = absurd (omega arith)
take-append_left (x ∷ xs) ys (suc n) less = ap (◌∷◌ x) (take-append_left xs ys n (omega arith))

pub no_bytes : (xs : List ℕ) → length xs ≡ 0 → xs ≡ []
no_bytes [] e = refl
no_bytes (x ∷ xs) e = absurd (omega arith)
