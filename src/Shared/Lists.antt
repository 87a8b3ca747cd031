-- ===== src/Shared/Lists.antt =====
-- Lists measured by native numbers, and Boolean quantifiers over them, under the library's names.
use Prim.Native.Nat.{ℕ, zero, suc, ◌+◌, ◌-◌, min, ◌≤◌}
use mathlib.Core.Path.{◌≡◌, refl, ap, ◌∙◌}
use mathlib.Core.Logic.{◌≢◌}
use mathlib.Core.Bool.{Bool, true, false}
use mathlib.Core.Option.{Option, none, some}
use mathlib.Core.List.{List, [], ◌∷◌, ◌++◌, map}
use native.Mathlib.Omega.{arith}
use native.Mathlib.Nat.{suc-add}

module _ {ℓ} {A : Type ℓ} where
  abbrev pub length : List A → ℕ
  length [] = 0
  length (x ∷ xs) = suc (length xs)

  abbrev pub is_empty : List A → Bool
  is_empty [] = true
  is_empty (x ∷ xs) = false

  abbrev pub take : ℕ → List A → List A
  take zero xs = []
  take (suc n) [] = []
  take (suc n) (x ∷ xs) = x ∷ take n xs

  abbrev pub drop : ℕ → List A → List A
  drop zero xs = xs
  drop (suc n) [] = []
  drop (suc n) (x ∷ xs) = drop n xs

  abbrev pub get_elem? : List A → ℕ → Option A
  get_elem? [] i = none
  get_elem? (x ∷ xs) zero = some x
  get_elem? (x ∷ xs) (suc i) = get_elem? xs i

  pub length-append : (xs ys : List A) → length (xs ++ ys) ≡ length xs + length ys
  length-append [] ys = omega arith
  length-append (x ∷ xs) ys = omega (arith, length-append xs ys)

  pub length-take : (n : ℕ) (xs : List A) → length (take n xs) ≡ min n (length xs)
  length-take zero xs = omega arith
  length-take (suc n) [] = omega arith
  length-take (suc n) (x ∷ xs) = omega (arith, length-take n xs)

  pub length-drop : (n : ℕ) (xs : List A) → length (drop n xs) ≡ length xs - n
  length-drop zero xs = omega arith
  length-drop (suc n) [] = omega arith
  length-drop (suc n) (x ∷ xs) = omega (arith, length-drop n xs)

  pub take-append-drop : (n : ℕ) (xs : List A) → take n xs ++ drop n xs ≡ xs
  take-append-drop zero xs = refl
  take-append-drop (suc n) [] = refl
  take-append-drop (suc n) (x ∷ xs) = rw (take-append-drop n xs)

  pub drop-append : (k : ℕ) (xs ys : List A) → k ≤ length xs → drop k xs ++ ys ≡ drop k (xs ++ ys)
  drop-append zero xs ys h = refl
  drop-append (suc k) [] ys h = absurd (omega arith)
  drop-append (suc k) (x ∷ xs) ys h = drop-append k xs ys (omega arith)

  pub drop-drop : (j k : ℕ) (xs : List A) → drop j (drop k xs) ≡ drop (k + j) xs
  drop-drop j zero xs = ap (λ n. drop n xs) (omega arith)
  drop-drop zero (suc k) [] = rw suc-add refl
  drop-drop (suc j) (suc k) [] = rw suc-add refl
  drop-drop j (suc k) (x ∷ xs) = rw suc-add (drop-drop j k xs)

  -- The last `n` of a list.
  abbrev pub last_of : ℕ → List A → List A
  last_of n xs = drop (length xs - n) xs

  pub last_of-append :
      (n : ℕ) (xs ys : List A) → last_of n (last_of n xs ++ ys) ≡ last_of n (xs ++ ys)
  last_of-append n xs ys =
      let k = length xs - n in
      let front : last_of n xs ++ ys ≡ drop k (xs ++ ys) = drop-append k xs ys (omega arith) in
      rw front (
        drop-drop (length (drop k (xs ++ ys)) - n) k (xs ++ ys)
        ∙ ap (λ m. drop m (xs ++ ys))
            (omega (arith, length-drop k (xs ++ ys), length-append xs ys)))

  pub last_of_all : (n : ℕ) (xs : List A) → length xs ≤ n → last_of n xs ≡ xs
  last_of_all n xs le =
      let none_over : length xs - n ≡ 0 = omega (arith, le) in ap (λ m. drop m xs) none_over

  -- `P` holds of all members.
  abbrev pub All : (A → Type 0) → List A → Type 0
  All P [] = Unit {0}
  All P (x ∷ xs) = P x × All P xs

  pub All-map : (P Q : A → Type 0) (xs : List A) → ((x : A) → P x → Q x) → All P xs → All Q xs
  All-map P Q [] h ps = ps
  All-map P Q (x ∷ xs) h ps = (h x ps.0, All-map P Q xs h ps.1)

  pub All-both : (P Q : A → Type 0) (xs : List A) → All P xs → All Q xs → All (λ x. P x × Q x) xs
  All-both P Q [] ps qs = ps
  All-both P Q (x ∷ xs) ps qs = ((ps.0, qs.0), All-both P Q xs ps.1 qs.1)

  pub All-append : (P : A → Type 0) (xs ys : List A) → All P xs → All P ys → All P (xs ++ ys)
  All-append P [] ys ps qs = qs
  All-append P (x ∷ xs) ys ps qs = (ps.0, All-append P xs ys ps.1 qs)

module _ {ℓ ℓ'} {A : Type ℓ} {B : Type ℓ'} (f : A → B) where
  pub get_elem?-map :
      (l : List A) (i : ℕ) (a : A) → get_elem? l i ≡ some a → get_elem? (map f l) i ≡ some (f a)
  get_elem?-map [] i a e = ground (arith, e)
  get_elem?-map (x ∷ l) zero a e = ap some (ap f (ground (arith, e)))
  get_elem?-map (x ∷ l) (suc i) a e = get_elem?-map l i a e

  pub map-drop : (n : ℕ) (l : List A) → map f (drop n l) ≡ drop n (map f l)
  map-drop zero l = refl
  map-drop (suc n) [] = refl
  map-drop (suc n) (x ∷ l) = map-drop n l

  pub map-snoc : (l : List A) (x : A) → map f (l ++ x ∷ []) ≡ map f l ++ f x ∷ []
  map-snoc [] x = refl
  map-snoc (y ∷ l) x = ap (λ r. f y ∷ r) (map-snoc l x)

  pub length-map : (l : List A) → length (map f l) ≡ length l
  length-map [] = refl
  length-map (x ∷ l) = ap suc (length-map l)

-- No member is another.
abbrev pub AllDistinct : {A : Type 0} → List A → Type 0
AllDistinct [] = Unit {0}
AllDistinct (x ∷ xs) = All (λ z. x ≢ z) xs × AllDistinct xs
