-- ===== src/Common/Sort.antt =====
-- `sorted(xs, key=…, reverse=True)`: the greatest key first, equal keys in their old order.
use mathlib.Core.Path.{◌≡◌, refl}
use mathlib.Core.Logic.{inl, inr}
use mathlib.Core.List.{List, [], ◌∷◌, Perm}
use mathlib.Core.List.Perm
use native.Mathlib.Omega.{arith}
use ai_m_os.Common.Tests.{if◌then◌else◌, Bool-cases}
use ai_m_os.Common.Lists.{All, filter}
use ai_m_os.Common.Int.{ℤ, leb_ℤ, eqb_ℤ, ◌≤ℤ◌}

module _ {A : Type 0} (key : A → ℤ) where
  insert_desc : A → List A → List A
  insert_desc x [] = x ∷ []
  insert_desc x (y ∷ ys) = if leb_ℤ (key y) (key x) then x ∷ y ∷ ys else y ∷ insert_desc x ys

  unfoldable pub sort_desc : List A → List A
  unfolding insert_desc
  sort_desc [] = []
  sort_desc (x ∷ xs) = insert_desc x (sort_desc xs)

  All-insert_desc :
      (P : A → Type 0) (x : A) (ys : List A) → P x → All P ys → All P (insert_desc x ys)
  unfolding insert_desc
  All-insert_desc P x [] h k = (h, tt)
  All-insert_desc P x (y ∷ ys) h k = elim (Bool-cases (leb_ℤ (key y) (key x))) [
    | inl e ↦ rw e (h, k)
    | inr e ↦ rw e (k.0, All-insert_desc P x ys h k.1)
  ]

  pub All-sort_desc : (P : A → Type 0) (xs : List A) → All P xs → All P (sort_desc xs)
  unfolding sort_desc
  All-sort_desc P [] h = tt
  All-sort_desc P (x ∷ xs) h = All-insert_desc P x (sort_desc xs) h.0 (All-sort_desc P xs h.1)

  insert_desc-perm : (x : A) (ys : List A) → Perm (insert_desc x ys) (x ∷ ys)
  unfolding insert_desc
  insert_desc-perm x [] = Perm.refl _
  insert_desc-perm x (y ∷ ys) = elim (Bool-cases (leb_ℤ (key y) (key x))) [
    | inl e ↦ rw e (Perm.refl _)
    | inr e ↦ rw e (Perm.trans (Perm.cons y (insert_desc-perm x ys)) (Perm.swap x y ys))
  ]

  -- Sorting keeps every element, as often.
  pub sort_desc-perm : (xs : List A) → Perm (sort_desc xs) xs
  unfolding sort_desc
  sort_desc-perm [] = Perm.refl _
  sort_desc-perm (x ∷ xs) =
      Perm.trans (insert_desc-perm x (sort_desc xs)) (Perm.cons x (sort_desc-perm xs))

  -- The elements with a key, in their order.
  abbrev pub with_key : ℤ → List A → List A
  with_key k = filter λ y. eqb_ℤ (key y) k

  insert_desc-stable :
      (k : ℤ) (x : A) (ys : List A) → with_key k (insert_desc x ys) ≡ with_key k (x ∷ ys)
  unfolding insert_desc
  insert_desc-stable k x [] = refl
  insert_desc-stable k x (y ∷ ys) = ground (arith, insert_desc-stable k x ys)

  -- Elements with equal keys keep their order.
  pub sort_desc-stable : (k : ℤ) (xs : List A) → with_key k (sort_desc xs) ≡ with_key k xs
  unfolding sort_desc
  sort_desc-stable k [] = refl
  sort_desc-stable k (x ∷ xs) =
      ground (arith, insert_desc-stable k x (sort_desc xs), sort_desc-stable k xs)

  -- No later key is greater.
  abbrev pub IsFalling : List A → Type 0
  IsFalling [] = Unit
  IsFalling (x ∷ xs) = All (λ y. key y ≤ℤ key x) xs × IsFalling xs

  All-below : (a b : ℤ) (ys : List A) → a ≤ℤ b → All (λ y. key y ≤ℤ a) ys → All (λ y. key y ≤ℤ b) ys
  All-below a b [] h k = tt
  All-below a b (y ∷ ys) h k = (omega arith, All-below a b ys h k.1)

  insert_desc-IsFalling : (x : A) (ys : List A) → IsFalling ys → IsFalling (insert_desc x ys)
  unfolding insert_desc
  insert_desc-IsFalling x [] h = (tt, tt)
  insert_desc-IsFalling x (y ∷ ys) h = elim (Bool-cases (leb_ℤ (key y) (key x))) [
    | inl e ↦
        let le : key y ≤ℤ key x = ground arith in
        rw e ((le, All-below (key y) (key x) ys le h.0), h)
    | inr e ↦ rw e (
      All-insert_desc (λ z. key z ≤ℤ key y) x ys (ground arith) h.0,
      insert_desc-IsFalling x ys h.1,
    )
  ]

  pub sort_desc-IsFalling : (xs : List A) → IsFalling (sort_desc xs)
  unfolding sort_desc
  sort_desc-IsFalling [] = tt
  sort_desc-IsFalling (x ∷ xs) = insert_desc-IsFalling x (sort_desc xs) (sort_desc-IsFalling xs)
