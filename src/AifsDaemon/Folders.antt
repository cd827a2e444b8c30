-- ===== src/AifsDaemon/Folders.antt =====
-- Paths at or under a folder, and next to it.

use ai_m_os.Common.{
  ℕ, ◌≡◌, ◌≢◌, refl, sym, ◌∙◌, ap, true, [], ◌∷◌, ◌++◌, none, some, Option, inl, inr, Option-cases,
  Bool-cases, false, Text, arith,
}
use ai_m_os.Common.Str.{text_eq}
use ai_m_os.AifsDaemon.Subvolumes.{rest_of, moved, with_at, Subvolumes, Same}

pub text_eq_refl : (s : Text) → text_eq s s ≡ true
unfolding text_eq
text_eq_refl [] = refl
text_eq_refl (c ∷ s) = ground (arith, text_eq_refl s)

pub text_eq→≡ : (s t : Text) → text_eq s t ≡ true → s ≡ t
unfolding text_eq
text_eq→≡ [] [] h = refl
text_eq→≡ [] (d ∷ t) h = ground (arith, h)
text_eq→≡ (c ∷ s) [] h = ground (arith, h)
text_eq→≡ (c ∷ s) (d ∷ t) h = ground (arith, text_eq→≡ s t)

pub text_eq-≢ : (s t : Text) → s ≢ t → text_eq s t ≡ false
text_eq-≢ s t h = elim (Bool-cases (text_eq s t)) [
  | inl e ↦ absurd (h (text_eq→≡ s t e))
  | inr e ↦ e
]

pub rest_of_refl : (p : Text) → rest_of p p ≡ some []
unfolding rest_of
rest_of_refl [] = refl
rest_of_refl (c ∷ p) = ground (arith, rest_of_refl p)

-- What is in the folder.
pub rest_of-inside : (p r : Text) → rest_of p (p ++ b'/' ∷ r) ≡ some (b'/' ∷ r)
unfolding rest_of
rest_of-inside [] r = ground arith
rest_of-inside (c ∷ p) r = ground (arith, rest_of-inside p r)

-- A name that is longer stands beside it, with all that is in the folder of that name.
pub rest_of-longer : (p s : Text) → rest_of p (p ++ b'.' ∷ s) ≡ none
unfolding rest_of
rest_of-longer [] s = ground arith
rest_of-longer (c ∷ p) s = ground (arith, rest_of-longer p s)

pub rest_of-shorter : (p s : Text) (d : ℕ) → rest_of (p ++ d ∷ s) p ≡ none
unfolding rest_of
rest_of-shorter [] s d = refl
rest_of-shorter (c ∷ p) s d = ground (arith, rest_of-shorter p s d)

pub rest_of-spelled : (p q r : Text) → rest_of p q ≡ some r → q ≡ p ++ r
unfolding rest_of
rest_of-spelled [] [] r h = ground (arith, h)
rest_of-spelled [] (c ∷ q) r h = ground (arith, h)
rest_of-spelled (a ∷ p) [] r h = ground (arith, h)
rest_of-spelled (a ∷ p) (c ∷ q) r h = ground (arith, rest_of-spelled p q r)

pub rest_of-beside : (p s q r : Text) → rest_of p q ≡ some r → rest_of (p ++ b'.' ∷ s) q ≡ none
unfolding rest_of
rest_of-beside [] s [] r h = refl
rest_of-beside [] s (c ∷ q) r h = ground (arith, h)
rest_of-beside (a ∷ p) s [] r h = refl
rest_of-beside (a ∷ p) s (c ∷ q) r h = ground (arith, rest_of-beside p s q r)

pub rest_of-appended : (p q r z : Text) → rest_of p q ≡ some r → rest_of z (z ++ r) ≡ some r
unfolding rest_of
rest_of-appended [] [] r [] h = ground (arith, h)
rest_of-appended [] (c ∷ q) r [] h = ground (arith, h)
rest_of-appended (a ∷ p) [] r [] h = ground (arith, h)
rest_of-appended (a ∷ p) (c ∷ q) r [] h = ground (arith, rest_of-appended p q r [])
rest_of-appended p q r (a ∷ z) h = ground (arith, rest_of-appended p q r z h)

module _ {V : Type 0} (a b : Text) (t : Subvolumes V) where
  pub moved-to : (q r : Text) → rest_of b q ≡ some r → moved a b t q ≡ t (a ++ r)
  unfolding moved
  moved-to q r h = ground (arith, h)

  pub moved-from : (q r : Text) → rest_of b q ≡ none → rest_of a q ≡ some r → moved a b t q ≡ none
  unfolding moved
  moved-from q r h k = ground (arith, h, k)

  pub moved-beside : (q : Text) → rest_of b q ≡ none → rest_of a q ≡ none → moved a b t q ≡ t q
  unfolding moved
  moved-beside q h k = ground (arith, h, k)

pub with_at-here : {V : Type 0} (p : Text) (v : Option V) (t : Subvolumes V) → with_at p v t p ≡ v
with_at-here p v t = ground (arith, text_eq_refl p)

pub with_at-beside :
    {V : Type 0} (p : Text) (v : Option V) (t : Subvolumes V) (q : Text)
    → q ≢ p
    → with_at p v t q ≡ t q
with_at-beside p v t q h = ground (arith, text_eq-≢ q p h)

pub moved-Same :
    {V : Type 0} (a b : Text) (t t' : Subvolumes V) → Same t t' → Same (moved a b t) (moved a b t')
moved-Same a b t t' same q = elim (Option-cases (rest_of b q)) [
  | inr (r, h) ↦ moved-to a b t' q r h ∙ same (a ++ r) ∙ sym (moved-to a b t q r h)
  | inl h ↦ elim (Option-cases (rest_of a q)) [
    | inr (r, k) ↦ moved-from a b t' q r h k ∙ sym (moved-from a b t q r h k)
    | inl k ↦ moved-beside a b t' q h k ∙ same q ∙ sym (moved-beside a b t q h k)
  ]
]

-- A folder whose new name was free is moved back.
pub moved_back :
    {V : Type 0} (a s : Text) (t : Subvolumes V)
    → ((q : Text) → rest_of (a ++ s) q ≢ none → t q ≡ none)
    → Same t (moved (a ++ s) a (moved a (a ++ s) t))
moved_back a s t free q = elim (Option-cases (rest_of a q)) [
  | inr (r, h) ↦
      moved-to (a ++ s) a (moved a (a ++ s) t) q r h
      ∙ moved-to a (a ++ s) t ((a ++ s) ++ r) r (rest_of-appended a q r (a ++ s) h)
      ∙ ap t (sym (rest_of-spelled a q r h))
  | inl h ↦ elim (Option-cases (rest_of (a ++ s) q)) [
    | inr (r, k) ↦
        moved-from (a ++ s) a (moved a (a ++ s) t) q r h k
        ∙ sym (free q (λ l. ground (arith, k, l)))
    | inl k ↦ moved-beside (a ++ s) a (moved a (a ++ s) t) q h k ∙ moved-beside a (a ++ s) t q k h
  ]
]
