-- ===== src/AifsDaemon/Swap.antt =====
-- A folder that is set aside, replaced and deleted: which subvolume is then where.
use mathlib.Core.List.{append-nil}
use ai_m_os.Common.{
  ◌≡◌, ◌≢◌, sym, ◌∙◌, ap, [], ◌∷◌, ◌++◌, none, some, Text, inl, inr, Bool-cases, Option-cases,
  false, arith,
}
use ai_m_os.Common.Str.{text_eq}
use ai_m_os.AifsDaemon.Subvolumes.{rest_of, Subvolumes, moved, with_at, Same}
use ai_m_os.AifsDaemon.Folders.{
  text_eq→≡, text_eq_refl, rest_of_refl, rest_of-shorter, rest_of-appended, rest_of-spelled,
  moved-to, moved-from, moved-beside,
}

text_eq-apart : (p q : Text) → rest_of p q ≡ none → text_eq q p ≡ false
text_eq-apart p q h = elim (Bool-cases (text_eq q p)) [
  | inl e ↦ ground (arith, h, rest_of_refl p, ap (rest_of p) (text_eq→≡ q p e))
  | inr e ↦ e
]

module _ {V : Type 0} (a s : Text) (t t2 : Subvolumes V) (x : V) where
  abbrev b : Text
  b = a ++ b'.' ∷ s

  module _ (same2 : Same (with_at a (some x) (moved a b t)) t2)
      (nested : (q : Text) → rest_of b q ≢ none → q ≢ b → t2 q ≡ none) where
    -- What was in the folder was gone before the backup could be deleted.
    pub was_empty : (q r : Text) → text_eq q a ≡ false → rest_of a q ≡ some r → t q ≡ none
    was_empty q r apart h =
        ap t spelled
        ∙ sym (moved-to a b t (b ++ r) r there)
        ∙ ground (arith, same2 (b ++ r), elsewhere)
        ∙ nested (b ++ r) (λ l. ground (arith, l, there)) longer
      where
        there : rest_of b (b ++ r) ≡ some r
        there = rest_of-appended a q r b h

        spelled : q ≡ a ++ r
        spelled = rest_of-spelled a q r h

        elsewhere : text_eq (b ++ r) a ≡ false
        elsewhere = elim (Bool-cases (text_eq (b ++ r) a)) [
          | inl e ↦
              ground
                (arith, there, ap (rest_of b) (text_eq→≡ (b ++ r) a e), rest_of-shorter a s b'.')
          | inr e ↦ e
        ]

        longer : b ++ r ≢ b
        longer e = ground (
          arith,
          text_eq_refl a,
          apart,
          ap (λ p. text_eq p a) (text_eq-at (h ∙ sym there ∙ ap (rest_of b) e ∙ rest_of_refl b)),
        )
          where
            text_eq-at : rest_of a q ≡ some [] → q ≡ a
            text_eq-at l = rest_of-spelled a q [] l ∙ append-nil a

    module _ (t3 : Subvolumes V) (same3 : Same (with_at b none t2) t3)
        (free : (q : Text) → rest_of b q ≢ none → t q ≡ none) where
      at_folder : (q : Text) → q ≡ a → t3 q ≡ some x
      at_folder q e = ground (
        arith,
        same3 q,
        same2 q,
        text_eq_refl a,
        ap (λ p. text_eq p a) e,
        text_eq-apart b q (ap (rest_of b) e ∙ rest_of-shorter a s b'.'),
      )

      at_backup : (q r : Text) → rest_of b q ≡ some r → t3 q ≡ t q
      at_backup q r h = elim (Bool-cases (text_eq q b)) [
        | inl e ↦ ground (arith, same3 q, free q (λ l. ground (arith, h, l)))
        | inr e ↦ ground (
          arith,
          same3 q,
          nested q (λ l. ground (arith, h, l))
              (λ l. ground (arith, e, text_eq_refl b, ap (λ p. text_eq p b) l)),
          free q (λ l. ground (arith, h, l)),
        )
      ]

      -- The folder is replaced, and nothing else is changed.
      pub swapped : Same (with_at a (some x) t) t3
      swapped q = elim (Bool-cases (text_eq q a)) [
        | inl e ↦ ground (arith, e, at_folder q (text_eq→≡ q a e))
        | inr e ↦ elim (Option-cases (rest_of b q)) [
          | inr (r, h) ↦ ground (arith, e, at_backup q r h)
          | inl h ↦ elim (Option-cases (rest_of a q)) [
            | inr (r, k) ↦ ground (
              arith,
              e,
              same3 q,
              same2 q,
              text_eq-apart b q h,
              moved-from a b t q r h k,
              was_empty q r e k,
            )
            | inl k ↦
                ground (arith, e, same3 q, same2 q, text_eq-apart b q h, moved-beside a b t q h k)
          ]
        ]
      ]
