-- ===== src/AifsDaemon/Disk/Laws.antt =====
-- The disk does what the daemon relies on.
use ai_m_os.Common.{
  ℕ, ◌≡◌, ◌≢◌, refl, sym, ◌∙◌, ap, Bool, true, false, not, ◌||◌, List, [], ◌∷◌, ◌++◌, map, Option,
  none, some, Text, codes, inl, inr, Bool-cases, Option-cases, arith, if◌then◌else◌,
}
use ai_m_os.Common.Lists.{any, any-append}
use ai_m_os.Common.Str.{text_eq}
use ai_m_os.AifsDaemon.Subvolumes.{rest_of, IsBtrfs, Renames, Copies, Deletes}
use ai_m_os.AifsDaemon.Folders
use ai_m_os.AifsDaemon.Disk.{
  Disk, blank, put, removed, renamed, folder, look, is_some, has, carried, keys, is_nested,
  rename_on, copy_on, delete_on, btrfs_on, disk,
}

has_key : Text → List Text → Bool
has_key q = any (text_eq q)

any-at :
    (p : Text → Bool) (q : Text) (ks : List Text)
    → has_key q ks ≡ true
    → any p ks ≡ false
    → p q ≡ false
unfolding has_key
any-at p q [] h k = ground (arith, h)
any-at p q (l ∷ ks) h k = elim (Bool-cases (text_eq q l)) [
  | inl e ↦ ap p (Folders.text_eq→≡ q l e) ∙ ground (arith, k)
  | inr e ↦ any-at p q ks (ground (arith, h, e)) (ground (arith, k))
]

has_key-map :
    (f : Text → Text) (q : Text) (ks : List Text)
    → has_key q ks ≡ true
    → has_key (f q) (map f ks) ≡ true
unfolding has_key
has_key-map f q [] h = ground (arith, h)
has_key-map f q (l ∷ ks) h = elim (Bool-cases (text_eq q l)) [
  | inl e ↦
      ground
        (arith, Folders.text_eq_refl (f l), ap (λ x. text_eq (f x) (f l)) (Folders.text_eq→≡ q l e))
  | inr e ↦ ground (arith, has_key-map f q ks (ground (arith, h, e)))
]

has_key-left : (q : Text) (ks ls : List Text) → has_key q ks ≡ true → has_key q (ks ++ ls) ≡ true
unfolding has_key
has_key-left q ks ls h = ground (arith, any-append (text_eq q) ks ls)

has_key-right : (q : Text) (ks ls : List Text) → has_key q ls ≡ true → has_key q (ks ++ ls) ≡ true
unfolding has_key
has_key-right q ks ls h = ground (arith, any-append (text_eq q) ks ls)

carried-under : (a b q r : Text) → rest_of b q ≡ some r → carried a b (a ++ r) ≡ q
unfolding carried
carried-under a b q r h =
    ground (arith, Folders.rest_of-appended b q r a h, Folders.rest_of-spelled b q r h)

-- A subvolume is at one of the keys.
look-keys : (d : Disk) (q : Text) → is_some (look d q) ≡ true → has_key q (keys d) ≡ true
unfolding look keys has_key carried
look-keys blank q h = ground (arith, h)
look-keys (put p v d) q h = elim (Bool-cases (text_eq q p)) [
  | inl e ↦ ground (arith, e)
  | inr e ↦ ground (arith, look-keys d q (ground (arith, h, e)))
]
look-keys (removed p d) q h = elim (Bool-cases (text_eq q p)) [
  | inl e ↦ ground (arith, h, e)
  | inr e ↦ look-keys d q (ground (arith, h, e))
]
look-keys (folder p d) q h = look-keys d q h
look-keys (renamed a b d) q h = elim (Option-cases (rest_of b q)) [
  | inr (r, e) ↦ has_key-left q (map (carried a b) (keys d)) (keys d) (
      ap (λ p. has_key p (map (carried a b) (keys d))) (sym (carried-under a b q r e))
      ∙ has_key-map (carried a b) (a ++ r) (keys d)
          (look-keys d (a ++ r) (ap is_some (sym (Folders.moved-to a b (look d) q r e)) ∙ h)))
  | inl e ↦ elim (Option-cases (rest_of a q)) [
    | inr (r, k) ↦ ground (arith, h, Folders.moved-from a b (look d) q r e k)
    | inl k ↦
        has_key-right q (map (carried a b) (keys d)) (keys d)
          (look-keys d q (ap is_some (sym (Folders.moved-beside a b (look d) q e k)) ∙ h))
  ]
]

some-is_some : {A : Type 0} (o : Option A) → o ≢ none → is_some o ≡ true
some-is_some none h = absurd (h refl)
some-is_some (some a) h = refl

if-intro :
    {A : Type 0} (P : A → Type 0) (c : Bool) (x y : A)
    → (c ≡ true → P x)
    → (c ≡ false → P y)
    → P (if c then x else y)
if-intro P true x y f g = f refl
if-intro P false x y f g = g refl

renames : (a b : Text) (d : Disk) → Renames disk look has a b d (rename_on a b d)
unfolding rename_on has
renames a b d =
    if-intro (Renames disk look has a b d) (not (is_some (look d a))) _ _ (λ h q. refl)
      λ h.
        if-intro (Renames disk look has a b d) (is_some (rest_of b a) || has d b) _ _ (λ k q. refl)
          λ k. ((λ q. unfold look in refl), λ apart. ground (arith, k, Folders.rest_of_refl a))

copies : (from to : Text) (d : Disk) → Copies disk look has from to d (copy_on from to d)
unfolding copy_on
copies from to d = go (look d from) refl
  where
    go :
        (o : Option ℕ)
        → look d from ≡ o
        → Copies disk look has from to d (elim o as (λ x. (Text × Option Text) × Disk) [
          | none ↦ ((codes "ERROR: not a subvolume", some (codes "exit status 1")), d)
          | some v ↦
              if has d to
              then ((codes "ERROR: file exists", some (codes "exit status 1")), d)
              else ((codes "Create a snapshot", none), put to v d)
        ])
    go none e = λ q. refl
    go (some v) e =
        if-intro (Copies disk look has from to d) (has d to) _ _ (λ h q. refl)
          λ h. (v, e, λ q. unfold look in refl)

unnested :
    (p q : Text) (d : Disk)
    → any (is_nested d p) (keys d) ≡ false
    → rest_of p q ≢ none
    → q ≢ p
    → look d q ≡ none
unfolding is_nested
unnested p q d k under apart = elim (Option-cases (look d q)) [
  | inl e ↦ e
  | inr (v, e) ↦ ground (
    arith,
    e,
    any-at (is_nested d p) q (keys d) (look-keys d q (ap is_some e)) k,
    some-is_some (rest_of p q) under,
    Folders.text_eq-≢ q p apart,
  )
]

deletes : (p : Text) (d : Disk) → Deletes disk look has p d (delete_on p d)
unfolding delete_on
deletes p d =
    if-intro (Deletes disk look has p d) (not (is_some (look d p))) _ _ (λ h q. refl)
      λ h.
        if-intro (Deletes disk look has p d) (any (is_nested d p) (keys d)) _ _ (λ k q. refl)
          λ k. (λ q under apart. unnested p q d k under apart, λ q. unfold look in refl)

pub disk-IsBtrfs : IsBtrfs disk look has
unfolding btrfs_on text_eq has look
disk-IsBtrfs = record {
  rename_lem = λ a b d ca cb vol. renames a b d;
  copy_lem = λ from to d cf ct new. copies from to d;
  copy_read_only_lem = λ from to d cf ct new. copies from to d;
  delete_lem = λ p d c. deletes p d;
  mkdir_all_lem = λ p path d c apart. ground (arith, apart);
  now_lem = λ d q. refl;
}
