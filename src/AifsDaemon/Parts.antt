-- ===== src/AifsDaemon/Parts.antt =====
-- Paths as lists of parts, and what `filepath.Clean` and `filepath.Join` do to them.
use mathlib.Core.List.{append-nil, append_assoc}
use ai_m_os.Common.{
  ℕ, ◌≡◌, refl, sym, ◌∙◌, ap, subst, Bool, true, false, not, ◌&&◌, ◌==◌, List, [], ◌∷◌, ◌++◌, Text,
  codes, arith,
}
use ai_m_os.Common.Lists.{All, All-append, any, any-append}
use ai_m_os.Common.Str.{text_eq, split_on, onto_head}
use ai_m_os.AifsDaemon.Paths.{clean, clean_parts, join_parts, join}

abbrev pub has_slash : Text → Bool
has_slash = any λ c. c == b'/'

abbrev pub is_nothing : Text → Bool
is_nothing [] = true
is_nothing (_ ∷ _) = false

-- A name that stands for itself in a path.
unfoldable pub is_part : Text → Bool
unfolding text_eq
is_part p =
    not (is_nothing p)
    && not (has_slash p)
    && not (text_eq p (codes "."))
    && not (text_eq p (codes ".."))

abbrev pub path_of : List Text → Text
path_of [] = []
path_of (p ∷ ps) = codes "/" ++ (p ++ path_of ps)

abbrev pub IsPart : Text → Type 0
IsPart p = is_part p ≡ true

-- An absolute path with nothing to clean, which is not the root.
pub record IsCanonical (path : Text) : Type 0 where
  pub first : Text
  pub others : List Text
  pub first-IsPart : IsPart first
  pub others-IsPart : All IsPart others
  pub spelled : path ≡ path_of (first ∷ others)

path_of-append : (ps qs : List Text) → path_of (ps ++ qs) ≡ path_of ps ++ path_of qs
path_of-append [] qs = refl
path_of-append (p ∷ ps) qs =
    ap (λ t. codes "/" ++ (p ++ t)) (path_of-append ps qs)
    ∙ ap (λ t. codes "/" ++ t) (sym (append_assoc p (path_of ps) (path_of qs)))

split_on_slash : (s : Text) → split_on b'/' (codes "/" ++ s) ≡ [] ∷ split_on b'/' s
unfolding split_on
split_on_slash s = refl

onto_all : Text → List Text → List Text
onto_all [] ps = ps
onto_all (c ∷ s) ps = onto_head c (onto_all s ps)

split_on-append :
    (p s : Text) → has_slash p ≡ false → split_on b'/' (p ++ s) ≡ onto_all p (split_on b'/' s)
unfolding split_on onto_all
split_on-append [] s h = refl
split_on-append (c ∷ p) s h = ground (arith, split_on-append p s)

onto_all-cons : (p q : Text) (qs : List Text) → onto_all p (q ∷ qs) ≡ (p ++ q) ∷ qs
unfolding onto_all
onto_all-cons [] q qs = refl
onto_all-cons (c ∷ p) q qs = rw (onto_all-cons p q qs)

unslashed : (p : Text) → IsPart p → has_slash p ≡ false
unfolding is_part
unslashed p h = ground arith

split_on-path_of :
    (p : Text) (ps : List Text)
    → IsPart p
    → All IsPart ps
    → split_on b'/' (p ++ path_of ps) ≡ p ∷ ps
unfolding split_on
split_on-path_of p [] h k =
    split_on-append p [] (unslashed p h) ∙ onto_all-cons p [] [] ∙ ap (λ t. t ∷ []) (append-nil p)
split_on-path_of p (q ∷ qs) h k =
    split_on-append p (path_of (q ∷ qs)) (unslashed p h)
    ∙ ap (onto_all p)
        (split_on_slash (q ++ path_of qs) ∙ ap (λ l. [] ∷ l) (split_on-path_of q qs k.0 k.1))
    ∙ onto_all-cons p [] (q ∷ qs)
    ∙ ap (λ t. t ∷ q ∷ qs) (append-nil p)

clean_parts_step :
    (taken ps : List Text) (p : Text)
    → IsPart p
    → clean_parts true taken (p ∷ ps) ≡ clean_parts true (p ∷ taken) ps
unfolding clean_parts is_part text_eq
clean_parts_step taken ps [] h = ground (arith, h)
clean_parts_step taken ps (c ∷ p) h = ground arith

join_parts-clean_parts :
    (taken ps : List Text) (t : Text)
    → All IsPart ps
    → join_parts (clean_parts true (t ∷ taken) ps) [] ≡ join_parts (t ∷ taken) (path_of ps)
unfolding join_parts
join_parts-clean_parts taken [] t h = unfold clean_parts in refl
join_parts-clean_parts taken (p ∷ ps) t h =
    ap (λ l. join_parts l []) (clean_parts_step (t ∷ taken) ps p h.0)
    ∙ join_parts-clean_parts (t ∷ taken) ps p h.1

clean-path_of :
    (p : Text) (ps : List Text)
    → IsPart p
    → All IsPart ps
    → clean (path_of (p ∷ ps)) ≡ path_of (p ∷ ps)
unfolding clean
clean-path_of p ps h k =
    ap (λ l. codes "/" ++ join_parts (clean_parts true [] l) [])
      (split_on_slash (p ++ path_of ps) ∙ ap (λ l. [] ∷ l) (split_on-path_of p ps h k))
    ∙ ap (λ l. codes "/" ++ join_parts l [])
        (unfold clean_parts text_eq in clean_parts_step [] ps p h)
    ∙ ap (λ t. codes "/" ++ t) (join_parts-clean_parts [] ps p k ∙ (unfold join_parts in refl))

-- A clean path stays as it is, and a name is put behind it after a slash.
pub clean-IsCanonical : (path : Text) → IsCanonical path → clean path ≡ path
clean-IsCanonical path c =
    ap clean c.spelled
    ∙ clean-path_of c.first c.others c.first-IsPart c.others-IsPart
    ∙ sym c.spelled

join-cons :
    (c : ℕ) (a name : Text)
    → IsPart name
    → join (c ∷ a) name ≡ clean ((c ∷ a) ++ (codes "/" ++ name))
unfolding join is_part
join-cons c a [] h = ground (arith, h)
join-cons c a (d ∷ b) h = refl

path_of-last :
    (ps : List Text) (name : Text) → path_of (ps ++ name ∷ []) ≡ path_of ps ++ (codes "/" ++ name)
path_of-last ps name =
    path_of-append ps (name ∷ []) ∙ ap (λ t. path_of ps ++ (codes "/" ++ t)) (append-nil name)

-- What a name below a path is called.
abbrev pub below : Text → Text → Text
below path name = path ++ (codes "/" ++ name)

pub below-IsCanonical :
    (path name : Text) → IsCanonical path → IsPart name → IsCanonical (below path name)
below-IsCanonical path name c h = record {
  first = c.first;
  others = c.others ++ name ∷ [];
  first-IsPart = c.first-IsPart;
  others-IsPart = All-append IsPart c.others (name ∷ []) c.others-IsPart (h, tt);
  spelled = ap (λ t. below t name) c.spelled ∙ sym (path_of-last (c.first ∷ c.others) name);
}

pub join-below :
    (path name : Text) → IsCanonical path → IsPart name → join path name ≡ below path name
join-below path name c h =
    ap (λ t. join t name) c.spelled
    ∙ join-cons b'/' (c.first ++ path_of c.others) name h
    ∙ ap (λ t. clean (below t name)) (sym c.spelled)
    ∙ clean-IsCanonical (below path name) (below-IsCanonical path name c h)

pub IsPart-append :
    (p s : Text)
    → IsPart p
    → has_slash s ≡ false
    → text_eq (p ++ s) (codes ".") ≡ false
    → text_eq (p ++ s) (codes "..") ≡ false
    → IsPart (p ++ s)
unfolding is_part
IsPart-append [] s h k l m = ground (arith, h)
IsPart-append (c ∷ p) s h k l m = ground (arith, any-append (λ d. d == b'/') p s)

path_of-extended :
    (p : Text) (ps : List Text) (s : Text)
    → IsPart p
    → All IsPart ps
    → ((q : Text) → IsPart q → IsPart (q ++ s))
    → IsCanonical (path_of (p ∷ ps) ++ s)
path_of-extended p [] s h k f = record {
  first = p ++ s;
  others = [];
  first-IsPart = f p h;
  others-IsPart = tt;
  spelled =
      ap (λ t. codes "/" ++ (t ++ s)) (append-nil p)
      ∙ ap (λ t. codes "/" ++ t) (sym (append-nil (p ++ s)));
}
path_of-extended p (q ∷ ps) s h k f =
    let rest = path_of-extended q ps s k.0 k.1 f in
    record {
      first = p;
      others = rest.first ∷ rest.others;
      first-IsPart = h;
      others-IsPart = (rest.first-IsPart, rest.others-IsPart);
      spelled =
          ap (λ t. codes "/" ++ t) (append_assoc p (path_of (q ∷ ps)) s)
          ∙ ap (λ t. codes "/" ++ (p ++ t)) rest.spelled;
    }

-- A suffix on the last part of a path.
pub IsCanonical-append :
    (path s : Text)
    → IsCanonical path
    → ((q : Text) → IsPart q → IsPart (q ++ s))
    → IsCanonical (path ++ s)
IsCanonical-append path s c f =
    subst (λ t. IsCanonical (t ++ s)) (sym c.spelled)
      (path_of-extended c.first c.others s c.first-IsPart c.others-IsPart f)
