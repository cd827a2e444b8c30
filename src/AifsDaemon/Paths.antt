-- ===== src/AifsDaemon/Paths.antt =====
-- Of Go's `strings` and `path/filepath`, what aifs/daemon/btrfs.go calls.
use ai_m_os.Common.{
  ℕ, Bool, false, ◌||◌, ◌&&◌, leb, ◌==◌, List, [], ◌∷◌, ◌++◌, Text, codes, if◌then◌else◌,
}
use ai_m_os.Common.Str.{text_eq, split_on, starts_apart, onto_head, strip_left, strip_right}

-- `unicode.IsSpace`
unfoldable pub is_go_space : ℕ → Bool
is_go_space c =
    (leb 9 c && leb c 13)
    || c == 32
    || c == 0x85
    || c == 0xa0
    || c == 0x1680
    || (leb 0x2000 c && leb c 0x200a)
    || c == 0x2028
    || c == 0x2029
    || c == 0x202f
    || c == 0x205f
    || c == 0x3000

-- `strings.TrimSpace`
unfoldable pub trim_space : Text → Text
unfolding strip_left strip_right is_go_space
trim_space s = strip_right is_go_space (strip_left is_go_space s)

-- `strings.Fields`
unfoldable pub fields : Text → List Text
unfolding is_go_space
fields [] = []
fields (c ∷ s) =
    let rest = fields s in
    if is_go_space c
    then rest
    else if starts_apart is_go_space s
    then (c ∷ []) ∷ rest
    else onto_head c rest

-- The parts of a path onto those already taken, the last one first.
unfoldable pub clean_parts : Bool → List Text → List Text → List Text
unfolding text_eq
clean_parts rooted taken [] = taken
clean_parts rooted taken (part ∷ parts) =
    clean_parts rooted
      (if text_eq part [] || text_eq part (codes ".")
        then taken
        else if text_eq part (codes "..")
        then elim taken [
          | [] ↦ if rooted then [] else part ∷ []
          | last ∷ others ↦ if text_eq last (codes "..") then part ∷ last ∷ others else others
        ]
        else part ∷ taken)
      parts

-- The parts, which come last one first, in front of `rest`.
unfoldable pub join_parts : List Text → Text → Text
join_parts [] rest = rest
join_parts (part ∷ []) rest = part ++ rest
join_parts (part ∷ next ∷ parts) rest = join_parts (next ∷ parts) (codes "/" ++ (part ++ rest))

abbrev pub is_rooted : Text → Bool
is_rooted [] = false
is_rooted (c ∷ _) = c == b'/'

abbrev pub or_dot : Text → Text
or_dot [] = codes "."
or_dot (c ∷ s) = c ∷ s

-- `filepath.Clean`
unfoldable pub clean : Text → Text
unfolding clean_parts join_parts split_on
clean path =
    let rooted = is_rooted path in
    let text = join_parts (clean_parts rooted [] (split_on b'/' path)) [] in
    if rooted then codes "/" ++ text else or_dot text

-- `filepath.Join` of two elements; an empty one is left out
unfoldable pub join : Text → Text → Text
unfolding clean
join [] [] = []
join [] (c ∷ b) = clean (c ∷ b)
join (c ∷ a) [] = clean (c ∷ a)
join (c ∷ a) (d ∷ b) = clean ((c ∷ a) ++ (codes "/" ++ (d ∷ b)))

-- What stands up to the last slash, with it.
unfoldable pub up_to_slash : Text → Text
up_to_slash [] = []
up_to_slash (c ∷ s) =
    let rest = up_to_slash s in
    elim rest [ [] ↦ if c == b'/' then c ∷ [] else [] | d ∷ t ↦ c ∷ d ∷ t ]

-- `filepath.Dir`
unfoldable pub dir : Text → Text
unfolding clean up_to_slash
dir path = clean (up_to_slash path)
