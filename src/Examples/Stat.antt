-- ===== src/Examples/Stat.antt =====
-- A line of `/proc/700/stat`.
use ai_m_os.Common.{pos, negsuc, ◌≡◌, refl, [], ◌∷◌, codes, ok, List, Text, ◌++◌}
use ai_m_os.Common.Lists.{All}
use ai_m_os.Common.Str.{is_space}
use ai_m_os.Common.Number.{show_ℤ}
use ai_m_os.Common.Words.{IsWord, show_ℤ-IsWord}
use ai_m_os.Heuristics.{parse_stat}
use ai_m_os.Heuristics.ReadBack.{IsPlain, stat_line, parse_stat-stat_line}

abbrev zero_word : Text
zero_word = show_ℤ (pos 0)

abbrev five : List Text
five = zero_word ∷ zero_word ∷ zero_word ∷ zero_word ∷ zero_word ∷ []

-- The third to the thirteenth field.
abbrev front : List Text
front = zero_word ∷ (five ++ five)

front-IsWord : All IsWord front
front-IsWord =
    let w = show_ℤ-IsWord (pos 0) in (w, (w, (w, (w, (w, (w, (w, (w, (w, (w, (w, tt)))))))))))

make-IsPlain : IsPlain (codes "make")
unfolding is_space
make-IsPlain = (
  (refl, (refl, (refl, (refl, tt)))),
  (refl, (refl, (refl, (refl, tt)))),
  (refl, (refl, (refl, (refl, tt)))),
)

parse_stat-stat_line_example :
    parse_stat (
      stat_line
        (show_ℤ (pos 700))
        (codes "make")
        front
        (pos 40)
        (pos 2)
        zero_word
        zero_word
        zero_word
        (negsuc 4)
        five)
    ≡ ok (codes "make", pos 40, pos 2, negsuc 4)
parse_stat-stat_line_example =
    parse_stat-stat_line (show_ℤ (pos 700)) (codes "make") zero_word zero_word zero_word front five
      (pos 40) (pos 2) (negsuc 4) (show_ℤ-IsWord (pos 700)) make-IsPlain front-IsWord refl
      (show_ℤ-IsWord (pos 0)) (show_ℤ-IsWord (pos 0)) (show_ℤ-IsWord (pos 0))
      (let w = show_ℤ-IsWord (pos 0) in (w, (w, (w, (w, (w, tt))))))
