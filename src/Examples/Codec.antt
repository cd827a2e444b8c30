-- ===== src/Examples/Codec.antt =====
-- A way to write texts and requests, on which the command line and the daemon can be run. It stands
-- in for `encoding/json` and Python's `json`: each text comes after its length.
use mathlib.Core.List.{append_assoc}
use ai_m_os.Common.{
  ℕ, zero, suc, ◌≡◌, refl, ◌∙◌, ap, [], ◌∷◌, ◌++◌, Option, none, some, Text, codes, arith,
}
use ai_m_os.Common.Lists.{length}
use ai_m_os.Common.Str.{text_eq}
use ai_m_os.Json
use ai_m_os.Json.{Json, str, dict, Fields, end, field}
use ai_m_os.AifsDaemon.Go.{Outcome, value, fault}
use ai_m_os.AifsDaemon.Handle.{Request}
use ai_m_os.AifsDaemon.Wire.{Sent, with_path, with_name, with_both, with_snap}

abbrev pub Reader : Type 0 → Type 0
Reader A = Text → Option (A × Text)

abbrev pub ◌>>=◌ : {A B : Type 0} → Reader A → (A → Reader B) → Reader B
◌>>=◌ m f t = elim (m t) [ none ↦ none | some (a, rest) ↦ f a rest ]

abbrev pub pure : {A : Type 0} → A → Reader A
pure a t = some (a, t)

take : ℕ → Text → Text
take zero t = []
take (suc n) [] = []
take (suc n) (c ∷ t) = c ∷ take n t

drop : ℕ → Text → Text
drop zero t = t
drop (suc n) [] = []
drop (suc n) (c ∷ t) = drop n t

take-length : (s rest : Text) → take (length s) (s ++ rest) ≡ s
unfolding take
take-length [] rest = refl
take-length (c ∷ s) rest = rw (take-length s rest) refl

drop-length : (s rest : Text) → drop (length s) (s ++ rest) ≡ rest
unfolding drop
drop-length [] rest = refl
drop-length (c ∷ s) rest = drop-length s rest

-- One value, in front of what follows.
unfoldable pub write_text : Text → Text → Text
write_text s rest = length s ∷ (s ++ rest)

unfoldable pub read_text : Reader Text
unfolding take drop
read_text [] = none
read_text (n ∷ t) = some (take n t, drop n t)

pub read_text-write_text : (s rest : Text) → read_text (write_text s rest) ≡ some (s, rest)
unfolding read_text write_text
read_text-write_text s rest = rw (take-length s rest, drop-length s rest) refl

-- The operands of a request, in the order of the fields of `Request`.
text_at : {F : Type 0} → Text → Fields F → Text
unfolding Json.get
text_at key fs = elim (Json.get key fs) [ some (str s) ↦ s | _ ↦ [] ]

read_request : Reader Request
unfolding read_text
read_request = do
  op ← read_text
  path ← read_text
  name ← read_text
  snap ← read_text
  pure (record { op = op; path = path; name = name; snap = snap })

write_request : Text → Text → Text → Text → Text → Text
unfolding write_text
write_request op path name snap rest =
    write_text op (write_text path (write_text name (write_text snap rest)))

read_request-write_request :
    (op path name snap rest : Text)
    → read_request (write_request op path name snap rest)
      ≡ some (record { op = op; path = path; name = name; snap = snap }, rest)
unfolding read_request write_request
read_request-write_request op path name snap rest = ground (
  arith,
  read_text-write_text op (write_text path (write_text name (write_text snap rest))),
  read_text-write_text path (write_text name (write_text snap rest)),
  read_text-write_text name (write_text snap rest),
  read_text-write_text snap rest,
)

unfoldable pub dumps : {F : Type 0} → Json F → Text
unfolding text_at write_request
dumps (dict fs) =
    write_request (text_at (codes "op") fs) (text_at (codes "path") fs) (text_at (codes "name") fs)
      (text_at (codes "snap") fs) []
dumps _ = []

write_text-append : (s rest t : Text) → write_text s rest ++ t ≡ write_text s (rest ++ t)
unfolding write_text
write_text-append s rest t = ap (λ u. length s ∷ u) (append_assoc s rest t)

-- A request is read although a line break follows.
read_request-line :
    (op path name snap : Text)
    → read_request (write_request op path name snap [] ++ codes "\n")
      ≡ some (record { op = op; path = path; name = name; snap = snap }, codes "\n")
unfolding write_request
read_request-line op path name snap =
    ap read_request (
      write_text-append op (write_text path (write_text name (write_text snap []))) (codes "\n")
      ∙ ap (write_text op) (
          write_text-append path (write_text name (write_text snap [])) (codes "\n")
          ∙ ap (write_text path) (
              write_text-append name (write_text snap []) (codes "\n")
              ∙ ap (write_text name) (write_text-append snap [] (codes "\n")))))
    ∙ read_request-write_request op path name snap (codes "\n")

unfoldable pub decode : Text → Outcome Request
unfolding read_request
decode t = elim (read_request t) [ none ↦ fault (codes "EOF") | some (req, _) ↦ value req ]

pub decode-dumps :
    {F : Type 0} (op : Text) (fs : Fields F) (req : Request)
    → Sent op fs req
    → decode (dumps (dict (field (codes "op") (str op) fs)) ++ codes "\n") ≡ value req
unfolding decode dumps text_at Json.get text_eq
decode-dumps op fs req (with_path path) = ground (arith, read_request-line op path [] [])
decode-dumps op fs req (with_name path name) = ground (arith, read_request-line op path name [])
decode-dumps op fs req (with_both path snap) = ground (arith, read_request-line op path [] snap)
decode-dumps op fs req (with_snap snap) = ground (arith, read_request-line op [] [] snap)
