-- ===== src/Json.antt =====
-- A value that `json.loads` returns.
use ai_m_os.Common.{
  ℤ, pos, zero, Bool, true, false, not, Text, Option, none, some, if◌then◌else◌, [],
}
use ai_m_os.Common.Str.{text_eq}
use ai_m_os.Float.{Float}

mutual
  pub data Json (F : Type 0) : Type 0 where
    null : Json F
    boolean : Bool → Json F
    int : ℤ → Json F
    float : F → Json F
    str : Text → Json F
    list : Items F → Json F
    dict : Fields F → Json F

  pub data Items (F : Type 0) : Type 0 where
    nil : Items F
    cons : Json F → Items F → Items F

  pub data Fields (F : Type 0) : Type 0 where
    end : Fields F
    field : Text → Json F → Fields F → Fields F

module _ {F : Type 0} where
  -- `d.get(key)`
  unfoldable pub get : Text → Fields F → Option (Json F)
  unfolding text_eq
  get key end = none
  get key (field k v fs) = if text_eq k key then some v else get key fs

  abbrev pub get_or : Text → Json F → Fields F → Json F
  get_or key d fs = elim (get key fs) [ none ↦ d | some v ↦ v ]

  -- `bool(v)`
  unfoldable pub is_true : Float F → Json F → Bool
  is_true fl null = false
  is_true fl (boolean b) = b
  is_true fl (int (pos zero)) = false
  is_true fl (int _) = true
  is_true fl (float x) = not (fl.is_zero x)
  is_true fl (str []) = false
  is_true fl (str _) = true
  is_true fl (list nil) = false
  is_true fl (list _) = true
  is_true fl (dict end) = false
  is_true fl (dict _) = true
