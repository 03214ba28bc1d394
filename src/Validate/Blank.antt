-- ===== src/Validate/Blank.antt =====
-- `strings.TrimSpace(s) == ""`: every character of the string is white space. The bytes are read as
-- UTF-8; a broken encoding is a character that is not white space.
use radius_go.Base.{ℕ, ◌≡◌, refl, Bool, true, false, ◌||◌, ◌&&◌, [], ◌∷◌, ◌==◌, leb, if◌then◌else◌}
use radius_go.Base.Text.{Str}

-- The bytes of a character that were read.
pub data Pending : Type 0 where
  start c2 e1 e1_9a e2 e2_80 e2_81 e3 e3_80 : Pending
  other : Pending

abbrev pub ascii_space : ℕ → Bool
ascii_space c = (c == 32) || (leb 9 c && leb c 13)

-- The next state: `start` where the byte ends a white space of Unicode, `other` where none begins so.
pub step : Pending → ℕ → Pending
step start c =
    if ascii_space c
    then start
    else if c == 194
    then c2
    else if c == 225
    then e1
    else if c == 226
    then e2
    else if c == 227
    then e3
    else other
step c2 c = if (c == 133) || (c == 160) then start else other
step e1 c = if c == 154 then e1_9a else other
step e1_9a c = if c == 128 then start else other
step e2 c = if c == 128 then e2_80 else if c == 129 then e2_81 else other
step e2_80 c =
    if (leb 128 c && leb c 138) || (c == 168) || (c == 169) || (c == 175) then start else other
step e2_81 c = if c == 159 then start else other
step e3 c = if c == 128 then e3_80 else other
step e3_80 c = if c == 128 then start else other
step other c = other

pub is_start : Pending → Bool
is_start start = true
is_start _ = false

pub scan_blank : Pending → Str → Bool
unfolding step is_start
scan_blank state [] = is_start state
scan_blank state (c ∷ s) = scan_blank (step state c) s

unfoldable pub is_blank : Str → Bool
unfolding scan_blank
is_blank s = scan_blank start s

blank_spaces : is_blank (32 ∷ 9 ∷ 226 ∷ 128 ∷ 137 ∷ 194 ∷ 160 ∷ []) ≡ true
unfolding is_blank
blank_spaces = refl

not_blank : is_blank (32 ∷ 97 ∷ 32 ∷ []) ≡ false
unfolding is_blank
not_blank = refl

broken_is_not_blank : is_blank (226 ∷ 128 ∷ []) ≡ false
unfolding is_blank
broken_is_not_blank = refl
