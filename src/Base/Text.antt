-- ===== src/Base/Text.antt =====
-- Python's text as the list of its code points, with the operations the program calls on it.
use Prim.Native.Nat.{ℕ}
use Prim.Native.Char.{code}
use Prim.Native.String.{String}
use mathlib.Core.Bool.{Bool, true, false, ◌&&◌, ◌||◌}
use mathlib.Core.List.{List, [], ◌∷◌, reverse}
use mathlib.Core.Path.{◌≡◌, refl}
use native.Mathlib.Omega.{arith}
use learning_qa_assistant.Base.Tests.{leb, ◌==◌, if◌then◌else◌}
use learning_qa_assistant.Base.Lists.{length, all}

abbrev pub Text : Type 0
Text = List ℕ

abbrev pub codes : String → Text
codes String.[] = []
codes (String.◌∷◌ c s) = code c ∷ codes s

unfoldable pub text_eq : Text → Text → Bool
text_eq [] [] = true
text_eq [] (b ∷ t) = false
text_eq (a ∷ s) [] = false
text_eq (a ∷ s) (b ∷ t) = a == b && text_eq s t

-- `text.startswith(prefix)`
unfoldable pub starts_with : Text → Text → Bool
starts_with text [] = true
starts_with [] (p ∷ ps) = false
starts_with (c ∷ cs) (p ∷ ps) = c == p && starts_with cs ps

-- The code points for which `str.isspace` holds.
unfoldable pub is_space : ℕ → Bool
is_space c =
    (leb 9 c && leb c 13)
    || (leb 28 c && leb c 32)
    || c == 133
    || c == 160
    || c == 5760
    || (leb 8192 c && leb c 8202)
    || c == 8232
    || c == 8233
    || c == 8239
    || c == 8287
    || c == 12288

drop_space : Text → Text
unfolding is_space
drop_space [] = []
drop_space (c ∷ cs) = if is_space c then drop_space cs else c ∷ cs

-- `text.strip()`
unfoldable pub strip : Text → Text
unfolding drop_space
strip text = reverse (drop_space (reverse (drop_space text)))

-- `1 <= len(text.strip()) <= limit`
unfoldable pub stripped_within : ℕ → Text → Bool
unfolding strip
stripped_within limit text = leb 1 (length (strip text)) && leb (length (strip text)) limit

is_key_char : ℕ → Bool
is_key_char c =
    (leb b'A' c && leb c b'Z')
    || (leb b'a' c && leb c b'z')
    || (leb b'0' c && leb c b'9')
    || c == b'_'
    || c == b'.'
    || c == b':'
    || c == b'/'
    || c == b'-'

-- `re.fullmatch(r"[A-Za-z0-9_.:/-]{1,128}", key)`
unfoldable pub is_operation_key : Text → Bool
unfolding is_key_char
is_operation_key key = leb 1 (length key) && leb (length key) 128 && all is_key_char key

pub text_eq_refl : (s : Text) → text_eq s s ≡ true
unfolding text_eq
text_eq_refl [] = refl
text_eq_refl (a ∷ s) = ground (arith, text_eq_refl s)

pub text_eq_sound : (s t : Text) → text_eq s t ≡ true → s ≡ t
unfolding text_eq
text_eq_sound [] [] h = refl
text_eq_sound [] (b ∷ t) h = cc
text_eq_sound (a ∷ s) [] h = cc
text_eq_sound (a ∷ s) (b ∷ t) h = ground (arith, text_eq_sound s t)
