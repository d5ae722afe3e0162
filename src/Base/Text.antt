-- ===== src/Base/Text.antt =====
-- C strings as the list of their bytes, without the final NUL, and the functions of string.h that
-- the program calls.
use Prim.Native.Char.{code}
use Prim.Native.String.{String}
use Prim.Native.Nat.{ℕ}
use mathlib.Core.Path.{◌≡◌, refl}
use mathlib.Core.Bool.{Bool, true, false, ◌&&◌}
use mathlib.Core.Logic.{◌↔◌, ◌≢◌}
use mathlib.Core.List.{List, [], ◌∷◌, ◌++◌}
use native.Mathlib.Omega.{arith}
use sshnack.Base.Tests.{◌==◌, leb, if◌then◌else◌}
use sshnack.Base.Lists.{All, All-concat}

abbrev pub Text : Type 0
Text = List ℕ

-- The bytes of an ASCII literal.
abbrev pub codes : String → Text
codes String.[] = []
codes (String.◌∷◌ c s) = code c ∷ codes s

-- `strcmp(s, t) == 0`
unfoldable pub str_eq : Text → Text → Bool
str_eq [] [] = true
str_eq [] (_ ∷ _) = false
str_eq (_ ∷ _) [] = false
str_eq (a ∷ s) (b ∷ t) = (a == b) && str_eq s t

pub str_eq_refl : (s : Text) → str_eq s s ≡ true
unfolding str_eq
str_eq_refl [] = refl
str_eq_refl (a ∷ s) = ground (arith, str_eq_refl s)

pub str_eq_sound : (s t : Text) → str_eq s t ≡ true → s ≡ t
unfolding str_eq
str_eq_sound [] [] h = refl
str_eq_sound [] (_ ∷ _) h = cc
str_eq_sound (_ ∷ _) [] h = cc
str_eq_sound (a ∷ s) (b ∷ t) h = ground (arith, str_eq_sound s t)

pub str_eq_iff : (s t : Text) → (str_eq s t ≡ true) ↔ (s ≡ t)
str_eq_iff s t = (str_eq_sound s t, λ e. rw e (str_eq_refl t))

abbrev pub is_digit : ℕ → Bool
is_digit c = leb b'0' c && leb c b'9'

-- `strtok` with a set of one delimiter, called until it returns NULL: the tokens of a text. `cur`
-- holds the bytes of the token that has begun.
tokens_from : ℕ → Text → Text → List Text
tokens_from d [] [] = []
tokens_from d (a ∷ cur) [] = (a ∷ cur) ∷ []
tokens_from d [] (c ∷ s) = tokens_from d (if c == d then [] else c ∷ []) s
tokens_from d (a ∷ cur) (c ∷ s) =
    let closed = (a ∷ cur) ∷ tokens_from d [] s in
    let longer = tokens_from d (a ∷ (cur ++ c ∷ [])) s in if c == d then closed else longer

unfoldable pub tokens : ℕ → Text → List Text
unfolding tokens_from
tokens d s = tokens_from d [] s

-- What `strtok` hands out: not empty, and without the delimiter.
abbrev pub IsToken : ℕ → Text → Type 0
IsToken d t = (t ≢ []) × All (λ c. c ≢ d) t

tokens_from-IsToken :
    (d : ℕ) (cur s : Text) → All (λ c. c ≢ d) cur → All (IsToken d) (tokens_from d cur s)
unfolding tokens_from
tokens_from-IsToken d [] [] h = tt
tokens_from-IsToken d (a ∷ cur) [] h = ((λ e. cc, h), tt)
tokens_from-IsToken d [] (c ∷ s) h =
    ground (arith, tokens_from-IsToken d [] s tt, tokens_from-IsToken d (c ∷ []) s)
tokens_from-IsToken d (a ∷ cur) (c ∷ s) h = ground (
  arith,
  tokens_from-IsToken d [] s tt,
  tokens_from-IsToken d (a ∷ (cur ++ c ∷ [])) s,
  All-concat (λ (c : ℕ). c ≢ d) cur {x = c} h.1,
)

pub tokens-IsToken : (d : ℕ) (s : Text) → All (IsToken d) (tokens d s)
unfolding tokens
tokens-IsToken d s = tokens_from-IsToken d [] s tt
