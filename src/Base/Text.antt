-- ===== src/Base/Text.antt =====
-- Text literals as lists of their bytes, which are ASCII.
use Prim.Native.Char.{code}
use Prim.Native.String.{String}
use Prim.Native.Nat.{ℕ}
use mathlib.Core.Path.{◌≡◌, refl}
use mathlib.Core.List.{List, [], ◌∷◌}

abbrev pub ascii : String → List ℕ
ascii String.[] = []
ascii (String.◌∷◌ c s) = code c ∷ ascii s

crlf_test : ascii "\r\nA\"" ≡ 13 ∷ 10 ∷ 65 ∷ 34 ∷ []
crlf_test = refl
