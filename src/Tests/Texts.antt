-- ===== src/Tests/Texts.antt =====
-- Tests of common/json5/json5.go.
use yav2bx.Base.{◌≡◌, refl, true, [], ◌∷◌, ◌++◌, none, some, ◌>>=◌, Ensures}
use yav2bx.Json5.{Bytes, is_ws, prep, comma_loop, prep_loop}
use yav2bx.Json5.Blank.{Blanked, prep-Blanked}
use yav2bx.Json5.Literals.{Literal, prep_string}
use yav2bx.Json5.Reader.{TrimNodeReader, remaining}

-- `[1,]`
abbrev one_item : Bytes
one_item = b'[' ∷ b'1' ∷ b',' ∷ b']' ∷ []

one_item-prep : prep one_item ≡ some (b'[' ∷ b'1' ∷ b' ' ∷ b']' ∷ [])
unfolding prep prep_loop comma_loop
one_item-prep = refl

prep-Blanked_example : Ensures (Blanked one_item) (prep one_item)
prep-Blanked_example = prep-Blanked one_item

-- The literal `"//"`.
slashes : Literal (b'/' ∷ b'/' ∷ [])
slashes = Literal.char b'/' refl refl (Literal.char b'/' refl refl Literal.close)

prep_string_example :
    prep (b'"' ∷ (b'/' ∷ b'/' ∷ []) ++ (b'"' ∷ one_item))
    ≡ (prep one_item >>= λ t. some (b'"' ∷ (b'/' ∷ b'/' ∷ []) ++ (b'"' ∷ t)))
prep_string_example = prep_string one_item slashes

space : is_ws b' ' ≡ true
unfolding is_ws
space = refl

abbrev reader : TrimNodeReader
reader = record { source = some one_item; br = none }

reader-remaining : remaining reader ≡ some (b'[' ∷ b'1' ∷ b' ' ∷ b']' ∷ [])
unfolding remaining prep prep_loop comma_loop
reader-remaining = refl
