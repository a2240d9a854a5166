-- ===== src/Json/Cursor.antt =====
-- The state of the JSON parser of src/json.cpp, and its results. A member function that returns
-- `bool` and fills an output returns a `Parse`.
use chaos_forger.Prelude.{
  ℕ, suc, ◌+◌, Bool, false, ◌||◌, [], ◌∷◌, ◌++◌, Bytes, text, drop, to_string, is_empty, ◌==◌,
  if◌then◌else◌,
}

-- `rest` is the text from `pos_` on; `message` is the member `err_`.
pub record Cursor : Type 0 where
  pub rest : Bytes
  pub pos : ℕ
  pub message : Bytes

-- `out_of_fuel` is no result of the code: a loop of the model ran out of its fuel.
pub data Parse {ℓ} (A : Type ℓ) : Type ℓ where
  parsed : A → Cursor → Parse A
  failed : Cursor → Parse A
  out_of_fuel : Parse A

infixl 5 ◌>>=◌
abbrev pub ◌>>=◌ {ℓ κ} : {A : Type ℓ} {B : Type κ} → Parse A → (A → Cursor → Parse B) → Parse B
parsed a c >>= next = next a c
failed c >>= next = failed c
out_of_fuel >>= next = out_of_fuel

-- The first message stays.
unfoldable pub fail : Bytes → Cursor → Cursor
fail msg c =
    if is_empty c.message
    then record c { message = msg ++ (text " at offset " ++ to_string c.pos) }
    else c

-- `pos_ += n`.
abbrev pub advance : ℕ → Cursor → Cursor
advance n c = record c { rest = drop n c.rest; pos = c.pos + n }

abbrev pub is_space : ℕ → Bool
is_space c = c == b' ' || (c == b'\t' || (c == b'\n' || c == b'\r'))

-- How many blanks the text starts with.
unfoldable pub blanks : Bytes → ℕ
blanks [] = 0
blanks (c ∷ cs) = let more = blanks cs in if is_space c then suc more else 0

unfoldable pub skip_ws : Cursor → Cursor
skip_ws c = advance (blanks c.rest) c

-- The test of `eat`, which then takes the character.
unfoldable pub starts : ℕ → Bytes → Bool
starts ch [] = false
starts ch (c ∷ _) = c == ch
