-- ===== src/Chars.antt =====
-- Texts as lists of code points.
use clx_preprocessing.Prelude.{
  Bool, List, leb, ℕ, ◌&&◌, ◌==◌, ◌||◌, comparable_texts, comparable_numbers,
}

abbrev pub Text : Type 0
Text = List ℕ

abbrev pub newline : ℕ
newline = 10

-- `str.isspace` of one character.
unfoldable pub is_space : ℕ → Bool
is_space c =
    leb 9 c && leb c 13
    || leb 28 c && leb c 32
    || c == 133
    || c == 160
    || c == 5760
    || leb 8192 c && leb c 8202
    || c == 8232
    || c == 8233
    || c == 8239
    || c == 8287
    || c == 12288
