-- ===== src/Runtime/Hex.antt =====
-- Rows of bytes in hexadecimal notation, as `hex.EncodeToString` writes them.
use wasm_vm_v.Prelude.{ℕ, ◌+◌, ◌/◌, ◌%◌, List, [], ◌∷◌, ◌++◌, Bytes, ltb, if◌then◌else◌}

abbrev pub no_bytes : Bytes
no_bytes = []

-- The UTF-8 encoding of a character, in front of that of a text.
abbrev pub add_character : ℕ → Bytes → Bytes
add_character c bytes =
    if ltb c 128
    then c ∷ bytes
    else (if ltb c 2048
        then (192 + c / 64) ∷ (128 + c % 64) ∷ bytes
        else (if ltb c 65536
            then (224 + c / 4096) ∷ (128 + c / 64 % 64) ∷ (128 + c % 64) ∷ bytes
            else (240 + c / 262144)
              ∷ (128 + c / 4096 % 64)
              ∷ (128 + c / 64 % 64)
              ∷ (128 + c % 64)
              ∷ bytes))

abbrev pub hex_digit : ℕ → ℕ
hex_digit n = if ltb n 10 then 48 + n else 87 + n

unfoldable pub encode_to_string : Bytes → Bytes
encode_to_string [] = []
encode_to_string (b ∷ bytes) = hex_digit (b / 16) ∷ hex_digit (b % 16) ∷ encode_to_string bytes

-- The arguments of a call, each after an `@`.
unfoldable pub encode_arguments : List Bytes → Bytes
unfolding encode_to_string
encode_arguments [] = []
encode_arguments (argument ∷ arguments) =
    b'@' ∷ encode_to_string argument ++ encode_arguments arguments
