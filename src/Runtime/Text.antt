-- ===== src/Runtime/Text.antt =====
-- Texts as rows of bytes: isASCIIString of vmhost/contexts/validator.go, and the hexadecimal
-- notation of the data of a transfer.
use Prim.Native.Char.{code}
use Prim.Native.String.{String, [], ◌∷◌}
use wasm_vm_v.Prelude.{Bool, true, ◌&&◌, leb, Bytes}
use wasm_vm_v.Runtime.Hex.{no_bytes, add_character}

-- A character is one byte, which is at most MaxASCII, or several, which are larger.
unfoldable pub is_ascii_string : String → Bool
is_ascii_string [] = true
is_ascii_string (c ∷ text) = leb (code c) 127 && is_ascii_string text

-- `[]byte(text)`, for a text that is valid UTF-8.
unfoldable pub text_bytes : String → Bytes
text_bytes [] = no_bytes
text_bytes (c ∷ text) = add_character (code c) (text_bytes text)
