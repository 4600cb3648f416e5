-- ===== src/Session/Paths.antt =====
-- `IsValidUtf8Path` of src/lib/core/session/SessionHelpers.ipp: a path is checked before it is
-- handed to the file system. Masks and shifts are by literals, as in Util/Utf.
pub mod Laws
use tamga.Prelude.{
  ℕ, zero, suc, ◌+◌, ◌*◌, ◌/◌, ◌%◌, Bool, true, false, not, ◌&&◌, ◌||◌, [], ◌∷◌, Option, none, some,
  Bytes, length, ltb, leb, ◌==◌, if◌then◌else◌,
}

-- `code` and `extra` of a leading byte from 0x80 on.
unfoldable pub path_lead : ℕ → Option (ℕ × ℕ)
path_lead lead =
    if lead / 32 == 6
    then some (lead % 32, 1)
    else if lead / 16 == 14
    then some (lead % 16, 2)
    else if lead / 8 == 30
    then some (lead % 8, 3)
    else none

-- The inner loop: the code, and the bytes from `i + extra + 1` on.
unfoldable pub path_continuation : ℕ → ℕ → Bytes → Option (ℕ × Bytes)
path_continuation zero code path = some (code, path)
path_continuation (suc extra) code [] = none
path_continuation (suc extra) code (cont ∷ path) =
    let rest = path_continuation extra (code * 64 + cont % 64) path in
    if not (cont / 64 == 2) then none else rest

unfoldable pub is_refused_code : ℕ → ℕ → Bool
is_refused_code extra code =
    (extra == 1 && ltb code 128)
    || (extra == 2 && ltb code 2048)
    || (extra == 3 && ltb code 65536)
    || (leb 55296 code && leb code 57343)
    || ltb 1114111 code

-- After the leading byte: what follows the sequence, if it is valid.
unfoldable pub path_sequence : Option (ℕ × ℕ) → Bytes → Option Bytes
unfolding path_continuation is_refused_code
path_sequence none path = none
path_sequence (some (code, extra)) path =
    if leb (suc (length path)) extra then none else elim (path_continuation extra code path) [
      | none ↦ none
      | some (full, rest) ↦ if is_refused_code extra full then none else some rest
    ]

unfoldable pub path_step : ℕ → Bytes → Option Bytes
unfolding path_lead path_sequence
path_step lead path = if ltb lead 128 then some path else path_sequence (path_lead lead) path

-- `for (i = 0; i < size;)`, on fuel: each turn takes a byte.
unfoldable pub path_loop : ℕ → Bytes → Bool
unfolding path_step
path_loop fuel [] = true
path_loop zero (lead ∷ path) = false
path_loop (suc fuel) (lead ∷ path) = elim (path_step lead path) [
  | none ↦ false
  | some rest ↦ path_loop fuel rest
]

unfoldable pub is_valid_utf8_path : Bytes → Bool
unfolding path_loop
is_valid_utf8_path path = path_loop (length path) path
