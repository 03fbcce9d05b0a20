-- ===== src/Files/Identify.antt =====
-- `identify` of packages/python/platform_core/files.py, with what it uses of `PurePosixPath`.
use digital_services_platfor.Base.{
  ℕ, zero, suc, ◌+◌, Bool, true, false, not, ◌&&◌, ◌||◌, Option, none, some, List, [], ◌∷◌, map,
  ltb, leb, ◌==◌, if◌then◌else◌, length,
}
use digital_services_platfor.Text.{Text, text, is_empty}
use digital_services_platfor.Exec.{Result, ok, err, invalid_file}
use digital_services_platfor.Ledger.{same_text}

-- The parts of a path between its slashes.
unfoldable pub path_parts : Text → List Text
path_parts [] = [] ∷ []
path_parts (c ∷ s) = elim (path_parts s) [
  | [] ↦ (c ∷ []) ∷ []
  | p ∷ ps ↦ if c == b'/' then [] ∷ p ∷ ps else (c ∷ p) ∷ ps
]

-- `PurePosixPath` drops empty parts and `.`.
abbrev pub dropped_part : Text → Bool
dropped_part p = is_empty p || same_text p (text ".")

unfoldable pub last_part : List Text → Text
last_part [] = []
last_part (p ∷ ps) =
    let rest = last_part ps in
    if not (is_empty rest) then rest else if dropped_part p then [] else p

-- `PurePosixPath(s).name`
unfoldable pub path_name : Text → Text
unfolding path_parts last_part
path_name s = last_part (path_parts s)

-- What stands from the last dot on.
unfoldable pub last_dot : Text → Option Text
last_dot [] = none
last_dot (c ∷ s) = elim (last_dot s) [
  | some t ↦ some t
  | none ↦ if c == b'.' then some (c ∷ s) else none
]

-- `PurePosixPath(s).suffix`: a dot that begins or ends the name begins no suffix.
unfoldable pub name_suffix : Text → Text
unfolding last_dot
name_suffix [] = []
name_suffix (c ∷ s) = elim (last_dot s) [ none ↦ [] | some t ↦ if ltb 1 (length t) then t else [] ]

unfoldable pub path_suffix : Text → Text
unfolding path_name name_suffix
path_suffix s = name_suffix (path_name s)

-- `c.lower()` of an ASCII letter. No other code point becomes a letter of the suffixes and types
-- below.
abbrev pub lower_char : ℕ → ℕ
lower_char c = if leb b'A' c && leb c b'Z' then c + 32 else c

abbrev pub lower_ascii : Text → Text
lower_ascii = map lower_char

unfoldable pub starts_with : List ℕ → List ℕ → Bool
starts_with [] bytes = true
starts_with (b ∷ bs) [] = false
starts_with (b ∷ bs) (x ∷ xs) = b == x && starts_with bs xs

unfoldable pub drop : ℕ → List ℕ → List ℕ
drop zero xs = xs
drop (suc n) [] = []
drop (suc n) (x ∷ xs) = drop n xs

abbrev pub pdf_signature : List ℕ
pdf_signature = text "%PDF-"

abbrev pub png_signature : List ℕ
png_signature = 0x89 ∷ b'P' ∷ b'N' ∷ b'G' ∷ 13 ∷ 10 ∷ 0x1a ∷ 10 ∷ []

abbrev pub jpeg_signature : List ℕ
jpeg_signature = 0xff ∷ 0xd8 ∷ 0xff ∷ []

-- `signatures.get(suffix)`: the type of a suffix, and whether the bytes begin as it wants.
unfoldable pub signature_of : Text → List ℕ → Option (Text × Bool)
unfolding starts_with drop
signature_of suffix bytes =
    if same_text suffix (text ".pdf")
    then some (text "application/pdf", starts_with pdf_signature bytes)
    else if same_text suffix (text ".png")
    then some (text "image/png", starts_with png_signature bytes)
    else if same_text suffix (text ".jpg") || same_text suffix (text ".jpeg")
    then some (text "image/jpeg", starts_with jpeg_signature bytes)
    else if same_text suffix (text ".webp")
    then some (
      text "image/webp",
      starts_with (text "RIFF") bytes && starts_with (text "WEBP") (drop 8 bytes),
    )
    else none

abbrev pub slashed : Text → Text
slashed = map (λ c. if c == b'\\' then b'/' else c)

abbrev pub name_accepted : Text → Bool
name_accepted name =
    not (is_empty name) && leb (length name) 200 && same_text name (path_name (slashed name))

unfoldable pub identify : List ℕ → Text → Text → ℕ → Result Text
unfolding path_name path_suffix signature_of
identify bytes name claimed limit =
    if not (name_accepted name)
    then err (invalid_file "invalid file name")
    else if ltb limit 1 || length bytes == 0 || ltb limit (length bytes)
    then err (invalid_file "file is empty or exceeds the size limit")
    else elim (signature_of (lower_ascii (path_suffix name)) bytes) [
      | none ↦ err (invalid_file "unsupported file or mismatched type")
      | some (mime, begins) ↦
          if begins && same_text (lower_ascii claimed) mime
          then ok mime
          else err (invalid_file "unsupported file or mismatched type")
    ]
