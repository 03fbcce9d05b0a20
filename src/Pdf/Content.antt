-- ===== src/Pdf/Content.antt =====
-- `reject_active_content` of packages/python/platform_core/pdf_merge.py.
use digital_services_platfor.Base.{
  ℕ, zero, suc, ◌+◌, ◌*◌, Bool, false, ◌&&◌, ◌||◌, Option, none, some, List, [], ◌∷◌, ltb, ◌==◌,
  if◌then◌else◌, length, exists,
}
use digital_services_platfor.Text.{Text, text}
use digital_services_platfor.Exec.{Result, ok, err, invalid_pdf}
use digital_services_platfor.Ledger.{same_text}

-- A value of pypdf: an `IndirectObject`, a dictionary or an array by its `id()`, or another.
pub data Value : Type 0 where
  indirect : ℕ → ℕ → Value
  container : ℕ → Value
  plain : Value

-- A reader of pypdf, whose object graph is not under the repository: what references stand for, the
-- keys of a dictionary (`none` for an array), and the values of a dictionary or an array.
pub record Reader : Type 0 where
  pub is_encrypted : Bool
  pub pages : ℕ
  pub trailer : Value
  pub get_object : ℕ → ℕ → Result Value
  pub dictionary_keys : ℕ → Option (List Text)
  pub children : ℕ → List Value

-- The elements of `seen`.
pub data SeenKey : Type 0 where
  reference : ℕ → ℕ → SeenKey
  object_id : ℕ → SeenKey

abbrev pub key_is : SeenKey → SeenKey → Bool
key_is (reference i g) (reference j h) = i == j && g == h
key_is (object_id i) (object_id j) = i == j
key_is _ _ = false

unfoldable pub was_seen : SeenKey → List SeenKey → Bool
was_seen k [] = false
was_seen k (j ∷ js) = key_is j k || was_seen k js

abbrev pub disallowed_keys : List Text
disallowed_keys =
    text "/AA"
    ∷ text "/AcroForm"
    ∷ text "/AF"
    ∷ text "/Annots"
    ∷ text "/Collection"
    ∷ text "/EmbeddedFiles"
    ∷ text "/EF"
    ∷ text "/Filespec"
    ∷ text "/FS"
    ∷ text "/JS"
    ∷ text "/JavaScript"
    ∷ text "/Launch"
    ∷ text "/Names"
    ∷ text "/OpenAction"
    ∷ text "/RichMedia"
    ∷ text "/SubmitForm"
    ∷ text "/ImportData"
    ∷ text "/XFA"
    ∷ text "/URI"
    ∷ text "/GoToR"
    ∷ text "/Rendition"
    ∷ text "/Movie"
    ∷ text "/Sound"
    ∷ text "/Screen"
    ∷ text "/3D"
    ∷ []

unfoldable pub is_disallowed : Text → Bool
is_disallowed key = exists (λ k. same_text k key) disallowed_keys

-- `DISALLOWED_KEYS.intersection(value.keys())`, for a dictionary.
unfoldable pub has_disallowed : Option (List Text) → Bool
unfolding is_disallowed
has_disallowed none = false
has_disallowed (some keys) = exists is_disallowed keys

abbrev pub max_pdf_objects : ℕ
max_pdf_objects = 50000

abbrev pub max_pdf_depth : ℕ
max_pdf_depth = 64

abbrev pub exceeds : Result (Unit {0})
exceeds = err (invalid_pdf "PDF object graph exceeds safety limits")

-- `pending.extend((child, depth + 1) for child in children)`; the end of `pending` is the head here.
unfoldable pub extend : List Value → ℕ → List (Value × ℕ) → List (Value × ℕ)
extend [] depth pending = pending
extend (v ∷ vs) depth pending = extend vs depth ((v, depth + 1) ∷ pending)

-- The loop, with the inspections that are left before `inspected > MAX_PDF_OBJECTS * 2`.
module _ (r : Reader) where
  unfoldable pub walk : ℕ → List (Value × ℕ) → List SeenKey → Result (Unit {0})
  walk left [] seen = ok tt
  walk zero (v ∷ pending) seen = exceeds
  walk (suc left) ((plain, depth) ∷ pending) seen =
      let rest = walk left pending seen in if ltb max_pdf_depth depth then exceeds else rest
  walk (suc left) ((indirect i g, depth) ∷ pending) seen =
      let known = walk left pending seen in
      let fresh : Result (Unit {0}) = elim (r.get_object i g) [
        | err e ↦ err e
        | ok v ↦ walk left ((v, depth + 1) ∷ pending) (reference i g ∷ seen)
      ] in
      if ltb max_pdf_depth depth
      then exceeds
      else if was_seen (reference i g) seen
      then known
      else if ltb max_pdf_objects (length seen + 1)
      then exceeds
      else fresh
  walk (suc left) ((container k, depth) ∷ pending) seen =
      let known = walk left pending seen in
      let fresh = walk left (extend (r.children k) depth pending) (object_id k ∷ seen) in
      if ltb max_pdf_depth depth
      then exceeds
      else if was_seen (object_id k) seen
      then known
      else if ltb max_pdf_objects (length seen + 1)
      then exceeds
      else if has_disallowed (r.dictionary_keys k)
      then err (invalid_pdf "PDF contains unsupported active content")
      else fresh

  unfoldable pub reject_active_content : Result (Unit {0})
  reject_active_content = walk (max_pdf_objects * 2) ((r.trailer, 0) ∷ []) []
