-- ===== src/Resumes/Names.antt =====
-- The names that an uploaded resume may have (backend/server/resumes.go), over `filepath.Base` and
-- `filepath.Ext`.
use jobs_scraper.Prelude.{
  ◌||◌, Option, none, some, List, [], ◌∷◌, ltb, if◌then◌else◌, ◌==◌ as nat_beq,
}
use jobs_scraper.Prelude.Keys.{◌==◌, nat_eq, list_eq, member}
use jobs_scraper.Prelude.Text.{
  Text, Unicode, codes, byte_len, split, to_lower, trim_right_by, trim_space,
}

abbrev pub last : Text → List Text → Text
last s [] = s
last s (t ∷ ts) = last t ts

abbrev pub base_of : Text → Text
base_of s = if s == [] then codes "/" else last [] (split s b'/')

-- `filepath.Base`
abbrev pub base : Text → Text
base s = if s == [] then codes "." else base_of (trim_right_by (λ c. nat_beq c b'/') s)

-- `filepath.Ext` of a name without a slash: from its last dot on.
abbrev pub ext : Text → Text
ext [] = []
ext (c ∷ s) =
    let rest = ext s in if rest == [] then (if nat_beq c b'.' then c ∷ s else []) else rest

abbrev pub resume_extensions : List Text
resume_extensions = codes ".pdf" ∷ codes ".doc" ∷ codes ".docx" ∷ []

module _ (u : Unicode) where
  abbrev pub check_name : Text → Option Text
  check_name file_name =
      if file_name == codes "." || (file_name == [] || ltb 255 (byte_len file_name))
      then none
      else if member (to_lower u (ext file_name)) resume_extensions
      then some file_name
      else none

  -- `none` for an error; its message is `name_message`.
  unfoldable pub normalize_resume_name : Text → Option Text
  normalize_resume_name raw = check_name (base (trim_space raw))

  abbrev pub message_of : Text → Text
  message_of file_name =
      if file_name == codes "." || (file_name == [] || ltb 255 (byte_len file_name))
      then codes "a valid resume file name is required"
      else codes "resume must be a PDF, DOC, or DOCX file"

  abbrev pub name_message : Text → Text
  name_message raw = message_of (base (trim_space raw))

  abbrev pub content_type_of : Text → Text
  content_type_of extension =
      if extension == codes ".pdf"
      then codes "application/pdf"
      else if extension == codes ".doc"
      then codes "application/msword"
      else codes "application/vnd.openxmlformats-officedocument.wordprocessingml.document"

  unfoldable pub content_type_for_resume : Text → Text
  content_type_for_resume file_name = content_type_of (to_lower u (ext file_name))
