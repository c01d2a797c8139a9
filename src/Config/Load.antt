-- ===== src/Config/Load.antt =====
-- Reading the file in chunks gives the whole file.
use srslog.Base.{
  ℕ, zero, suc, ◌<◌, ◌≡◌, refl, sym, ◌∙◌, ap, inl, inr, Option-cases, Option, none, some, [], ◌∷◌,
  ◌++◌, arith, length, take, drop, length-drop, take-append-drop,
}
use mathlib.Core.List.{append-nil, append_assoc}
use srslog.Bytes.{Bytes}
use srslog.ErrorCode.{success, file_open}
use srslog.Config.{ConfigInfo, read_chunks, load_configfile}

read_chunks-append :
    (f : ℕ) (left json : Bytes) → length left < f → read_chunks f left json ≡ json ++ left
unfolding read_chunks
read_chunks-append zero left json h = absurd (omega arith)
read_chunks-append (suc f) [] json h = sym (append-nil json)
read_chunks-append (suc f) (b ∷ left) json h =
    read_chunks-append f (drop 1024 (b ∷ left)) (json ++ take 1024 (b ∷ left))
      (omega (arith, length-drop 1024 (b ∷ left)))
    ∙ append_assoc json (take 1024 (b ∷ left)) (drop 1024 (b ∷ left))
    ∙ ap (◌++◌ json) (take-append-drop 1024 (b ∷ left))

-- Loading a file that opens succeeds and appends all its bytes, whatever its length, to the text
-- held; a null name or a file that does not open gives the error and leaves the configuration.
pub load_configfile_result :
    (fopen : Bytes → Option Bytes) (file : Option Bytes) (c : ConfigInfo)
    → load_configfile fopen file c ≡ elim file [
      | none ↦ (file_open, c)
      | some f ↦ elim (fopen f) [
        | none ↦ (file_open, c)
        | some content ↦ (success, record c { json = c.json ++ content })
      ]
    ]
unfolding load_configfile
load_configfile_result fopen none c = refl
load_configfile_result fopen (some f) c = elim (Option-cases (fopen f)) [
  | inl e ↦ rw (e, load_configfile)
  | inr (content, e) ↦
      rw
        (e, load_configfile, read_chunks-append (suc (length content)) content c.json (omega arith))
]
