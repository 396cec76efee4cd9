-- ===== src/Api/Images.antt =====
-- imageapi.ImageStream, with the fields that the code uses, and semver.Version. The texts that the
-- code takes apart are lists of ASCII codes; those that it only compares are strings.
use hypershift_lite.Prelude.{ℕ, String, List, Option}
use hypershift_lite.Prelude.Dict.{Dict}

abbrev pub Text : Type 0
Text = List ℕ

-- `from` is the name in a pointer to an object reference.
pub record TagReference : Type 0 where
  pub name : String
  pub from : Option String
  pub annotations : Dict Text

pub record ImageStream : Type 0 where
  pub name : Text
  pub tags : List TagReference

pub record Semver : Type 0 where
  pub major : ℕ
  pub minor : ℕ
  pub patch : ℕ
  pub pre : List Text
  pub build : List Text
