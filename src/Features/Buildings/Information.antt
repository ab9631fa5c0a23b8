-- ===== src/Features/Buildings/Information.antt =====
-- services/features-service/internal/service/building_service.go: the information of a building, its
-- validation and its merge, with NormalizePersianNumbers of shared/pkg/helpers/numbers.go. A text is
-- its code points; the column is the information itself, or none where it is the empty text, since
-- encoding/json reads back what it has written.
use metaverse_rang_microserv.Common.{
  ℕ, ◌+◌, ◌-◌, Bool, true, false, not, ◌&&◌, ◌||◌, Option, none, some, List, [], ◌∷◌, length, ltb,
  leb, ◌==◌, if◌then◌else◌,
}

abbrev pub Text : Type 0
Text = List ℕ

pub record BuildingInformation : Type 0 where
  pub activity_line : Text
  pub name : Text
  pub address : Text
  pub postal_code : Text
  pub website : Text
  pub description : Text

pub record Url : Type 0 where
  pub scheme : Text
  pub host : Text

-- what is taken from the standard library: strings.TrimSpace and url.Parse
pub record Texts : Type 0 where
  pub trim : Text → Text
  pub parse_url : Text → Option Url

unfoldable pub is_empty : Text → Bool
is_empty [] = true
is_empty (c ∷ t) = false

-- the bytes of a code point in UTF-8, and of a text
unfoldable pub bytes_of : ℕ → ℕ
bytes_of c = if ltb c 0x80 then 1 else if ltb c 0x800 then 2 else if ltb c 0x10000 then 3 else 4

unfoldable pub byte_length : Text → ℕ
unfolding bytes_of
byte_length [] = 0
byte_length (c ∷ t) = bytes_of c + byte_length t

-- `persianToLatin`, and the character itself where it has no entry
unfoldable pub to_latin : ℕ → ℕ
to_latin c =
    if leb 0x6f0 c && leb c 0x6f9
    then c - 0x6f0 + 0x30
    else if leb 0x660 c && leb c 0x669
    then c - 0x660 + 0x30
    else c

unfoldable pub normalize_persian_numbers : Text → Text
unfolding to_latin
normalize_persian_numbers [] = []
normalize_persian_numbers (c ∷ t) = to_latin c ∷ normalize_persian_numbers t

-- `strings.ReplaceAll(t, c, "")`
unfoldable pub remove_all : ℕ → Text → Text
remove_all c [] = []
remove_all c (d ∷ t) = let rest = remove_all c t in if d == c then rest else d ∷ rest

unfoldable pub all_digits : Text → Bool
all_digits [] = true
all_digits (c ∷ t) = leb 0x30 c && leb c 0x39 && all_digits t

unfoldable pub clean_postal_code : Text → Text
unfolding normalize_persian_numbers remove_all
clean_postal_code t = remove_all 0x20 (remove_all 0x2d (normalize_persian_numbers t))

unfoldable pub is_postal_code : Text → Bool
unfolding clean_postal_code all_digits
is_postal_code t = length (clean_postal_code t) == 10 && all_digits (clean_postal_code t)

unfoldable pub same_text : Text → Text → Bool
same_text [] [] = true
same_text (c ∷ s) (d ∷ t) = c == d && same_text s t
same_text _ _ = false

-- http and https
abbrev pub http : Text
http = 0x68 ∷ 0x74 ∷ 0x74 ∷ 0x70 ∷ []

abbrev pub https : Text
https = 0x68 ∷ 0x74 ∷ 0x74 ∷ 0x70 ∷ 0x73 ∷ []

unfoldable pub is_web_url : Option Url → Bool
unfolding is_empty same_text
is_web_url none = false
is_web_url (some u) =
    not (is_empty u.scheme)
    && not (is_empty u.host)
    && (same_text u.scheme http || same_text u.scheme https)

unfoldable pub no_information : BuildingInformation
no_information = record {
  activity_line = [];
  name = [];
  address = [];
  postal_code = [];
  website = [];
  description = [];
}

unfoldable pub has_no_field : BuildingInformation → Bool
unfolding is_empty
has_no_field info =
    is_empty info.activity_line
    && is_empty info.name
    && is_empty info.address
    && is_empty info.postal_code
    && is_empty info.website
    && is_empty info.description

unfoldable pub or_no_information : Option BuildingInformation → BuildingInformation
unfolding no_information
or_no_information none = no_information
or_no_information (some old) = old

module _ (texts : Texts) where
  -- `ValidateBuildingInformation`: true where it returns nil
  unfoldable pub validate_building_information : BuildingInformation → Bool
  unfolding byte_length is_postal_code is_web_url is_empty
  validate_building_information info =
      leb (byte_length info.activity_line) 255
      && leb (byte_length info.name) 255
      && leb (byte_length info.address) 255
      && (is_empty info.postal_code || is_postal_code info.postal_code)
      && (is_empty info.website
          || (leb (byte_length info.website) 255 && is_web_url (texts.parse_url info.website)))
      && leb (byte_length info.description) 5000

  -- a field of `infoMap`, which is left out where it is empty
  unfoldable pub trimmed : Text → Text
  unfolding is_empty
  trimmed t = if is_empty t then [] else texts.trim t

  unfoldable pub trim_information : BuildingInformation → BuildingInformation
  unfolding trimmed
  trim_information info = record {
    activity_line = texts.trim info.activity_line;
    name = trimmed info.name;
    address = trimmed info.address;
    postal_code = trimmed info.postal_code;
    website = trimmed info.website;
    description = trimmed info.description;
  }

  -- a field of the update, or the one that is there
  unfoldable pub merged_field : Text → Text → Text
  unfolding is_empty
  merged_field old new = if is_empty new then old else texts.trim new

  unfoldable pub merge_fields : BuildingInformation → BuildingInformation → BuildingInformation
  unfolding merged_field
  merge_fields old new = record {
    activity_line = merged_field old.activity_line new.activity_line;
    name = merged_field old.name new.name;
    address = merged_field old.address new.address;
    postal_code = merged_field old.postal_code new.postal_code;
    website = merged_field old.website new.website;
    description = merged_field old.description new.description;
  }

  -- `mergeBuildingInformation`: none where no field is left
  unfoldable pub merge_building_information :
      Option BuildingInformation → BuildingInformation → Option BuildingInformation
  unfolding merge_fields has_no_field or_no_information
  merge_building_information existing update =
      if has_no_field (merge_fields (or_no_information existing) update)
      then none
      else some (merge_fields (or_no_information existing) update)
