-- ===== src/Domain/Names.antt =====
-- internal/user/user.go and internal/clt/collection.go: the rules for nicknames, collection names
-- and collection ids. The checks are those of the package strvalid, which is not under the
-- repository: `Validation`.
use wavelen.Prelude.{
  ℕ, ◌≤◌, Bytes, codes, Bool, true, false, Option, none, some, length, ◌≡◌, Result, ok, err, on_err,
}
use wavelen.Errors.{Error, invalid}
use wavelen.Color.Hex.{Parser}

-- `strvalid.SepInner`, and the other places where a separator may be allowed.
pub data Separator : Type 0 where
  refused inner : Separator

-- `strvalid.Config`
pub record Config : Type 0 where
  pub subject : Bytes
  pub min_len : ℕ
  pub max_len : ℕ
  pub digits : Bool
  pub underscore : Separator
  pub dash : Separator
  pub allow_repeat_sep : Bool
  pub echo_value : Bool

-- `strvalid.UnicodeConfig`
pub record UnicodeConfig : Type 0 where
  pub subject : Bytes
  pub min_runes : ℕ
  pub max_runes : ℕ

-- `strvalid.NormalizeConfig`
pub record NormalizeConfig : Type 0 where
  pub trim_spaces : Bool
  pub lowercase : Bool

-- strvalid: a check answers the text of an error or nothing; an accepted ASCII text has a length
-- between the bounds.
pub record Validation : Type 0 where
  pub hex : Parser
  pub normalize : NormalizeConfig → Bytes → Bytes
  pub validate : Config → Bytes → Option Bytes
  pub validate_unicode : UnicodeConfig → Bytes → Option Bytes
  pub parse_uuid : Bytes → Result Bytes ℕ
  pub validate_len :
      (c : Config) (s : Bytes)
      → validate c s ≡ none
      → (c.min_len ≤ length s) × (length s ≤ c.max_len)

abbrev pub nickname_cfg : Config
nickname_cfg = record {
  subject = codes "nickname";
  min_len = 3;
  max_len = 30;
  digits = true;
  underscore = inner;
  dash = inner;
  allow_repeat_sep = true;
  echo_value = false;
}

abbrev pub name_cfg : UnicodeConfig
name_cfg = record { subject = codes "collection name"; min_runes = 1; max_runes = 60 }

checked : Bytes → Option Bytes → Result Error Bytes
checked s none = ok s
checked s (some text) = err (invalid text)

module _ (v : Validation) where
  -- `NormalizeNickname`
  unfoldable pub normalize_nickname : Bytes → Result Error Bytes
  unfolding checked
  normalize_nickname s =
      let nick = v.normalize (record { trim_spaces = true; lowercase = true }) s in
      checked nick (v.validate nickname_cfg nick)

  -- `NormalizeName`
  unfoldable pub normalize_name : Bytes → Result Error Bytes
  unfolding checked
  normalize_name s =
      let name = v.normalize (record { trim_spaces = true; lowercase = false }) s in
      checked name (v.validate_unicode name_cfg name)

  -- `ParseID`
  unfoldable pub parse_id : Bytes → Result Error ℕ
  parse_id s = on_err invalid (v.parse_uuid s)
