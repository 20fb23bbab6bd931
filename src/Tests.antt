-- ===== src/Tests.antt =====
-- Concrete instances of what the model stands on, and a small world to run it in.
pub mod Stored
pub mod Sessions
pub mod Requests
pub mod Coarse
pub mod Colors
pub mod Running
pub mod Walking
pub mod Adding
pub mod Creating
pub mod Starting
pub mod Answered
pub mod Exiting
pub mod Bagged
use wavelen.Prelude.{
  ℕ, zero, suc, ◌+◌, ◌≤◌, Bytes, codes, Bool, true, false, ◌&&◌, none, some, List, [], ◌∷◌, length,
  leb, ◌==◌, bytes_eq, bytes_beq, ==_refl, ==_iff, if◌then◌else◌, Result, ok, err, ◌≡◌, refl, ap,
  arith, Option,
}
use wavelen.Color.Hex.{Parser, is_hex}
use wavelen.Domain.Names.{Config, NormalizeConfig, Validation}
use wavelen.Domain.Auth.{Hashing, Comparison, matched, mismatched}
use wavelen.Encoding.Parts.{Lacks}
use wavelen.Encoding.Base64.{AreBytes}
use wavelen.Storage.Schema.{User, Collection, CollectionRow, Color, ColorRow, Tables, empty_tables}
use wavelen.Storage.Actions.{Env, World}
use wavelen.Http.Cursor.{TimeText}
use wavelen.Http.Colors.{ColorConfig}
use wavelen.Http.Message.{Request}

abbrev pub strict : Bytes → Result Bytes Bytes
strict s = if is_hex s then ok s else if is_hex (b'#' ∷ s) then ok (b'#' ∷ s) else err []

pub strict-is_hex : (s h : Bytes) → strict s ≡ ok h → is_hex h ≡ true
strict-is_hex s h e = ground arith

pub strict_keeps : (h : Bytes) → is_hex h ≡ true → strict h ≡ ok h
strict_keeps h e = ground arith

-- It accepts normalized codes, with the '#' or without it.
abbrev pub parser : Parser
parser = record { parse_hex = strict; normalizes = strict-is_hex; keeps = strict_keeps }

abbrev pub fits : Config → Bytes → Option Bytes
fits c s = if leb c.min_len (length s) && leb (length s) c.max_len then none else some []

pub fits_len :
    (c : Config) (s : Bytes) → fits c s ≡ none → (c.min_len ≤ length s) × (length s ≤ c.max_len)
fits_len c s e = (ground arith, ground arith)

-- Lengths are checked, and the id of a text is its length and 100.
abbrev pub validation : Validation
validation = record {
  hex = parser;
  normalize = λ c s. s;
  validate = fits;
  validate_unicode = λ c s. none;
  parse_uuid = λ s. ok (length s + 100);
  validate_len = fits_len;
}

abbrev pub compare : Bytes → Bytes → Comparison
compare hash password = if hash == password then matched else mismatched

pub compare_same :
    (salt password hash : Bytes)
    → ◌≡◌ {A = Result ℕ Bytes} (ok password) (ok hash)
    → compare hash password ≡ matched
compare_same salt password hash e = ground (arith, ==_refl hash, ==_iff hash password)

-- Nothing is hidden by it.
abbrev pub hashing : Hashing
hashing = record {
  generate = λ salt password. ok password;
  compare = compare;
  sha256 = λ s. s;
  generate-compare = compare_same;
}

abbrev pub tally : ℕ → Bytes
tally zero = []
tally (suc n) = b'1' ∷ tally n

pub length-tally : (n : ℕ) → length (tally n) ≡ n
length-tally zero = refl
length-tally (suc n) = ap suc (length-tally n)

pub tally-Lacks : (n : ℕ) → Lacks b'|' (tally n)
tally-Lacks zero = tt
tally-Lacks (suc n) = (omega arith, tally-Lacks n)

pub tally-AreBytes : (n : ℕ) → AreBytes (tally n)
tally-AreBytes zero = tt
tally-AreBytes (suc n) = (omega arith, tally-AreBytes n)

-- A time is written as so many digits.
abbrev pub times : TimeText
times = record {
  format = tally;
  parse = λ s. ok (length s);
  parse-format = λ n i. ok (length-tally n i);
  plain = tally-Lacks;
  ascii = tally-AreBytes;
}

abbrev pub env : Env
env = record { citext = λ s. s; feel = λ s. length s; uuid = λ n. n + 100 }

abbrev pub empty_world : World
empty_world = record {
  env = env;
  tables = empty_tables;
  now = 5;
  user_seq = 1;
  uuid_seq = 0;
  faults = [];
}

abbrev pub alice : User
alice = record {
  id = 1;
  nickname = codes "alice";
  password_hash = codes "correct horse battery";
  created_at = 2;
}

abbrev pub teal : Bytes
teal = codes "#008080"

abbrev pub rose : Bytes
rose = codes "#ff007f"

abbrev pub color_at : ℕ → Bytes → ColorRow
color_at t hex = record {
  collection_id = 100;
  color = record { hex = hex; created_at = t };
  color_key = 7;
}

abbrev pub collection_at : ℕ → Bool → CollectionRow
collection_at id d = record {
  user_id = 1;
  clt = record {
    id = id;
    name = codes "Main";
    icon_slug = codes "star";
    icon_accent = codes "#dbd7d0";
    is_default = d;
    created_at = 2;
  };
}

abbrev pub tables : Tables
tables = record {
  users = alice ∷ [];
  collections = collection_at 100 true ∷ collection_at 101 false ∷ [];
  colors = color_at 3 teal ∷ color_at 4 rose ∷ [];
  tokens = [];
}

-- One account with two collections and two colors; the database answers.
abbrev pub world : World
world = record { env = env; tables = tables; now = 5; user_seq = 2; uuid_seq = 2; faults = [] }

abbrev pub config : ColorConfig
config = record { validation = validation; times = times; quota = 3 }

abbrev pub request : Bytes → Request
request header = record {
  path_id = [];
  path_hex = [];
  path_harmony = [];
  query = λ name. [];
  limit = ok 0;
  authorization = header;
  token_hash = none;
}
