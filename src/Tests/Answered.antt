-- ===== src/Tests/Answered.antt =====
-- Runs of the handlers to their answers, and of the export to its JSON.
use wavelen.Prelude.{
  ℕ, codes, ◌≤◌, any, count, find, map, length, some, ok, [], nat_eq, bytes_eq, ◌≡◌, refl, arith,
}
use wavelen.Color.Hex.{new_hex, is_hex, is_hex_digit}
use wavelen.Domain.Names.{parse_id}
use wavelen.Encoding.Json.{Json, string}
use wavelen.Storage.Schema.{User, has_id, has_user_id}
use wavelen.Storage.Export.{export_promise}
use wavelen.Services.UserSvc.Refinement.{delete_account_promise}
use wavelen.Services.ColorSvc.Removal.{delete_color_promise}
use wavelen.Services.AuthSvc.Grants.{Known}
use wavelen.Http.Message.{Request, reply, message, answer, hex_from_path}
use wavelen.Http.Users.{Credentials, exported, handle_export, handle_delete_me}
use wavelen.Http.Tokens.{handle_create_token}
use wavelen.Http.Colors.{handle_delete_color}
use wavelen.Http.Wire.{Texts, written}
use wavelen.Http.Wire.Exported.{read_export, handle_export-Lossless}
use wavelen.Http.Answers.{Answers}
use wavelen.Http.Answers.Removals.{
  no_content, handle_delete_me-Answers, handle_delete_color-Answers,
}
use wavelen.Http.Answers.Accounts.{handle_create_token-refused}
use wavelen.Tests.{
  validation, hashing, times, tally, length-tally, empty_world, world, alice, config, request,
}

one_of_each : (cid : ℕ) → count (has_id cid) world.tables.collections ≤ 1
unfolding count
one_of_each cid = ground arith

alice-there : find (has_user_id 1) world.tables.users ≡ some alice
unfolding find
alice-there = refl

-- An id is written as a time is.
abbrev texts : Texts
texts = record {
  times = times;
  id_text = tally;
  read_id = λ s. some (length s);
  read_id-id_text = λ n i. some (length-tally n i);
  write_error = string;
  error_text = λ e. codes "error";
  refused_name = λ e names. names;
}

handle_export-Lossless_example :
    (j : Json) × ((answer (handle_export tally 1) world).0.status ≡ 200)
    × (written texts (answer (handle_export tally 1) world).0.body ≡ some j)
    × (read_export texts j
        ≡ some (record {
          nickname = codes "alice";
          created_at = 2;
          collections = map exported (export_promise 1 world.tables);
        }))
handle_export-Lossless_example =
    handle_export-Lossless texts tally 1 alice world refl alice-there one_of_each

handle_delete_me-Answers_example :
    Answers no_content (handle_delete_me 1) world (delete_account_promise 1 world)
handle_delete_me-Answers_example = handle_delete_me-Answers 1 world

request-id : parse_id validation [] ≡ ok 100
unfolding parse_id
request-id = refl

-- The color `#008080` of the collection 100.
abbrev teal_request : Request
teal_request = record (request []) { path_hex = codes "008080" }

teal-path : hex_from_path validation teal_request ≡ ok (codes "#008080")
unfolding hex_from_path new_hex any is_hex is_hex_digit
teal-path = refl

handle_delete_color-Answers_example :
    Answers no_content
      (handle_delete_color config teal_request 1)
      world
      (delete_color_promise 1 100 (codes "#008080") world)
handle_delete_color-Answers_example =
    handle_delete_color-Answers teal_request 1 100 world config (codes "#008080") request-id
      teal-path

abbrev stranger : Credentials
stranger = record { nickname = codes "alice"; password = codes "wrong" }

nobody :
    (u : User)
    → ¬ Known validation hashing 10 (codes "T") (codes "alice") (codes "wrong") empty_world u
unfolding find
nobody u (n, e, s, m) = cc

handle_create_token-refused_example :
    answer (handle_create_token validation hashing 10 (codes "T") (ok stranger)) empty_world
    ≡ (reply 401 (message (codes "invalid credentials")), empty_world)
handle_create_token-refused_example =
    handle_create_token-refused validation hashing 10 (codes "T") stranger empty_world refl nobody
