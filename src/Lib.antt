-- ===== src/Lib.antt =====
-- Wavelen: accounts with collections of saved colors, behind a JSON API over Postgres.
--
-- The parts of the program and the files that model them:
--   internal/color: Color. Hex has the codes (hex.go) and Floats the numbers; Oklab, Gamut, Hsl,
--     Derive, Contrast, Info and SortKey one file each, and Harmonies is color.go.
--   internal/user, internal/clt, internal/icon, internal/auth: Domain
--   internal/storage and the tables of migrations/: Storage. Schema has the rows, Actions the
--     statements and transactions of storage.go, Users, Tokens, Collections, Colors and Export
--     one repository each, Order and Colors/Sorting the ORDER BY and the keyset comparison.
--   internal/colorsvc, collectionsvc, usersvc, authsvc: Services
--   internal/handlers and internal/server/auth.go: Http, over Encoding (base64url and the fields
--     of a cursor)
--   internal/palette, internal/shades: Palette, Shades
--   internal/server/limit.go: Server/Limit, as a step relation on the places of the requests
--   internal/server/middleware.go: Server/Middleware, where a handler is what
--     it does with its response writer
--   internal/server/server.go: Server/Lifecycle, as a step relation on the goroutine that serves
--     and the caller of `Start`; Server/Settings has what it sets
--   internal/server/routes.go: Server/Routes, which joins the wrapper with the handlers
--   internal/dbtrace: Server/Tracing; the constants of both are in Server/Defaults
--   cmd/api/main.go, internal/dbconfig, cmd/migrate/main.go: Commands; Api has the process with its
--     signals around `Start`
--   internal/requestid/slog.go, internal/auth/context.go: Server/Contexts
-- A request passes the middleware and its route, then the wrapper of Http/Auth, a handler, a
-- service and the repositories; an error comes back as a value and becomes a status in Http/Message.
--
-- The state is a `World`: the tables, the clock, the sequences, and the failures to come. A
-- method (`UserByID` is `user_by_id`, and so on) takes a world to a result and a world. Each
-- statement, BEGIN and COMMIT asks the list of failures whether it fails; one that fails has no
-- effect, and an empty list is a database that answers. Storage/Promises says what it means that a
-- method does what it promises: it does it, or reports a failure and changes no table.
-- `finish` of Storage/Actions is what pgx documents of BeginFunc, which commits after nil and rolls
-- back after an error; `begun` is the function that InTx gives to it.
-- Transactions run one after the other: the row locks have no effect here. They have one in
-- Services/ColorSvc/Interleaving and Services/CollectionSvc/Interleaving, step relations on many
-- requests that add to one collection, or create and delete collections of one user.
--
-- Ids are numbers, times are numbers of microseconds, texts and hashes are byte strings, compared
-- as bytes. Limits of a listing are natural numbers, since the program treats a negative one as 0.
-- All functions are structural recursions; no fuel is needed but in the binary search of
-- Domain/Icon, where the number of slugs is enough; the searches of Color/Gamut take the fixed
-- number of steps that the program takes; and in a client that follows cursors (Http/Colors/Walk),
-- where one request more than there are colors is enough.
--
-- Parameters, since their code is not in the repository: the packages strvalid (`Parser`,
-- `Validation`) and httputils (fields of `Request`), bcrypt, SHA-256 and the random generator
-- (`Hashing`), the texts of times (`TimeText`), float64 with the package math (`Arithmetic`), the
-- response writer of net/http (`Writer`), the file server (`FileServer`), net/url (`Urls`), the
-- parsers of the environment's values (`Libraries`), golang-migrate (`Migrator`), and in the JSON the
-- texts of ids and of errors (`Texts`). `color.Feel` is
-- a field of the world's environment for the storage, and `perceptual_sort_key` in Color/SortKey.
-- The laws of `Arithmetic` are those of values that are no NaN: the formulas are run on channels
-- from 0 to 1, and no division or root of theirs makes one there.
--
-- Http/Wire writes the bodies as JSON values (Encoding/Json), by the tags of the response types; the
-- text of a JSON value is not modelled. Storage/Interface and Services/Interface have the
-- interfaces of the repositories and of the services.
--
-- Informational statuses are a part of `Writer`, but what the recorder makes of them is a limitation
-- that middleware.go states. The signals of cmd/api are SIGINT and SIGTERM; another one ends it.
--
-- Not modelled: the listening of net/http and what its timeouts do, the setup and the lines of the
-- logs, the matching of route patterns, web/, deploy/ and the tests.
pub mod Prelude
pub mod Errors
pub mod Color
pub mod Domain
pub mod Storage
pub mod Services
pub mod Encoding
pub mod Http
pub mod Palette
pub mod Shades
pub mod Server
pub mod Commands
pub mod Tests
