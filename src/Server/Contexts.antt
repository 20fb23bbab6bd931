-- ===== src/Server/Contexts.antt =====
-- The values in a request's context: internal/requestid and internal/auth/context.go. A context is
-- the chain of what was put around `context.Background()`.
use wavelen.Prelude.{
  ℕ, Bytes, codes, Bool, true, false, Option, none, some, List, [], ◌∷◌, ◌==◌, nat_eq, bytes_eq,
  if◌then◌else◌,
}

-- Each package has a key of its own type, so that no two packages meet; `foreign` is for others.
pub data Key : Type 0 where
  request_id_key token_hash_key : Key
  foreign : ℕ → Key

unfoldable pub same_key : Key → Key → Bool
same_key request_id_key request_id_key = true
same_key token_hash_key token_hash_key = true
same_key (foreign a) (foreign b) = a == b
same_key _ _ = false

-- `context.WithValue`, and `WithTimeout` or `WithCancel`, which carry the values on.
pub data Context : Type 0 where
  background : Context
  with_value : Key → Bytes → Context → Context
  with_timeout : Context → Context

-- `ctx.Value`
unfoldable pub value : Key → Context → Option Bytes
value k background = none
value k (with_value k' v ctx) = if same_key k' k then some v else value k ctx
value k (with_timeout ctx) = value k ctx

-- `requestid.NewContext`
unfoldable pub new_context : Context → Bytes → Context
new_context ctx id = with_value request_id_key id ctx

unfoldable pub or_empty : Option Bytes → Bytes
or_empty none = []
or_empty (some id) = id

-- `requestid.FromContext`
unfoldable pub from_context : Context → Bytes
unfolding or_empty
from_context ctx = or_empty (value request_id_key ctx)

-- `requestid.LogAttrs`
unfoldable pub log_attrs : Context → List (Bytes × Bytes)
unfolding from_context
log_attrs ctx = if from_context ctx == [] then [] else (codes "request_id", from_context ctx) ∷ []

-- `auth.ContextWithTokenHash`
unfoldable pub context_with_token_hash : Context → Bytes → Context
context_with_token_hash ctx hash = with_value token_hash_key hash ctx

-- `auth.TokenHashFromContext`
unfoldable pub token_hash_from_context : Context → Option Bytes
token_hash_from_context ctx = value token_hash_key ctx
