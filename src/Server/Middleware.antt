-- ===== src/Server/Middleware.antt =====
-- internal/server/middleware.go and internal/requestid: the request id, the recorder of the
-- status, the log line and the recovery from a panic. The response writer of net/http is not under
-- the repository: `Writer`.
pub mod Recorded
pub mod Forwarded
use wavelen.Prelude.{
  ℕ, ◌+◌, Bytes, codes, Bool, true, false, not, ◌&&◌, ◌||◌, Option, none, some, List, [], ◌∷◌, leb,
  last?, ◌==◌, nat_eq, bytes_eq, if◌then◌else◌, ◌≡◌, Result, ok, err,
}

-- The first value that there is.
unfoldable pub or_else : Option ℕ → ℕ → Option ℕ
or_else none c = some c
or_else (some c') c = some c'

-- A status that net/http commits the response with; a 1xx one other than 101 is sent on its own and
-- leaves the response open, and a code out of range is none.
abbrev pub is_final : ℕ → Bool
is_final c = (leb 200 c && leb c 999) || c == 101

abbrev pub is_informational : ℕ → Bool
is_informational c = leb 100 c && (leb c 199 && not (c == 101))

-- A response writer: the final status that it sent, if any, and the bytes of its body. A second
-- final status is ignored, a first Write sends a 200, and a Write tells how many bytes it wrote.
pub record Writer : Type 1 where
  pub W : Type 0
  pub fresh : W
  pub sent : W → Option ℕ
  pub body_bytes : W → ℕ
  pub set_header : Bytes → Bytes → W → W
  pub write_header : ℕ → W → W
  pub write : Bytes → W → ℕ × W
  pub sent_fresh : sent fresh ≡ none
  pub bytes_fresh : body_bytes fresh ≡ 0
  pub sent-set_header : (k v : Bytes) (w : W) → sent (set_header k v w) ≡ sent w
  pub bytes-set_header : (k v : Bytes) (w : W) → body_bytes (set_header k v w) ≡ body_bytes w
  pub sent-write_header :
      (c : ℕ) (w : W) → is_final c ≡ true → sent (write_header c w) ≡ or_else (sent w) c
  pub sent-informational :
      (c : ℕ) (w : W) → is_informational c ≡ true → sent (write_header c w) ≡ sent w
  pub bytes-write_header : (c : ℕ) (w : W) → body_bytes (write_header c w) ≡ body_bytes w
  pub sent-write : (b : Bytes) (w : W) → sent (write b w).1 ≡ or_else (sent w) 200
  pub bytes-write : (b : Bytes) (w : W) → body_bytes (write b w).1 ≡ body_bytes w + (write b w).0

-- `http.ErrAbortHandler`, or any other value that a handler panics with.
pub data Panic : Type 0 where
  abort : Panic
  other : Bytes → Panic

-- What a handler does with its response writer. It sees how much a Write wrote.
pub data Program : Type 0 where
  returns : Program
  panics : Panic → Program
  sets_header : Bytes → Bytes → Program → Program
  writes_header : ℕ → Program → Program
  writes : Bytes → (ℕ → Program) → Program

pub data Level : Type 0 where
  info warn error : Level

-- The log line of a request.
pub record Line : Type 0 where
  pub level : Level
  pub status : ℕ
  pub bytes : ℕ
  pub forwarded_for : Bytes

module _ (writer : Writer) where
  open writer use {W, fresh, set_header, write_header, write}

  -- `statusRecorder`
  pub record StatusRecorder : Type 0 where
    pub inner : W
    pub status : ℕ
    pub bytes : ℕ
    pub wrote_header : Bool

  -- `statusRecorder.WriteHeader`
  unfoldable pub record_header : ℕ → StatusRecorder → StatusRecorder
  record_header code r =
      if not r.wrote_header
      then record r { status = code; wrote_header = true; inner = write_header code r.inner }
      else record r { inner = write_header code r.inner }

  -- `statusRecorder.Write`, after the header is written
  unfoldable pub record_body : Bytes → StatusRecorder → ℕ × StatusRecorder
  record_body b r =
      let n = (write b r.inner).0 in
      (n, record r { inner = (write b r.inner).1; bytes = r.bytes + n })

  -- `statusRecorder.Write`
  unfoldable pub record_write : Bytes → StatusRecorder → ℕ × StatusRecorder
  record_write b r = record_body b (if not r.wrote_header then record_header 200 r else r)

  -- The handler, to its return or to its panic.
  unfoldable pub run : Program → StatusRecorder → Option Panic × StatusRecorder
  run returns r = (none, r)
  run (panics p) r = (some p, r)
  run (sets_header k v next) r = run next (record r { inner = set_header k v r.inner })
  run (writes_header code next) r = run next (record_header code r)
  run (writes b next) r = run (next (record_write b r).0) (record_write b r).1

  unfoldable pub recovered : Option Panic × StatusRecorder → Option Panic × StatusRecorder
  recovered (none, r) = (none, r)
  recovered (some abort, r) = (some abort, r)
  recovered (some (other v), r) =
      if not r.wrote_header
      then (
        none,
        record_header 500
            (record r { inner = set_header (codes "Connection") (codes "close") r.inner }),
      )
      else (none, r)

  -- `recoveryMiddleware`: what goes on panicking, and the writer.
  unfoldable pub recovery : Program → StatusRecorder → Option Panic × StatusRecorder
  recovery next r = recovered (run next r)

  -- The recorder that the logging starts with.
  abbrev pub new_recorder : W → StatusRecorder
  new_recorder w = record { inner = w; status = 200; bytes = 0; wrote_header = false }

  -- The switch of `loggingMiddleware` on the status.
  unfoldable pub level_of : ℕ → Level
  level_of status = if leb 500 status then error else if leb 400 status then warn else info

  unfoldable pub logged : Bytes → Option Panic × StatusRecorder → Option Line × W
  logged forwarded (some p, r) = (none, r.inner)
  logged forwarded (none, r) = (
    some record {
      level = level_of r.status;
      status = r.status;
      bytes = r.bytes;
      forwarded_for = forwarded;
    },
    r.inner,
  )

  -- `loggingMiddleware` around the recovery: the log line, none where the panic goes on.
  unfoldable pub logging : Bytes → Program → W → Option Line × W
  logging forwarded next w = logged forwarded (recovery next (new_recorder w))

  -- `requestIDMiddleware` outside of both, with the new id
  unfoldable pub request_id : Bytes → Bytes → Program → W → Option Line × W
  request_id id forwarded next w = logging forwarded next (set_header (codes "X-Request-Id") id w)

-- What follows the last comma, the whole text where there is none.
unfoldable pub after_last : ℕ → Bytes → Bytes → Bytes
after_last c [] since = since
after_last c (x ∷ xs) since = after_last c xs (if x == c then xs else since)

module _ (trim_space : Bytes → Bytes) where
  unfoldable pub entry_of : Option Bytes → Bytes
  entry_of none = []
  entry_of (some line) = trim_space (after_last b',' line line)

  -- `forwardedFor`, of the lines of the header; `trim_space` is `strings.TrimSpace`.
  unfoldable pub forwarded_for : List Bytes → Bytes
  forwarded_for lines = entry_of (last? lines)

module _ (split_host_port : Bytes → Result Bytes Bytes) where
  host_or : Bytes → Result Bytes Bytes → Bytes
  host_or addr (ok host) = host
  host_or addr (err text) = addr

  -- `remoteHost`, of `req.RemoteAddr`; `split_host_port` is the host of `net.SplitHostPort`.
  unfoldable pub remote_host : Bytes → Bytes
  unfolding host_or
  remote_host addr = host_or addr (split_host_port addr)
