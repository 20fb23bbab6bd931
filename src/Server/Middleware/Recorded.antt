-- ===== src/Server/Middleware/Recorded.antt =====
-- What the log line of internal/server/middleware.go tells.
use wavelen.Prelude.{
  ℕ, Bytes, codes, Bool, true, false, not, Option, none, some, ◌≡◌, inl, inr, refl, ap, ◌∙◌,
  if◌then◌else◌, Option-cases, arith,
}
use wavelen.Server.Middleware.{
  or_else, is_final, Writer, Panic, abort, other, Program, returns, panics, sets_header,
  writes_header, writes, Line, StatusRecorder, record_header, record_body, record_write, run,
  recovered, recovery, new_recorder, logged, logging, request_id,
}

-- The status that the client sees: net/http sends a 200 where the handler sent none.
abbrev pub seen : Option ℕ → ℕ
seen none = 200
seen (some c) = c

abbrev is_some : Option ℕ → Bool
is_some none = false
is_some (some c) = true

-- Each status that the handler writes is a final one.
unfoldable pub IsFinal : Program → Type 0
IsFinal returns = Unit {0}
IsFinal (panics p) = Unit {0}
IsFinal (sets_header k v next) = IsFinal next
IsFinal (writes_header code next) = (is_final code ≡ true) × IsFinal next
IsFinal (writes b next) = (n : ℕ) → IsFinal (next n)

module _ {ℓ} {A : Type 0} where
  -- What both branches have, the chosen one has.
  either :
      (P : A → Type ℓ) (b : Bool) (x y : A)
      → (b ≡ true → P x)
      → (b ≡ false → P y)
      → P (if b then x else y)
  either P true x y h k = h refl
  either P false x y h k = k refl

module _ (writer : Writer) where
  open writer use {
    W, fresh, sent, body_bytes, set_header, write_header, write, sent_fresh, bytes_fresh,
    sent-set_header, bytes-set_header, sent-write_header, bytes-write_header, sent-write,
    bytes-write,
  }

  -- The recorder agrees with the writer.
  abbrev Agrees : StatusRecorder writer → Type 0
  Agrees r =
      (r.status ≡ seen (sent r.inner))
      × (r.wrote_header ≡ is_some (sent r.inner))
      × (r.bytes ≡ body_bytes r.inner)

  Agrees-set_header :
      (k v : Bytes) (r : StatusRecorder writer)
      → Agrees r
      → Agrees (record r { inner = set_header k v r.inner })
  Agrees-set_header k v r h = rw (sent-set_header k v r.inner, bytes-set_header k v r.inner) h

  Agrees-record_header :
      (code : ℕ) (r : StatusRecorder writer)
      → is_final code ≡ true
      → Agrees r
      → Agrees (record_header writer code r)
  unfolding record_header or_else
  Agrees-record_header code r final h =
      let sends = sent-write_header code r.inner final in
      elim (Option-cases (sent r.inner)) [
        | inl unsent ↦ ground (arith, unsent, sends, bytes-write_header code r.inner)
        | inr (c, e) ↦ ground (arith, e, sends, bytes-write_header code r.inner)
      ]

  Agrees-record_body :
      (b : Bytes) (r : StatusRecorder writer)
      → r.wrote_header ≡ true
      → Agrees r
      → Agrees (record_body writer b r).1
  unfolding record_body or_else
  Agrees-record_body b r sent_already h = elim (Option-cases (sent r.inner)) [
    | inl unsent ↦ absurd (ground (arith, unsent))
    | inr (c, e) ↦ ground (arith, e, sent-write b r.inner, bytes-write b r.inner)
  ]

  record_header_wrote :
      (code : ℕ) (r : StatusRecorder writer) → (record_header writer code r).wrote_header ≡ true
  unfolding record_header
  record_header_wrote code r = ground arith

  Agrees-record_write :
      (b : Bytes) (r : StatusRecorder writer) → Agrees r → Agrees (record_write writer b r).1
  unfolding record_write
  Agrees-record_write b r h =
      either (λ q. Agrees (record_body writer b q).1) (not r.wrote_header)
        (record_header writer 200 r) r
        (λ new.
          Agrees-record_body b (record_header writer 200 r) (record_header_wrote 200 r)
            (Agrees-record_header 200 r refl h))
        (λ old. Agrees-record_body b r (ground arith) h)

  Agrees-run :
      (p : Program) (r : StatusRecorder writer) → IsFinal p → Agrees r → Agrees (run writer p r).1
  unfolding run IsFinal
  Agrees-run returns r f h = h
  Agrees-run (panics p) r f h = h
  Agrees-run (sets_header k v next) r f h =
      Agrees-run next (record r { inner = set_header k v r.inner }) f (Agrees-set_header k v r h)
  Agrees-run (writes_header code next) r (final, f) h =
      Agrees-run next (record_header writer code r) f (Agrees-record_header code r final h)
  Agrees-run (writes b next) r f h =
      Agrees-run (next (record_write writer b r).0) (record_write writer b r).1
        (f (record_write writer b r).0) (Agrees-record_write b r h)

  abbrev closing : StatusRecorder writer → StatusRecorder writer
  closing r = record r { inner = set_header (codes "Connection") (codes "close") r.inner }

  inner-record_header :
      (code : ℕ) (r : StatusRecorder writer)
      → (record_header writer code r).inner ≡ write_header code r.inner
  unfolding record_header
  inner-record_header code r = ground arith

  sent_before :
      (r : StatusRecorder writer)
      → Agrees r
      → r.wrote_header ≡ true
      → sent r.inner ≡ or_else (sent r.inner) 500
  unfolding or_else
  sent_before r h wrote = elim (Option-cases (sent r.inner)) [
    | inl unsent ↦ absurd (ground (arith, unsent))
    | inr (c, e) ↦ rw e refl
  ]

  -- A line that tells the status that the client sees and the bytes that it gets.
  abbrev pub Tells : Option Line → W → Type 0
  Tells o w =
      (line : Line) × (o ≡ some line) × (line.status ≡ seen (sent w)) × (line.bytes ≡ body_bytes w)

  -- What becomes of a handler that ended with or without a panic.
  abbrev pub Settled : Option Panic → W → Option Line × W → Type 0
  Settled none before o = Tells o.0 o.1 × (sent o.1 ≡ sent before)
  Settled (some abort) before o = (o.0 ≡ none) × (sent o.1 ≡ sent before)
  Settled (some (other v)) before o = Tells o.0 o.1 × (sent o.1 ≡ or_else (sent before) 500)

  Tells-logged :
      (forwarded : Bytes) (r : StatusRecorder writer)
      → Agrees r
      → Tells (logged writer forwarded (none, r)).0 r.inner
  unfolding logged
  Tells-logged forwarded r h = (_, refl, h.0, h.2)

  logged-Settled :
      (forwarded : Bytes) (o : Option Panic) (r : StatusRecorder writer)
      → Agrees r
      → Settled o r.inner (logged writer forwarded (recovered writer (o, r)))
  unfolding recovered logged
  logged-Settled forwarded none r h = (Tells-logged forwarded r h, refl)
  logged-Settled forwarded (some abort) r h = (refl, refl)
  logged-Settled forwarded (some (other v)) r h =
      either
        (λ (q : Option Panic × StatusRecorder writer).
          Settled (some (other v)) r.inner (logged writer forwarded q))
        (not r.wrote_header) (none, record_header writer 500 (closing r)) (none, r)
        (λ new. (
          Tells-logged forwarded (record_header writer 500 (closing r)) (
              Agrees-record_header 500 (closing r) refl
                (Agrees-set_header (codes "Connection") (codes "close") r h)),
          ap sent (inner-record_header 500 (closing r))
              ∙ sent-write_header 500 (closing r).inner refl
              ∙ ap (λ o. or_else o 500)
                  (sent-set_header (codes "Connection") (codes "close") r.inner),
        ))
        (λ old. (Tells-logged forwarded r h, sent_before r h (ground arith)))

  Agrees-start : (w : W) → sent w ≡ none → body_bytes w ≡ 0 → Agrees (new_recorder writer w)
  Agrees-start w unsent empty = rw (unsent, empty) (refl, refl, refl)

  module _ (id forwarded : Bytes) (p : Program) where
    abbrev opened : W
    opened = set_header (codes "X-Request-Id") id fresh

    abbrev pub ended : Option Panic × StatusRecorder writer
    ended = run writer p (new_recorder writer opened)

    Agrees-opened : Agrees (new_recorder writer opened)
    Agrees-opened =
        Agrees-start opened (sent-set_header (codes "X-Request-Id") id fresh ∙ sent_fresh)
          (bytes-set_header (codes "X-Request-Id") id fresh ∙ bytes_fresh)

    Agrees-ended : IsFinal p → Agrees ended.1
    Agrees-ended f = Agrees-run p (new_recorder writer opened) f Agrees-opened

    -- Whatever a handler writes, in whatever order, if it writes no informational status (a 1xx one
    -- other than 101) and no code out of range. When it returns, a log line tells the status that
    -- the client sees and the bytes of its body. When it panics, the client sees the status that
    -- was sent before the panic, else a 500, and the log line tells it. The abort goes on: no
    -- status is added and no line is logged.
    pub request_id-Settled :
        IsFinal p → Settled ended.0 ended.1.inner (request_id writer id forwarded p fresh)
    unfolding request_id logging recovery
    request_id-Settled f = logged-Settled forwarded ended.0 ended.1 (Agrees-ended f)
