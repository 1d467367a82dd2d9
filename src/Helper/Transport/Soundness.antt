-- ===== src/Helper/Transport/Soundness.antt =====
-- What an RPC settles with.
use awg_control.Base.{
  sym, ap, ◌∙◌, refl, String, Bool, true, false, Option-cases, ℕ, ◌+◌, ◌≤◌, ◌≡◌, Option, none, some,
  List, [], ◌∷◌, ◌++◌, Text, length, arith, ltb, Option-cases, Bool-cases, inl, inr,
}
use mathlib.Core.Path.{subst}
use awg_control.Exec.{Failure, ok, err}
use awg_control.Helper.{accepted, refused, Response}
use awg_control.Helper.Transport.{
  RawError, error_of, result_of, answer_of, is_for, check_envelope, RawEnvelope, Outcome, Event,
  host_key, exec_failed, received, closed, stream_failed, connection_failed, timed_out, Rpc,
  max_response_bytes, new_rpc, settle, outcome_of, read_answer, on_event, run_events,
}

length-append : {A : Type 0} (xs ys : List A) → length (xs ++ ys) ≡ length xs + length ys
length-append [] ys = omega arith
length-append (x ∷ xs) ys = omega (arith, length-append xs ys)

append_nil : {A : Type 0} (xs : List A) → xs ++ [] ≡ xs
append_nil [] = refl
append_nil (x ∷ xs) = ap (λ ys. x ∷ ys) (append_nil xs)

append_assoc : {A : Type 0} (xs ys zs : List A) → (xs ++ ys) ++ zs ≡ xs ++ (ys ++ zs)
append_assoc [] ys zs = refl
append_assoc (x ∷ xs) ys zs = ap (λ l. x ∷ l) (append_assoc xs ys zs)

-- The text that has come.
abbrev pub text_before : List Event → Text
text_before [] = []
text_before (received chunk ∷ es) = chunk ++ text_before es
text_before (_ ∷ es) = text_before es

text_before-append :
    (es fs : List Event) → text_before (es ++ fs) ≡ text_before es ++ text_before fs
text_before-append [] fs = refl
text_before-append (host_key t ∷ es) fs = text_before-append es fs
text_before-append (exec_failed ∷ es) fs = text_before-append es fs
text_before-append (received chunk ∷ es) fs =
    ap (λ t. chunk ++ t) (text_before-append es fs)
    ∙ sym (append_assoc chunk (text_before es) (text_before fs))
text_before-append (closed ∷ es) fs = text_before-append es fs
text_before-append (stream_failed ∷ es) fs = text_before-append es fs
text_before-append (connection_failed ∷ es) fs = text_before-append es fs
text_before-append (timed_out ∷ es) fs = text_before-append es fs

-- What an envelope carries: a result, or an error with its three members.
pub data Carries {A : Type 0} (raw : RawEnvelope A) : Response A → Type 0 where
  a_result : (a : A) → raw.is_ok ≡ some true → raw.result ≡ some a → Carries raw (accepted a)
  an_error :
      (e : RawError) (code message : String) (retryable : Bool)
      → raw.is_ok ≡ some false
      → raw.error ≡ some e
      → e.code ≡ some code
      → e.message ≡ some message
      → e.retryable ≡ some retryable
      → Carries raw (refused code)

error_of-Carries :
    {A : Type 0} (raw : RawEnvelope A) (response : Response A) (o : Option RawError)
    → raw.is_ok ≡ some false
    → raw.error ≡ o
    → error_of o ≡ some response
    → Carries raw response
error_of-Carries raw response none s k h = absurd cc
error_of-Carries raw response (some e) s k h = elim (Option-cases e.code) [
  | inl c ↦ absurd (ground (arith, c, h))
  | inr (code, c) ↦ elim (Option-cases e.message) [
    | inl m ↦ absurd (ground (arith, c, m, h))
    | inr (message, m) ↦ elim (Option-cases e.retryable) [
      | inl b ↦ absurd (ground (arith, c, m, b, h))
      | inr (retryable, b) ↦
          let same : refused code ≡ response = ground (arith, c, m, b, h) in
          subst (Carries raw) same (an_error e code message retryable s k c m b)
    ]
  ]
]

result_of-Carries :
    {A : Type 0} (raw : RawEnvelope A) (response : Response A) (o : Option A)
    → raw.is_ok ≡ some true
    → raw.result ≡ o
    → result_of o ≡ some response
    → Carries raw response
result_of-Carries raw response none s k h = absurd cc
result_of-Carries raw response (some a) s k h =
    let same : accepted a ≡ response = ground (arith, h) in
    subst (Carries raw) same (a_result a s k)

answer_of-Carries :
    {A : Type 0} (raw : RawEnvelope A) (response : Response A) (o : Option Bool)
    → raw.is_ok ≡ o
    → answer_of raw o ≡ some response
    → Carries raw response
answer_of-Carries raw response none s h = absurd cc
answer_of-Carries raw response (some true) s h = result_of-Carries raw response raw.result s refl h
answer_of-Carries raw response (some false) s h = error_of-Carries raw response raw.error s refl h

is_for_lem : (id : ℕ) (o : Option ℕ) → is_for id o ≡ true → o ≡ some id
is_for_lem id none h = absurd cc
is_for_lem id (some other) h = ground (arith, h)

-- A response that an RPC has read: the stream was closed, and all that had come until then, at most
-- the allowed length, is an envelope that names the request's own id and carries the response.
pub record IsRead {A : Type 0} (parse : Text → Option (RawEnvelope A)) (id : ℕ) (es : List Event)
    (response : Response A) : Type 0 where
  pub before : List Event
  pub after : List Event
  pub raw : RawEnvelope A
  pub at_close : es ≡ before ++ (closed ∷ after)
  pub short : length (text_before before) ≤ max_response_bytes
  pub parsed : parse (text_before before) ≡ some raw
  pub own_id : raw.request_id ≡ some id
  pub carries : Carries raw response

module _ {A : Type 0} (parse : Text → Option (RawEnvelope A)) (expected : Text) (id : ℕ) where
  read_answer-Carries :
      (text : Text) (response : Response A)
      → read_answer parse expected id text ≡ some response
      → (raw : RawEnvelope A) × (parse text ≡ some raw)
        × (raw.request_id ≡ some id)
        × Carries raw response
  unfolding read_answer check_envelope
  read_answer-Carries text response h = elim (Option-cases (parse text)) [
    | inl p ↦ absurd (ground (arith, p, h))
    | inr (raw, p) ↦ elim (Bool-cases (is_for id raw.request_id)) [
      | inr f ↦ absurd (ground (arith, p, f, h))
      | inl f ↦ (
        raw,
        p,
        is_for_lem id raw.request_id f,
        answer_of-Carries raw response raw.is_ok refl (ground (arith, p, f, h)),
      )
    ]
  ]

  -- As long as nothing is settled, what has come is there, and is no longer than allowed; an answer
  -- was read.
  record IsSound (past : List Event) (s : Rpc A) : Type 0 where
    chunks : s.settled ≡ none → s.chunks ≡ text_before past
    counted : s.settled ≡ none → s.bytes ≡ length s.chunks
    within : s.settled ≡ none → s.bytes ≤ max_response_bytes
    answer :
        (response : Response A) → s.settled ≡ some (ok response) → IsRead parse id past response

  IsRead-later :
      (past es : List Event) (response : Response A)
      → IsRead parse id past response
      → IsRead parse id (past ++ es) response
  IsRead-later past es response h = record {
    before = h.before;
    after = h.after ++ es;
    raw = h.raw;
    at_close = ap (λ l. l ++ es) h.at_close ∙ append_assoc h.before (closed ∷ h.after) es;
    short = h.short;
    parsed = h.parsed;
    own_id = h.own_id;
    carries = h.carries;
  }

  abbrev then_event : List Event → Event → List Event
  then_event past e = past ++ e ∷ []

  -- An event that settles with a failure, if anything, and that brings no text.
  fails-IsSound :
      (past : List Event) (e : Event) (f : Failure) (s t : Rpc A)
      → IsSound past s
      → t.settled ≡ s.settled
      → IsSound (then_event past e) (settle (err f) t)
  unfolding settle
  fails-IsSound past e f s t h same = elim (Option-cases t.settled) [
    | inl n ↦
        rw (n, settle)
          (record {
            chunks = λ k. absurd cc;
            counted = λ k. absurd cc;
            within = λ k. absurd cc;
            answer = λ response k. absurd cc;
          })
    | inr (o, n) ↦
        rw (n, settle)
          (record {
            chunks = λ k. absurd (ground (arith, n, k));
            counted = λ k. absurd (ground (arith, n, k));
            within = λ k. absurd (ground (arith, n, k));
            answer = λ response k.
                IsRead-later past (e ∷ []) response (h.answer response (sym same ∙ k));
          })
  ]

  answered :
      (o : Option (Response A)) (response : Response A)
      → outcome_of o ≡ ok response
      → o ≡ some response
  answered none response e = absurd cc
  answered (some r) response e = ground (arith, e)

  -- The end of the stream.
  closed-IsSound :
      (past : List Event) (s : Rpc A)
      → IsSound past s
      → IsSound
          (then_event past closed)
          (settle (outcome_of (read_answer parse expected id s.chunks)) s)
  unfolding settle
  closed-IsSound past s h = elim (Option-cases s.settled) [
    | inr (o, n) ↦
        rw (n, settle)
          (record {
            chunks = λ k. absurd (ground (arith, n, k));
            counted = λ k. absurd (ground (arith, n, k));
            within = λ k. absurd (ground (arith, n, k));
            answer = λ response k. IsRead-later past _ response (h.answer response k);
          })
    | inl n ↦
        let short : length (text_before past) ≤ max_response_bytes =
          omega (arith, h.within n, h.counted n, ap length (h.chunks n)) in
        rw (n, settle)
          (record {
            chunks = λ k. absurd cc;
            counted = λ k. absurd cc;
            within = λ k. absurd cc;
            answer = λ response k.
                let read : read_answer parse expected id s.chunks ≡ some response =
                  answered _ response (ground (arith, k)) in
                let (raw, p, own, c) = read_answer-Carries s.chunks response read in
                record {
                  before = past;
                  after = [];
                  raw = raw;
                  at_close = refl;
                  short = short;
                  parsed = ap parse (sym (h.chunks n)) ∙ p;
                  own_id = own;
                  carries = c;
                };
          })
  ]

  on_event-IsSound :
      (past : List Event) (e : Event) (s : Rpc A)
      → IsSound past s
      → IsSound (then_event past e) (on_event parse expected id e s)
  unfolding on_event
  on_event-IsSound past (host_key actual) s h = record {
    chunks = λ n. h.chunks n ∙ silent;
    counted = h.counted;
    within = h.within;
    answer = λ response n. IsRead-later past _ response (h.answer response n);
  }
    where
      silent : text_before past ≡ text_before (then_event past (host_key actual))
      silent = sym (text_before-append past _ ∙ append_nil (text_before past))
  on_event-IsSound past exec_failed s h = fails-IsSound past _ _ s s h refl
  on_event-IsSound past stream_failed s h = fails-IsSound past _ _ s s h refl
  on_event-IsSound past connection_failed s h = fails-IsSound past _ _ s s h refl
  on_event-IsSound past timed_out s h = fails-IsSound past _ _ s s h refl
  on_event-IsSound past closed s h = closed-IsSound past s h
  on_event-IsSound past (received chunk) s h =
      elim (Bool-cases (ltb max_response_bytes (s.bytes + length chunk))) [
        | inl e ↦
            rw (e, on_event)
              (fails-IsSound past _ _ s (record s { bytes = s.bytes + length chunk }) h refl)
        | inr e ↦
            rw (e, on_event)
              (record {
                chunks = λ n.
                    ap (λ t. t ++ chunk) (h.chunks n)
                    ∙ sym (
                        text_before-append past (received chunk ∷ [])
                        ∙ ap (λ t. text_before past ++ t) (append_nil chunk));
                counted = λ n. omega (arith, h.counted n, length-append s.chunks chunk);
                within = λ n. ground (arith, e);
                answer = λ response n. IsRead-later past _ response (h.answer response n);
              })
      ]

  run_events-IsSound :
      (past es : List Event) (s : Rpc A)
      → IsSound past s
      → IsSound (past ++ es) (run_events parse expected id es s)
  unfolding run_events
  run_events-IsSound past [] s h = subst (λ l. IsSound l s) (sym (append_nil past)) h
  run_events-IsSound past (e ∷ es) s h =
      subst (λ l. IsSound l (run_events parse expected id es (on_event parse expected id e s)))
        (append_assoc past (e ∷ []) es)
        (run_events-IsSound (then_event past e) es (on_event parse expected id e s)
          (on_event-IsSound past e s h))

  settled_stays :
      (e : Event) (s : Rpc A) (o : Outcome A)
      → s.settled ≡ some o
      → (on_event parse expected id e s).settled ≡ some o
  unfolding on_event settle
  settled_stays e s o h = ground arith

  run_events_stays :
      (es : List Event) (s : Rpc A) (o : Outcome A)
      → s.settled ≡ some o
      → (run_events parse expected id es s).settled ≡ some o
  unfolding run_events
  run_events_stays [] s o h = h
  run_events_stays (e ∷ es) s o h = run_events_stays es _ o (settled_stays e s o h)

-- Whatever events come, and in whatever order, an RPC that settles with a response has read it when
-- the stream was closed: all the text that had come until then, of at most 2 MiB, parses to an
-- envelope that names the id of this request and carries the response, a result or an error with
-- its code, message and retryable flag; and further events change nothing.
pub run_events_lem :
    {A : Type 0} (parse : Text → Option (RawEnvelope A)) (expected : Text) (id : ℕ)
    (es later : List Event) (response : Response A)
    → (run_events parse expected id es new_rpc).settled ≡ some (ok response)
    → IsRead parse id es response
      × ((run_events parse expected id later (run_events parse expected id es new_rpc)).settled
          ≡ some (ok response))
run_events_lem parse expected id es later response e = (
  (run_events-IsSound parse expected id [] es new_rpc (record {
    chunks = λ n. refl;
    counted = λ n. refl;
    within = λ n. omega arith;
    answer = λ r n. absurd cc;
  })).answer
      response e,
  run_events_stays parse expected id later _ (ok response) e,
)
