-- ===== src/Helper/Transport.antt =====
-- `expectedHostHash` and `callRpc` of apps/api/src/helper/client.ts: one request over one SSH channel,
-- as a machine that the events of the SSH library drive. The library, the base64 decoder and
-- JSON.parse are other programs: any events may come in any order, and `parse` is a parameter.
pub mod Soundness
use awg_control.Base.{
  ℕ, ◌+◌, ◌*◌, ◌-◌, Bool, true, false, not, ◌&&◌, ◌||◌, Option, none, some, List, [], ◌∷◌, ◌++◌,
  Text, codes, text_eq, length, all, leb, ltb, ◌==◌, if◌then◌else◌, map, String,
}
use awg_control.Exec.{Result, ok, err, transport_error}
use awg_control.Helper.{Response, accepted, refused}

-- `toLowerCase`, of ASCII.
abbrev pub lower : ℕ → ℕ
lower c = if leb b'A' c && leb c b'Z' then c + 32 else c

abbrev is_hex : ℕ → Bool
is_hex c = leb b'0' c && leb c b'9' || leb b'a' (lower c) && leb (lower c) b'f'

-- What follows a prefix.
unfoldable pub after_prefix : Text → Text → Option Text
after_prefix [] s = some s
after_prefix (c ∷ p) [] = none
after_prefix (c ∷ p) (d ∷ s) = let rest = after_prefix p s in if c == d then rest else none

abbrev decoded : (Text → Text) → Option Text → Result Text
decoded hex_of_base64 none = err (transport_error "HOST_KEY_MISMATCH")
decoded hex_of_base64 (some rest) = ok (hex_of_base64 rest)

unfoldable pub expected_host_hash : (Text → Text) → Text → Result Text
unfolding after_prefix
expected_host_hash hex_of_base64 value =
    if length value == 64 && all is_hex value
    then ok (map lower value)
    else decoded hex_of_base64 (after_prefix (codes "SHA256:") value)

-- What JSON.parse gives; a member is none where it is missing or has another type.
pub record RawError : Type 0 where
  pub code : Option String
  pub message : Option String
  pub retryable : Option Bool

pub record RawEnvelope (A : Type 0) : Type 0 where
  pub request_id : Option ℕ
  pub is_ok : Option Bool
  pub result : Option A
  pub error : Option RawError

abbrev pub error_of : {A : Type 0} → Option RawError → Option (Response A)
error_of none = none
error_of (some e) = elim e.code [
  | none ↦ none
  | some code ↦ elim e.message [
    | none ↦ none
    | some message ↦ elim e.retryable [ none ↦ none | some b ↦ some (refused code) ]
  ]
]

abbrev pub result_of : {A : Type 0} → Option A → Option (Response A)
result_of none = none
result_of (some a) = some (accepted a)

abbrev pub answer_of : {A : Type 0} → RawEnvelope A → Option Bool → Option (Response A)
answer_of raw none = none
answer_of raw (some true) = result_of raw.result
answer_of raw (some false) = error_of raw.error

abbrev pub is_for : ℕ → Option ℕ → Bool
is_for id none = false
is_for id (some other) = other == id

-- The checks on a response: it answers the request, and has a result or an error.
unfoldable pub check_envelope : {A : Type 0} → ℕ → RawEnvelope A → Option (Response A)
check_envelope id raw = if is_for id raw.request_id then answer_of raw raw.is_ok else none

abbrev pub Outcome : Type 0 → Type 0
Outcome A = Result (Response A)

pub data Event : Type 0 where
  host_key : Text → Event
  exec_failed : Event
  received : Text → Event
  closed stream_failed connection_failed timed_out : Event

pub record Rpc (A : Type 0) : Type 0 where
  pub settled : Option (Outcome A)
  pub chunks : Text
  pub bytes : ℕ
  pub host_key_mismatch : Bool

-- `MAX_RESPONSE_BYTES`
abbrev pub max_response_bytes : ℕ
max_response_bytes = 2 * 1024 * 1024

module _ {A : Type 0} where
  abbrev pub new_rpc : Rpc A
  new_rpc = record { settled = none; chunks = []; bytes = 0; host_key_mismatch = false }

  -- `done`: what has settled stays.
  unfoldable pub settle : Outcome A → Rpc A → Rpc A
  settle outcome s = elim s.settled [ none ↦ record s { settled = some outcome } | some before ↦ s ]

  abbrev pub outcome_of : Option (Response A) → Outcome A
  outcome_of none = err (transport_error "INVALID_HELPER_RESPONSE")
  outcome_of (some response) = ok response

  abbrev envelope_of : ℕ → Option (RawEnvelope A) → Option (Response A)
  envelope_of id none = none
  envelope_of id (some raw) = check_envelope id raw

  module _ (parse : Text → Option (RawEnvelope A)) (expected : Text) (id : ℕ) where
    -- The answer that a text holds.
    unfoldable pub read_answer : Text → Option (Response A)
    read_answer text = envelope_of id (parse text)

    unfoldable pub on_event : Event → Rpc A → Rpc A
    unfolding settle read_answer
    on_event (host_key actual) s = record s {
      host_key_mismatch = not (text_eq (map lower actual) expected);
    }
    on_event exec_failed s = settle (err (transport_error "HELPER_UNAVAILABLE")) s
    on_event (received chunk) s =
        let bytes = s.bytes + length chunk in
        if ltb max_response_bytes bytes
        then settle (err (transport_error "INVALID_HELPER_RESPONSE")) (record s { bytes = bytes })
        else record s { bytes = bytes; chunks = s.chunks ++ chunk }
    on_event closed s = settle (outcome_of (read_answer s.chunks)) s
    on_event stream_failed s = settle (err (transport_error "HELPER_UNAVAILABLE")) s
    on_event connection_failed s =
        settle
          (err (
            transport_error
              (if s.host_key_mismatch then "HOST_KEY_MISMATCH" else "HELPER_UNAVAILABLE")))
          s
    on_event timed_out s = settle (err (transport_error "HELPER_UNAVAILABLE")) s

    unfoldable pub run_events : List Event → Rpc A → Rpc A
    unfolding on_event
    run_events [] s = s
    run_events (e ∷ es) s = run_events es (on_event e s)
