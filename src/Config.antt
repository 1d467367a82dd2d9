-- ===== src/Config.antt =====
-- apps/api/src/config.ts: the numbers of the configuration, read from the environment. A missing
-- variable is none; paths and the host are left out, as nothing tests them.
pub mod Bounds
use awg_control.Base.{
  ℕ, ◌+◌, ◌-◌, ◌*◌, String, str_eq, Bool, true, false, not, ◌&&◌, ◌||◌, Option, none, some, List,
  [], ◌∷◌, Text, codes, is_space, length, ltb, leb, ◌==◌, if◌then◌else◌,
}
use awg_control.Exec.{Failure, other_error, Result, ok, err}

abbrev is_digit : ℕ → Bool
is_digit c = leb b'0' c && leb c b'9'

-- The value of the digits at the start of a text, after those that have been read.
unfoldable pub digits_from : ℕ → Text → ℕ
digits_from n [] = n
digits_from n (c ∷ s) =
    let rest = digits_from (n * 10 + (c - b'0')) s in if is_digit c then rest else n

-- A number that is at least zero, at the start of a text.
unfoldable pub unsigned : Text → Option ℕ
unfolding digits_from
unsigned [] = none
unsigned (c ∷ s) = if is_digit c then some (digits_from 0 (c ∷ s)) else none

-- Of a negative number, only zero is kept: the code refuses every other one, like NaN.
abbrev negated : Option ℕ → Option ℕ
negated none = none
negated (some n) = if n == 0 then some 0 else none

unfoldable pub signed : Text → Option ℕ
unfolding unsigned
signed [] = none
signed (c ∷ s) =
    if c == b'-' then negated (unsigned s) else if c == b'+' then unsigned s else unsigned (c ∷ s)

-- `Number.parseInt(text, 10)`, where it is not NaN and not negative.
unfoldable pub parse_int : Text → Option ℕ
unfolding signed
parse_int [] = none
parse_int (c ∷ s) = let rest = parse_int s in if is_space c then rest else signed (c ∷ s)

-- `Number.parseInt(value ?? String(fallback), 10)`.
unfoldable pub parsed : Option String → ℕ → Option ℕ
unfolding parse_int
parsed none fallback = some fallback
parsed (some text) fallback = parse_int (codes text)

abbrev pub max_safe_integer : ℕ
max_safe_integer = 9_007_199_254_740_991

abbrev pub checked : (ℕ → Bool) → String → Option ℕ → Result ℕ
checked test name none = err (other_error name)
checked test name (some n) = if test n then ok n else err (other_error name)

-- The failures carry the name of the variable.
unfoldable pub integer : Option String → ℕ → String → Result ℕ
unfolding parsed
integer value fallback name =
    checked (λ n. leb n max_safe_integer && not (n == 0)) name (parsed value fallback)

abbrev pub within : ℕ → ℕ → String → Result ℕ → Result ℕ
within minimum maximum name (err e) = err e
within minimum maximum name (ok n) =
    if ltb n minimum || ltb maximum n then err (other_error name) else ok n

unfoldable pub bounded_integer : Option String → ℕ → String → ℕ → ℕ → Result ℕ
unfolding integer
bounded_integer value fallback name minimum maximum =
    within minimum maximum name (integer value fallback name)

unfoldable pub non_negative_integer : Option String → ℕ → String → ℕ → Result ℕ
unfolding parsed
non_negative_integer value fallback name maximum =
    checked (λ n. leb n max_safe_integer && leb n maximum) name (parsed value fallback)

-- `readMasterKey`, of the bytes of the file that the path names; an empty path is none.
unfoldable pub read_master_key : Option String → (String → Text) → Result Text
read_master_key none read_file = err (other_error "AWG_CONTROL_MASTER_KEY_FILE is required")
read_master_key (some path) read_file =
    if str_eq path ""
    then err (other_error "AWG_CONTROL_MASTER_KEY_FILE is required")
    else if length (read_file path) == 32
    then ok (read_file path)
    else err (other_error "AWG Control master key must contain exactly 32 bytes")

pub record Environment : Type 0 where
  pub port : Option String
  pub master_key_file : Option String
  pub session_ttl_seconds : Option String
  pub remembered_session_ttl_seconds : Option String
  pub remembered_session_idle_ttl_seconds : Option String
  pub session_activity_write_interval_seconds : Option String
  pub secure_cookies : Option String
  pub trusted_proxy_hops : Option String
  pub polling_enabled : Option String

pub record AppConfig : Type 0 where
  pub port : ℕ
  pub master_key : Text
  pub session_ttl_seconds : ℕ
  pub remembered_session_ttl_seconds : ℕ
  pub remembered_session_idle_ttl_seconds : ℕ
  pub session_activity_write_interval_seconds : ℕ
  pub secure_cookies : Bool
  pub trusted_proxy_hops : ℕ
  pub polling_enabled : Bool

-- `value !== "false"`
abbrev is_on : Option String → Bool
is_on none = true
is_on (some text) = not (str_eq text "false")

infixl 10 ◌then◌
-- One reading after another, up to the first that throws.
unfoldable pub ◌then◌ : {A B : Type 0} → Result A → (A → Result B) → Result B
(ok a) then f = f a
(err e) then f = err e

abbrev pub port_checked : ℕ → Result ℕ
port_checked port = if ltb 65535 port then err (other_error "AWG_CONTROL_PORT") else ok port

unfoldable pub load_config : (String → Text) → Environment → Result AppConfig
load_config read_file env = integer env.port 8080 "AWG_CONTROL_PORT" then λ parsed_port.
    port_checked parsed_port then λ port.
    read_master_key env.master_key_file read_file then λ master_key.
    bounded_integer env.session_ttl_seconds 43_200 "AWG_CONTROL_SESSION_TTL_SECONDS" 300 43_200
    then λ session_ttl.
        bounded_integer env.remembered_session_ttl_seconds 2_592_000
          "AWG_CONTROL_REMEMBERED_SESSION_TTL_SECONDS" 3_600 2_592_000
        then λ remembered_ttl.
            bounded_integer env.remembered_session_idle_ttl_seconds 604_800
              "AWG_CONTROL_REMEMBERED_SESSION_IDLE_TTL_SECONDS" 300 604_800
            then λ idle_ttl.
                bounded_integer env.session_activity_write_interval_seconds 300
                  "AWG_CONTROL_SESSION_ACTIVITY_WRITE_INTERVAL_SECONDS" 30 3_600
                then λ write_interval.
                    non_negative_integer env.trusted_proxy_hops 0 "AWG_CONTROL_TRUSTED_PROXY_HOPS" 1
                    then λ hops. ok (record {
                      port = port;
                      master_key = master_key;
                      session_ttl_seconds = session_ttl;
                      remembered_session_ttl_seconds = remembered_ttl;
                      remembered_session_idle_ttl_seconds = idle_ttl;
                      session_activity_write_interval_seconds = write_interval;
                      secure_cookies = is_on env.secure_cookies;
                      trusted_proxy_hops = hops;
                      polling_enabled = is_on env.polling_enabled;
                    })
