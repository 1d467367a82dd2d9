-- ===== src/Config/Bounds.antt =====
-- The bounds of a configuration that is loaded.
use awg_control.Base.{
  Bool, ℕ, ◌≤◌, ◌≡◌, refl, String, Text, length, Option, none, some, arith, if◌then◌else◌, true,
}
use awg_control.Exec.{Result, ok, err}
use awg_control.Config.{
  parsed, integer, bounded_integer, non_negative_integer, checked, within, port_checked,
  read_master_key, Environment, AppConfig, load_config, ◌then◌,
}

-- What a chain of readings returns came from each of them.
then_ok :
    {A B P : Type 0} {m : Result A} {f : A → Result B} {b : B}
    → (m then f) ≡ ok b
    → ((a : A) → m ≡ ok a → f a ≡ ok b → P)
    → P
unfolding ◌then◌
then_ok {m = ok a} e k = k a refl e
then_ok {m = err x} e k = absurd cc

checked_ok :
    (test : ℕ → Bool) (name : String) (o : Option ℕ) (n : ℕ)
    → checked test name o ≡ ok n
    → test n ≡ true
checked_ok test name none n e = absurd cc
checked_ok test name (some m) n e = ground (arith, e)

within_ok :
    (minimum maximum : ℕ) (name : String) (x : Result ℕ) (n : ℕ)
    → within minimum maximum name x ≡ ok n
    → (minimum ≤ n) × (n ≤ maximum)
within_ok minimum maximum name (err f) n e = absurd cc
within_ok minimum maximum name (ok m) n e = ground (arith, e)

integer_ok :
    (value : Option String) (fallback : ℕ) (name : String) (n : ℕ)
    → integer value fallback name ≡ ok n
    → 1 ≤ n
unfolding integer
integer_ok value fallback name n e =
    let h = checked_ok _ name (parsed value fallback) n e in ground (arith, h)

bounded_ok :
    (value : Option String) (fallback : ℕ) (name : String) (minimum maximum n : ℕ)
    → bounded_integer value fallback name minimum maximum ≡ ok n
    → (minimum ≤ n) × (n ≤ maximum)
unfolding bounded_integer
bounded_ok value fallback name minimum maximum n e =
    within_ok minimum maximum name (integer value fallback name) n e

non_negative_ok :
    (value : Option String) (fallback : ℕ) (name : String) (maximum n : ℕ)
    → non_negative_integer value fallback name maximum ≡ ok n
    → n ≤ maximum
unfolding non_negative_integer
non_negative_ok value fallback name maximum n e =
    let h = checked_ok _ name (parsed value fallback) n e in ground (arith, h)

port_ok : (port n : ℕ) → port_checked port ≡ ok n → (port ≡ n) × (n ≤ 65535)
port_ok port n e = ground (arith, e)

key_ok :
    (path : Option String) (read_file : String → Text) (key : Text)
    → read_master_key path read_file ≡ ok key
    → length key ≡ 32
unfolding read_master_key
key_ok none read_file key e = absurd cc
key_ok (some path) read_file key e = ground (arith, e)

-- What holds of every configuration that the program runs with.
pub record IsSound (config : AppConfig) : Type 0 where
  pub port_low : 1 ≤ config.port
  pub port_high : config.port ≤ 65535
  pub master_key : length config.master_key ≡ 32
  pub session_ttl : (300 ≤ config.session_ttl_seconds) × (config.session_ttl_seconds ≤ 43_200)
  pub remembered_ttl :
      (3_600 ≤ config.remembered_session_ttl_seconds)
      × (config.remembered_session_ttl_seconds ≤ 2_592_000)
  pub idle_ttl :
      (300 ≤ config.remembered_session_idle_ttl_seconds)
      × (config.remembered_session_idle_ttl_seconds ≤ 604_800)
  pub write_interval :
      (30 ≤ config.session_activity_write_interval_seconds)
      × (config.session_activity_write_interval_seconds ≤ 3_600)
  pub hops : config.trusted_proxy_hops ≤ 1

-- A configuration that is loaded is within its bounds, whatever the environment holds: the port is a
-- port, the master key has 32 bytes, and the lifetimes of sessions, the interval of activity writes
-- and the number of trusted proxies lie between their limits.
pub load_config_bounds :
    (read_file : String → Text) (env : Environment) (config : AppConfig)
    → load_config read_file env ≡ ok config
    → IsSound config
unfolding load_config
load_config_bounds read_file env config e = then_ok e λ parsed_port e1 r1. then_ok r1 λ port e2 r2.
    then_ok r2 λ key e3 r3. then_ok r3 λ session_ttl e4 r4. then_ok r4 λ remembered_ttl e5 r5.
      then_ok r5 λ idle_ttl e6 r6. then_ok r6 λ write_interval e7 r7. then_ok r7 λ hops e8 r8.
        let (same, high) = port_ok parsed_port port e2 in
        let low = integer_ok env.port 8080 _ parsed_port e1 in
        let key_length = key_ok _ _ key e3 in
        let session = bounded_ok _ _ _ _ _ session_ttl e4 in
        let remembered = bounded_ok _ _ _ _ _ remembered_ttl e5 in
        let idle = bounded_ok _ _ _ _ _ idle_ttl e6 in
        let writes = bounded_ok _ _ _ _ _ write_interval e7 in
        let few = non_negative_ok _ _ _ _ hops e8 in
        record {
          port_low = ground (arith, r8, same, low);
          port_high = ground (arith, r8, high);
          master_key = ground (arith, r8, key_length);
          session_ttl = ground (arith, r8, session);
          remembered_ttl = ground (arith, r8, remembered);
          idle_ttl = ground (arith, r8, idle);
          write_interval = ground (arith, r8, writes);
          hops = ground (arith, r8, few);
        }
