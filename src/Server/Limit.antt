-- ===== src/Server/Limit.antt =====
-- The limiter of attempts on the endpoints of authentication
-- (backend/internal/server/middleware/ratelimit.go). Redis holds a counter for each key with the instant
-- at which it expires; whether Redis fails a call is an input.
use check.Common.{
  ℕ, suc, ◌+◌, String, Bool, true, false, ◌||◌, Option, none, some, ltb, str_eq, if◌then◌else◌,
  ◌==◌,
}
use Prim.Native.String.{◌++◌ as text_append}

-- A counter with the instant at which it is gone.
abbrev pub Entry : Type 0
Entry = ℕ × ℕ

abbrev pub Counters : Type 0
Counters = String → Option Entry

abbrev pub alive : ℕ → Option Entry → ℕ × Option ℕ
alive now none = (0, none)
alive now (some (n, ends)) = if ltb now ends then (n, some ends) else (0, none)

abbrev pub set_counter : String → Entry → Counters → Counters
set_counter key e counters = λ k. if str_eq k key then some e else counters k

abbrev pub counted : ℕ → ℕ → ℕ × Option ℕ → Entry
counted window now (n, none) = (suc n, now + window)
counted window now (n, some ends) = (suc n, ends)

-- The script: `INCR`, and `PEXPIRE` on the first increment.
abbrev pub increment : ℕ → ℕ → Option Entry → Entry
increment window now old = counted window now (alive now old)

-- `over`: whether the key has had more than `max` attempts in its window.
unfoldable pub over : Bool → String → ℕ → ℕ → ℕ → Counters → Counters × Bool
over fails key max window now counters =
    if max == 0 || fails
    then (counters, false)
    else let e = increment window now (counters key) in (set_counter key e counters, ltb max e.0)

-- `RateLimitConfig`, with the window in milliseconds.
pub record RateLimitConfig : Type 0 where
  pub window : ℕ
  pub max_per_ip : ℕ
  pub max_per_user : ℕ

-- `DefaultAuthRateLimit`
abbrev pub default_auth_rate_limit : RateLimitConfig
default_auth_rate_limit = record { window = 300000; max_per_ip = 20; max_per_user = 5 }

abbrev pub ip_key : String → String → String
ip_key path ip = text_append "rl:ip:" (text_append path (text_append ":" ip))

abbrev pub user_key : String → String → String
user_key path user = text_append "rl:user:" (text_append path (text_append ":" user))

-- The check of the account, where it is on and the body has a name.
abbrev pub user_over : Bool → RateLimitConfig → String → String → ℕ → Counters → Counters × Bool
user_over fails cfg path user now counters =
    if cfg.max_per_user == 0 || str_eq user ""
    then (counters, false)
    else over fails (user_key path user) cfg.max_per_user cfg.window now counters

abbrev pub then_user : (Counters → Counters × Bool) → Counters × Bool → Counters × Bool
then_user next (counters, blocked) =
    let after = next counters in if blocked then (counters, true) else after

-- `AuthRateLimit`: the new counters, and whether the request is refused. `user` is what `peekUsername`
-- finds, empty where it finds nothing.
unfoldable pub auth_rate_limit :
    Bool → Bool → RateLimitConfig → String → String → String → ℕ → Counters → Counters × Bool
auth_rate_limit ip_fails user_fails cfg path ip user now counters =
    then_user (user_over user_fails cfg path user now)
      (over ip_fails (ip_key path ip) cfg.max_per_ip cfg.window now counters)
