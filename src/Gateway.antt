-- ===== src/Gateway.antt =====
-- The authentication of gateway/auth.py with the key primitives of common/security.py: the token, the
-- key row, and the trailing-window rate limit.
pub mod Window
pub mod Identity
pub mod Tasks
use agentic_code_intelligenc.Prelude.{
  ℕ, ◌+◌, ◌==◌, leb, Bool, true, false, not, ◌&&◌, ◌||◌, Option, none, some, List, [], ◌∷◌, ◌++◌,
  any, length, take, reverse, if◌then◌else◌, Text, codes, text_eq, starts_with, strip_space, utf8,
  hex, drop,
}
use agentic_code_intelligenc.Common.{Error, Result, ok, err}
use agentic_code_intelligenc.Db.{ApiKey, Database}
use agentic_code_intelligenc.Db.Accounts.{get_by_prefix}

-- `_WINDOW_SECONDS`, in milliseconds
abbrev pub window_ms : ℕ
window_ms = 60000

-- `_hits`: the times of the admitted requests of each key, the oldest first
abbrev pub Hits : Type 0
Hits = Text → List ℕ

unfoldable pub put_hits : Text → List ℕ → Hits → Hits
put_hits key dq hits key' = if text_eq key' key then dq else hits key'

-- `while dq and dq[0] <= cutoff: dq.popleft()`
unfoldable pub drop_old : ℕ → List ℕ → List ℕ
drop_old t [] = []
drop_old t (s ∷ dq) = let rest = drop_old t dq in if leb (s + window_ms) t then rest else s ∷ dq

-- `_SlidingWindowLimiter.check`; the window of the key is trimmed also where the request is refused.
unfoldable pub check : Text → ℕ → ℕ → Hits → Result (Unit {0}) × Hits
unfolding put_hits drop_old
check key limit_per_min t hits =
    let dq = drop_old t (hits key) in
    if leb limit_per_min 0
    then (ok tt, hits)
    else if leb limit_per_min (length dq)
    then (err Error.rate_limited, put_hits key dq hits)
    else (ok tt, put_hits key (dq ++ t ∷ []) hits)

-- `token.partition(".")`, without the middle
unfoldable pub split_token : Text → Text × Text
split_token [] = ([], [])
split_token (c ∷ s) =
    let (prefix, secret) = split_token s in if c == b'.' then ([], s) else (c ∷ prefix, secret)

module _ (sha256 : List ℕ → List ℕ) where
  unfoldable pub hash_secret : Text → Text
  hash_secret secret = hex (sha256 (utf8 secret))

  -- `hmac.compare_digest` decides equality.
  unfoldable pub verify_secret : Text → Text → Bool
  verify_secret secret stored_hash = text_eq (hash_secret secret) stored_hash

pub record IssuedKey : Type 0 where
  pub token : Text
  pub prefix : Text
  pub key_hash : Text

-- `short` and `long` are the two results of `new_secret`.
unfoldable pub issue_api_key : (List ℕ → List ℕ) → Text → Text → IssuedKey
issue_api_key sha256 short long = record {
  token = take 8 short ++ codes "." ++ long;
  prefix = take 8 short;
  key_hash = hash_secret sha256 long;
}

pub record AuthContext : Type 0 where
  pub user_id : Text
  pub api_key_id : Text

module _ (sha256 : List ℕ → List ℕ) (space : ℕ → Bool) where
  -- the part behind the token's test
  unfoldable pub authenticate : Text → ℕ → Database → Hits → Result AuthContext × Hits
  authenticate token t db hits =
      let (prefix, secret) = split_token token in
      elim (get_by_prefix prefix db) [
        | none ↦ (err Error.auth_error, hits)
        | some key ↦
            if not (verify_secret sha256 secret key.key_hash)
            then (err Error.auth_error, hits)
            else let (r, hits') = check key.id key.rate_limit_per_min t hits in
              elim r [
                | err e ↦ (err e, hits')
                | ok _ ↦ (ok (record { user_id = key.user_id; api_key_id = key.id }), hits')
              ]
      ]

  -- `require_auth`, at the reading `t` of the clock
  unfoldable pub require_auth : Option Text → ℕ → Database → Hits → Result AuthContext × Hits
  require_auth none t db hits = (err Error.auth_error, hits)
  require_auth (some authorization) t db hits =
      let token = strip_space space (drop 7 authorization) in
      if not (starts_with (codes "Bearer ") authorization)
      then (err Error.auth_error, hits)
      else if text_eq token [] || not (any (λ c. c == b'.') token)
      then (err Error.auth_error, hits)
      else authenticate token t db hits
