-- ===== src/Gateway/Identity.antt =====
-- Whom `require_auth` of gateway/auth.py lets in, and as whom.
use agentic_code_intelligenc.Prelude.{
  ℕ, zero, suc, ◌==◌, Bool, true, false, some, List, [], ◌∷◌, ◌++◌, find, drop, take, strip_space,
  Text, codes, text_eq_refl, text_eq_iff, Option-cases, ◌≡◌, refl, arith, inl, inr,
}
use agentic_code_intelligenc.Common.{ok}
use agentic_code_intelligenc.Db.{ApiKey, Database}
use agentic_code_intelligenc.Db.Accounts.{get_by_prefix, live_key}
use agentic_code_intelligenc.Gateway.{
  Hits, check, split_token, hash_secret, verify_secret, issue_api_key, AuthContext, authenticate,
  require_auth,
}

find-live_key :
    (p : Text) (rows : List ApiKey) (k : ApiKey)
    → find (live_key p) rows ≡ some k
    → (k.key_prefix ≡ p) × (k.revoked ≡ false)
find-live_key p [] k h = cc
find-live_key p (x ∷ rows) k h = ground (arith, find-live_key p rows k, text_eq_iff x.key_prefix p)

get_by_prefix-live :
    (p : Text) (db : Database) (k : ApiKey)
    → get_by_prefix p db ≡ some k
    → (k.key_prefix ≡ p) × (k.revoked ≡ false)
unfolding get_by_prefix
get_by_prefix-live p db k h = find-live_key p db.api_keys k h

-- The row that an authenticated request stands for: a live key with the token's prefix, whose stored
-- hash is that of the token's secret, and which was admitted by its rate limit.
pub record IsGrant (sha256 : List ℕ → List ℕ) (token : Text) (t : ℕ) (db : Database) (hits : Hits)
    (auth : AuthContext) : Type 0 where
  pub key : ApiKey
  pub found : get_by_prefix (split_token token).0 db ≡ some key
  pub live : key.revoked ≡ false
  pub prefix : key.key_prefix ≡ (split_token token).0
  pub secret : key.key_hash ≡ hash_secret sha256 (split_token token).1
  pub admitted : (check key.id key.rate_limit_per_min t hits).0 ≡ ok tt
  pub owner : auth.user_id ≡ key.user_id
  pub which : auth.api_key_id ≡ key.id

module _ (sha256 : List ℕ → List ℕ) (space : ℕ → Bool) where
  authenticate-IsGrant :
      (token : Text) (t : ℕ) (db : Database) (hits hits' : Hits) (auth : AuthContext)
      → authenticate sha256 space token t db hits ≡ (ok auth, hits')
      → IsGrant sha256 token t db hits auth
  unfolding authenticate verify_secret
  authenticate-IsGrant token t db hits hits' auth e =
      elim (Option-cases (get_by_prefix (split_token token).0 db)) [
        | inl missing ↦ absurd (ground (arith, e, missing))
        | inr (key, found) ↦
            let (prefix, live) = get_by_prefix-live (split_token token).0 db key found in
            record {
              key = key;
              found = found;
              live = live;
              prefix = prefix;
              secret = ground (
                arith,
                e,
                found,
                text_eq_iff (hash_secret sha256 (split_token token).1) key.key_hash,
              );
              admitted = ground (arith, e, found);
              owner = ground (arith, e, found);
              which = ground (arith, e, found);
            }
      ]

  -- A request that is let in acts as the owner of a live key that its token proves, and as nobody
  -- else: the key row has the token's prefix and the hash of the token's secret, it is not revoked,
  -- its rate limit admitted the request, and the user and the key of the context are those of the
  -- row.
  pub require_auth-IsGrant :
      (authorization : Text) (t : ℕ) (db : Database) (hits hits' : Hits) (auth : AuthContext)
      → require_auth sha256 space (some authorization) t db hits ≡ (ok auth, hits')
      → IsGrant sha256 (strip_space space (drop 7 authorization)) t db hits auth
  unfolding require_auth
  require_auth-IsGrant authorization t db hits hits' auth e =
      authenticate-IsGrant (strip_space space (drop 7 authorization)) t db hits hits' auth
        (ground (arith, e))

-- no dot in the text
abbrev pub IsDotless : Text → Type 0
IsDotless [] = Unit
IsDotless (c ∷ s) = ((c == b'.') ≡ false) × IsDotless s

split_token-dot :
    (prefix secret : Text)
    → IsDotless prefix
    → split_token (prefix ++ codes "." ++ secret) ≡ (prefix, secret)
unfolding split_token
split_token-dot [] secret plain = refl
split_token-dot (c ∷ prefix) secret plain =
    rw plain.0 (rw (split_token-dot prefix secret plain.1) refl)

take-IsDotless : (n : ℕ) (s : Text) → IsDotless s → IsDotless (take n s)
take-IsDotless zero s plain = tt
take-IsDotless (suc n) [] plain = tt
take-IsDotless (suc n) (c ∷ s) plain = (plain.0, take-IsDotless n s plain.1)

-- A key that was issued is accepted: the token splits into the prefix and a secret that the stored
-- hash verifies. The random text of the prefix has no dot, as `token_urlsafe` gives none; the secret
-- may have any.
pub issue_api_key_verifies :
    (sha256 : List ℕ → List ℕ) (short long : Text)
    → IsDotless short
    → let key = issue_api_key sha256 short long in
      ((split_token key.token).0 ≡ key.prefix)
      × (verify_secret sha256 (split_token key.token).1 key.key_hash ≡ true)
unfolding issue_api_key verify_secret
issue_api_key_verifies sha256 short long plain =
    rw (split_token-dot (take 8 short) long (take-IsDotless 8 short plain))
      (refl, text_eq_refl (hash_secret sha256 long))
