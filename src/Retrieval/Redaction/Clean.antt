-- ===== src/Retrieval/Redaction/Clean.antt =====
-- What retrieval/redaction.py leaves of the keys and tokens that it knows by their shape: nothing.
use agentic_code_intelligenc.Prelude.{
  [], ◌++◌, append_assoc, Text, codes, strip_space, ◌≡◌, refl, ap, Bool-cases, inl, inr,
}
use agentic_code_intelligenc.Retrieval.Regex.{Regex, Found, sub}
use agentic_code_intelligenc.Retrieval.Regex.Prefixes.{Misses}
use agentic_code_intelligenc.Retrieval.Regex.Consumed.{
  Filled, Filled-append_left, Filled-append_right,
}
use agentic_code_intelligenc.Retrieval.Regex.Scrubbed.{IsClean, IsClean-sub}
use agentic_code_intelligenc.Retrieval.Regex.Kept.{IsPlaced, IsClean-sub_other}
use agentic_code_intelligenc.Retrieval.Redaction.{
  marker, provider_api_key, jwt, named_secret, place, allowed_name, is_space, apply_rules, redact,
}
use agentic_code_intelligenc.Retrieval.Redaction.Named.{Parts, Parts-named_secret}
use agentic_code_intelligenc.Retrieval.Redaction.Markers.{
  opening, unnamed, Misses-provider_api_key, Misses-jwt, place_shape, pairless, provider_behind,
  jwt_behind,
}

-- a marker behind its first character
abbrev tail : Text → Text
tail reason = codes "redacted:" ++ reason ++ codes "»"

-- After the first rule no provider key is left, after the second one no token.
provider_scrubbed :
    (s : Text)
    → IsClean provider_api_key (sub provider_api_key (place (codes "provider_api_key")) 0 s).0
unfolding marker pairless
provider_scrubbed s =
    IsClean-sub opening unnamed provider_api_key Misses-provider_api_key
      (place (codes "provider_api_key")) (tail (codes "provider_api_key"))
      (λ t x found.
        place_shape (codes "provider_api_key") provider_api_key t x Misses-provider_api_key found)
      (provider_behind (codes "provider_api_key") [] refl refl) 0 s

jwt_scrubbed : (s : Text) → IsClean jwt (sub jwt (place (codes "jwt")) 0 s).0
unfolding marker pairless
jwt_scrubbed s =
    IsClean-sub opening unnamed jwt Misses-jwt (place (codes "jwt")) (tail (codes "jwt"))
      (λ t x found. place_shape (codes "jwt") jwt t x Misses-jwt found)
      (jwt_behind (codes "jwt") [] refl refl) 0 s

-- The second rule leaves no provider key where there was none.
jwt_keeps_keyless :
    (s : Text)
    → IsClean provider_api_key s
    → IsClean provider_api_key (sub jwt (place (codes "jwt")) 0 s).0
unfolding marker pairless
jwt_keeps_keyless s clean =
    IsClean-sub_other opening unnamed provider_api_key Misses-provider_api_key jwt
      (place (codes "jwt"))
      (λ t x found.
        IsPlaced.hides [] (tail (codes "jwt")) t refl
          (ap (λ z. z.0) (place_shape (codes "jwt") jwt t x Misses-jwt found))
          (provider_behind (codes "jwt") [] refl refl))
      0 s clean

Filled-named_secret : (s : Text) (x : Found) → Parts s x → Filled x.matched
Filled-named_secret s x p = rw p.matched_is (
    Filled-append_right p.name (p.sep ++ (p.quote ++ (p.value ++ p.close)))
      (Filled-append_left p.sep (p.quote ++ (p.value ++ p.close)) p.filled))

-- What takes the place of a match of the third rule keeps a pattern away that its end keeps away.
module _ (r : Regex) (known : Misses opening unnamed r) where
  IsPlaced-named_secret :
      (s : Text) (x : Found) (p : Parts s x)
      → ((o : Text) → IsClean r o → IsClean r ((marker (codes "named_secret") ++ p.quote) ++ o))
      → IsPlaced opening unnamed r known s x (place (codes "named_secret") x).0
  unfolding marker place
  IsPlaced-named_secret s x p stays =
      elim (Bool-cases (allowed_name (strip_space is_space p.name))) [
        | inl benign ↦
            let (d, m, e) = Filled-named_secret s x p in
            IsPlaced.leaves d m e p.splits (rw (p.name_is, benign) refl)
        | inr secret ↦
            IsPlaced.hides (p.name ++ (p.sep ++ p.quote)) (tail (codes "named_secret") ++ p.quote)
              p.behind
              (rw
                (
                  append_assoc p.name (p.sep ++ p.quote) p.behind,
                  append_assoc p.sep p.quote p.behind,
                )
                p.begins)
              (rw (p.name_is, secret, p.sep_is, p.quote_is) (simp append_assoc refl)) stays
      ]

-- The text of `redact` after its three rules.
redact_content :
    (content : Text)
    → (redact content).content
      ≡ (sub named_secret
          (place (codes "named_secret"))
          0
          (sub jwt
            (place (codes "jwt"))
            0
            (sub provider_api_key (place (codes "provider_api_key")) 0 content).0).0).0
unfolding redact apply_rules
redact_content content = refl

-- Whatever the text, in what `redact` returns of it no provider key and no token of three segments
-- begins anywhere: neither where one stood, nor where a marker and what is around it meet.
pub redact-IsClean :
    (content : Text)
    → IsClean provider_api_key (redact content).content × IsClean jwt (redact content).content
unfolding pairless marker
redact-IsClean content =
    let keyless = (sub provider_api_key (place (codes "provider_api_key")) 0 content).0 in
    let tokenless = (sub jwt (place (codes "jwt")) 0 keyless).0 in
    rw (redact_content content) (
      IsClean-sub_other opening unnamed provider_api_key Misses-provider_api_key named_secret
          (place (codes "named_secret"))
          (λ s x found.
            let p = Parts-named_secret s x found in
            IsPlaced-named_secret provider_api_key Misses-provider_api_key s x p
              (provider_behind (codes "named_secret") p.quote refl p.no_s))
          0 tokenless (jwt_keeps_keyless keyless (provider_scrubbed content)),
      IsClean-sub_other opening unnamed jwt Misses-jwt named_secret (place (codes "named_secret"))
          (λ s x found.
            let p = Parts-named_secret s x found in
            IsPlaced-named_secret jwt Misses-jwt s x p
              (jwt_behind (codes "named_secret") p.quote refl p.no_e))
          0 tokenless (jwt_scrubbed keyless),
    )
