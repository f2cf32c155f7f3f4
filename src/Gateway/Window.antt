-- ===== src/Gateway/Window.antt =====
-- The trailing-window limiter of gateway/auth.py: how many requests it admits in a minute.
use agentic_code_intelligenc.Prelude.{
  ℕ, ◌+◌, ◌≤◌, ◌<◌, leb, Bool, true, false, List, [], ◌∷◌, ◌++◌, length, length-append, filter,
  filter-append, length-filter-le, if◌then◌else◌, Text, text_eq_refl, text_eq_iff, Bool-cases, ◌≡◌,
  ◌≢◌, refl, arith, inl, inr,
}
use agentic_code_intelligenc.Common.{Error, Result, ok, err}
use agentic_code_intelligenc.Gateway.{window_ms, Hits, put_hits, drop_old, check}

-- admitted less than a window before `t`
abbrev pub fresh : ℕ → ℕ → Bool
fresh t s = if leb (s + window_ms) t then false else true

-- times in the order of the clock
abbrev pub IsAscending : List ℕ → Type 0
IsAscending [] = Unit
IsAscending (s ∷ []) = Unit
IsAscending (s ∷ s' ∷ dq) = (s ≤ s') × IsAscending (s' ∷ dq)

all_fresh :
    (t s : ℕ) (dq : List ℕ)
    → IsAscending (s ∷ dq)
    → fresh t s ≡ true
    → filter (fresh t) (s ∷ dq) ≡ s ∷ dq
all_fresh t s [] up f = ground (arith, f)
all_fresh t s (s' ∷ dq) up f = ground (arith, f, up, all_fresh t s' dq up.1)

-- Popping old times from the front leaves exactly the fresh ones.
drop_old-filter : (t : ℕ) (dq : List ℕ) → IsAscending dq → drop_old t dq ≡ filter (fresh t) dq
unfolding drop_old
drop_old-filter t [] up = refl
drop_old-filter t (s ∷ []) up = ground arith
drop_old-filter t (s ∷ s' ∷ dq) up = elim (Bool-cases (leb (s + window_ms) t)) [
  | inl old ↦ ground (arith, old, drop_old-filter t (s' ∷ dq) up.1)
  | inr new ↦ ground (arith, new, all_fresh t s (s' ∷ dq) up)
]

-- A time that a later check would drop anyway does not count later.
filter-drop_old :
    (t t' : ℕ) (dq : List ℕ) → t ≤ t' → filter (fresh t') (drop_old t dq) ≡ filter (fresh t') dq
unfolding drop_old
filter-drop_old t t' [] le = refl
filter-drop_old t t' (s ∷ dq) le = ground (arith, le, filter-drop_old t t' dq le)

length-drop_old : (t : ℕ) (dq : List ℕ) → length (drop_old t dq) ≤ length dq
unfolding drop_old
length-drop_old t [] = omega arith
length-drop_old t (s ∷ dq) = ground (arith, length-drop_old t dq)

module _ (key : Text) (limit : ℕ) where
  -- A key with a limit is admitted exactly where fewer than `limit` requests of its window are
  -- younger than a minute, and refused with `rate_limited` otherwise; the windows of other keys are
  -- untouched. The times of the window are in the order of the clock.
  pub check_exact :
      (t : ℕ) (hits : Hits)
      → 0 < limit
      → IsAscending (hits key)
      → ((check key limit t hits).0 ≡ (
          if leb limit (length (filter (fresh t) (hits key)))
          then err Error.rate_limited
          else ok tt))
        × ((key' : Text) → key' ≢ key → (check key limit t hits).1 key' ≡ hits key')
  unfolding check put_hits
  check_exact t hits positive up = (
    rw (← drop_old-filter t (hits key) up) (ground (arith, positive)),
    λ key' other. ground (arith, positive, other, text_eq_iff key' key),
  )

  abbrev note_admitted : ℕ → Result (Unit {0}) → List ℕ → List ℕ
  note_admitted t (ok _) log = log ++ t ∷ []
  note_admitted t (err e) log = log

  -- the admitted ones of a sequence of requests of the key
  pub serve : List ℕ → Hits → List ℕ → List ℕ
  serve [] hits log = log
  serve (t ∷ ts) hits log =
      let (r, hits') = check key limit t hits in serve ts hits' (note_admitted t r log)

  abbrev pub AllUpTo : ℕ → List ℕ → Type 0
  AllUpTo t' [] = Unit
  AllUpTo t' (t ∷ ts) = (t ≤ t') × AllUpTo t' ts

  -- the window stands for the log, as seen at `t'`
  record Shows (t' : ℕ) (dq log : List ℕ) : Type 0 where
    pub same : filter (fresh t') log ≡ filter (fresh t') dq
    pub short : length dq ≤ limit

  check-Shows :
      (t t' : ℕ) (hits : Hits) (log : List ℕ)
      → 0 < limit
      → t ≤ t'
      → Shows t' (hits key) log
      → let (r, hits') = check key limit t hits in Shows t' (hits' key) (note_admitted t r log)
  unfolding check put_hits
  check-Shows t t' hits log positive le h =
      let some_limit : leb limit 0 ≡ false = ground (arith, positive) in
      elim (Bool-cases (leb limit (length (drop_old t (hits key))))) [
        | inl full ↦
            rw (some_limit, full, text_eq_refl key)
              (record {
                same = rw (filter-drop_old t t' (hits key) le) h.same;
                short = omega (arith, length-drop_old t (hits key), h.short);
              })
        | inr room ↦
            rw (some_limit, room, text_eq_refl key)
              (record {
                same =
                    rw
                      (
                        filter-append (fresh t') log,
                        filter-append (fresh t') (drop_old t (hits key)),
                      )
                      (rw (filter-drop_old t t' (hits key) le, h.same) refl);
                short = rw length-append (ground (arith, room));
              })
      ]

  serve-Shows :
      (ts : List ℕ) (t' : ℕ) (hits : Hits) (log : List ℕ)
      → 0 < limit
      → AllUpTo t' ts
      → Shows t' (hits key) log
      → length (filter (fresh t') (serve ts hits log)) ≤ limit
  unfolding serve
  serve-Shows [] t' hits log positive upto h =
      rw h.same (omega (arith, length-filter-le (fresh t') (hits key), h.short))
  serve-Shows (t ∷ ts) t' hits log positive upto h =
      serve-Shows ts t' _ _ positive upto.1 (check-Shows t t' hits log positive upto.0 h)

  -- However requests of a key with a limit come, at any time from the last of them on, at most
  -- `limit` of the admitted ones are younger than a minute.
  pub serve_window :
      (ts : List ℕ) (t' : ℕ)
      → 0 < limit
      → AllUpTo t' ts
      → length (filter (fresh t') (serve ts (λ _. []) [])) ≤ limit
  serve_window ts t' positive upto =
      serve-Shows ts t' (λ _. []) [] positive upto (record { same = refl; short = omega arith })
