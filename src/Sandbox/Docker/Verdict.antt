-- ===== src/Sandbox/Docker/Verdict.antt =====
-- The verdicts of sandbox_client/docker_runner.py: what a verified result proves, what a missing payload
-- comes to, and when the container is removed.
use agentic_code_intelligenc.Prelude.{
  ℕ, ℤ, pos, negsuc, Bool, true, false, ◌||◌, Option, none, some, List, ◌++◌, take, if◌then◌else◌,
  Text, codes, ◌≡◌, ◌≢◌, refl, arith,
}
use agentic_code_intelligenc.Common.{Result, ok, err}
use agentic_code_intelligenc.Sandbox.{VerificationStage, KilledReason, VerificationResult}
use agentic_code_intelligenc.Sandbox.Docker.{
  SandboxLimits, Ending, flag, verdict, read_payload, infra_error, parse, parse_found,
  with_exit_code, with_stage, with_wall, oom_kill, no_payload_text, int_eq, convert, docker_args,
  conclude, run_container, verify_snapshot,
}
use agentic_code_intelligenc.Sandbox.Docker.Payload.{Json, extract_payload}

-- What a verified result stands for: each step of the payload succeeded, nothing was killed.
abbrev pub IsProven : List (Text × Json) → VerificationResult → Type 0
IsProven payload r =
    (flag (codes "applied") payload ≡ true)
    × (flag (codes "built") payload ≡ true)
    × (flag (codes "tests_passed") payload ≡ true)
    × (r.killed_reason ≡ none)
    × (r.stage ≡ VerificationStage.done)

-- a property of the value, where there is one
abbrev OnOk {ℓ} : {A : Type 0} → (A → Type ℓ) → Result A → Type ℓ
OnOk P (ok a) = P a
OnOk P (err e) = Unit

OnOk-convert :
    {A B : Type 0} (P : B → Type 0) (x : Option A) (f : A → Result B)
    → ((a : A) → OnOk P (f a))
    → OnOk P (convert x f)
unfolding convert
OnOk-convert P none f k = tt
OnOk-convert P (some a) f k = k a

at_ok : {A : Type 0} (P : A → Type 0) (r : Result A) (a : A) → r ≡ ok a → OnOk P r → P a
at_ok P r a e h = rw e at h

module _ (redact : Text → Text) (space : ℕ → Bool) (loads : Text → Option (List (Text × Json)))
    (seconds : Json → Option ℕ) where
  verdict-IsProven :
      (payload : List (Text × Json)) (exit_code : ℤ) (stage : VerificationStage) (wall : ℕ)
      → (verdict redact space loads seconds payload exit_code stage wall).verified ≡ true
      → IsProven payload (verdict redact space loads seconds payload exit_code stage wall)
  unfolding verdict
  verdict-IsProven payload exit_code stage wall h = ground arith

  OnOk-read_payload :
      (P : VerificationResult → Type 0) (payload : List (Text × Json)) (wall : ℕ)
      → ((exit_code : ℤ) (stage : VerificationStage) (run_wall : ℕ)
          → P (verdict redact space loads seconds payload exit_code stage run_wall))
      → OnOk P (read_payload redact space loads seconds payload wall)
  unfolding read_payload
  OnOk-read_payload P payload wall k =
      OnOk-convert P _ (with_exit_code redact space loads seconds payload wall) λ exit_code.
        OnOk-convert P _ (with_stage redact space loads seconds payload wall exit_code) λ stage.
          OnOk-convert P _ (with_wall redact space loads seconds payload exit_code stage)
            (k exit_code stage)

  abbrev WithPayload : Option (List (Text × Json)) → VerificationResult → Type 0
  WithPayload found r =
      r.verified ≡ true
      → (payload : List (Text × Json)) × (found ≡ some payload) × IsProven payload r

  parse_found-IsProven :
      (found : Option (List (Text × Json))) (out error : Text) (docker_rc : ℤ) (wall : ℕ)
      → OnOk
          (WithPayload found)
          (parse_found redact space loads seconds found out error docker_rc wall)
  unfolding parse_found infra_error
  parse_found-IsProven none out error docker_rc wall =
      of_rc (int_eq docker_rc (pos 137) || int_eq docker_rc (negsuc 8))
    where
      of_rc :
          (b : Bool)
          → OnOk (WithPayload none) (
              if b
              then ok (oom_kill redact space loads seconds docker_rc wall)
              else ok (
                  infra_error redact space loads seconds
                    (no_payload_text redact space loads seconds out error docker_rc)
                    wall))
      of_rc true = λ good. cc
      of_rc false = λ good. cc
  parse_found-IsProven (some payload) out error docker_rc wall =
      OnOk-read_payload (WithPayload (some payload)) payload wall λ exit_code stage run_wall good.
        (payload, refl, verdict-IsProven payload exit_code stage run_wall good)

  -- why a parsed result was killed: never for the deadline
  abbrev InTime : VerificationResult → Type 0
  InTime r = r.killed_reason ≢ some KilledReason.deadline

  module _ (image docker_bin : Text) (limits : SandboxLimits) where
    abbrev name_of : Text → Text
    name_of hex = codes "acp-sandbox-" ++ take 12 hex

    conclude-IsProven :
        (name : Text) (args : List Text) (ending : Ending) (r : VerificationResult)
        → (conclude image docker_bin limits redact space loads seconds name args ending).0 ≡ ok r
        → r.verified ≡ true
        → (out : Text) × (error : Text) × (docker_rc : ℤ) × (wall : ℕ) × (payload : List
            (Text × Json))
          × (ending ≡ Ending.exited out error docker_rc wall)
          × (extract_payload space loads out ≡ some payload)
          × IsProven payload r
    unfolding conclude parse infra_error
    conclude-IsProven name args Ending.not_found r h good = absurd (ground (arith, h, good))
    conclude-IsProven name args (Ending.timed_out wall) r h good = absurd (ground (arith, h, good))
    conclude-IsProven name args (Ending.exited out error docker_rc wall) r h good =
        let found = extract_payload space loads out in
        let (payload, e, p) =
          at_ok (WithPayload found) _ r h (parse_found-IsProven found out error docker_rc wall)
            good in
        (out, error, docker_rc, wall, payload, refl, e, p)

    -- A verified result is of a container that was started on an existing snapshot and that ended by
    -- itself in time, and whose output carries a payload in which the patch was applied, the build and the
    -- tests passed; nothing was killed, and the stage is `done`.
    pub verify_snapshot_verified :
        (popen : List Text → Ending) (hex snapshot_dir patch_dir : Text) (is_dir : Bool)
        (r : VerificationResult)
        → (verify_snapshot image docker_bin limits redact space loads seconds popen hex snapshot_dir
            patch_dir is_dir).0
          ≡ ok r
        → r.verified ≡ true
        → (is_dir ≡ true)
          × ((out : Text) × (error : Text) × (docker_rc : ℤ) × (wall : ℕ) × (payload : List
                (Text × Json))
              × (popen (docker_args image docker_bin limits snapshot_dir patch_dir (name_of hex))
                  ≡ Ending.exited out error docker_rc wall)
              × (extract_payload space loads out ≡ some payload)
              × IsProven payload r)
    unfolding verify_snapshot run_container infra_error
    verify_snapshot_verified popen hex snapshot_dir patch_dir true r h good =
        (refl, conclude-IsProven (name_of hex) _ (popen _) r h good)
    verify_snapshot_verified popen hex snapshot_dir patch_dir false r h good =
        absurd (ground (arith, h, good))
