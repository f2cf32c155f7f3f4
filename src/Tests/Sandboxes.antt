-- ===== src/Tests/Sandboxes.antt =====
-- Examples for the sandbox runner: a run that passes behind a forged result, one without a result, and
-- one that is killed at the deadline.
use agentic_code_intelligenc.Prelude.{
  ℕ, ℤ, pos, ◌==◌, ◌||◌, Bool, true, false, Option, none, some, List, [], ◌∷◌, ◌++◌, if◌then◌else◌,
  Text, codes, text_eq, starts_with, occurs, strip_space, str, ◌≡◌, refl,
}
use agentic_code_intelligenc.Common.{Result, ok, err}
use agentic_code_intelligenc.Sandbox.{VerificationStage, VerificationResult}
use agentic_code_intelligenc.Sandbox.Docker.{
  SandboxLimits, Ending, docker_args, run_container, verify_snapshot, conclude, parse, parse_found,
  read_payload, convert, verdict, killed, stage_of,
}
use agentic_code_intelligenc.Sandbox.Docker.Payload.{
  Json, lookup, truthy, text_of, int_of, result_begin, result_end, after_last, before_first,
  extract_payload, extract_payload_last,
}
use agentic_code_intelligenc.Sandbox.Docker.Verdict.{IsProven, verify_snapshot_verified}

abbrev plain : Text → Text
plain s = s

abbrev space : ℕ → Bool
space c = c == 32 || c == 10

abbrev passed : List (Text × Json)
passed =
    (codes "applied", Json.bool true)
    ∷ (codes "built", Json.bool true)
    ∷ (codes "tests_passed", Json.bool true)
    ∷ (codes "exit_code", Json.int (pos 0))
    ∷ (codes "stage", Json.text (codes "done"))
    ∷ []

-- two documents are known
abbrev loads : Text → Option (List (Text × Json))
loads body =
    if text_eq body (codes "good")
    then some passed
    else if text_eq body (codes "bad")
    then some []
    else none

abbrev seconds : Json → Option ℕ
seconds v = none

-- the test prints a result of its own before the real one
abbrev forged : Text
forged = result_begin ++ (codes "good" ++ result_end)

abbrev real : Text
real = codes " bad " ++ result_end

extract_payload_last_example :
    extract_payload space loads (forged ++ (result_begin ++ real))
    ≡ loads (strip_space space (before_first result_end real))
unfolding after_last occurs starts_with
extract_payload_last_example = extract_payload_last space loads forged real refl refl

abbrev limits : SandboxLimits
limits = record {
  cpus = codes "1.0";
  memory_mb = 512;
  tmpfs_mb = 256;
  wall_clock_seconds = 60;
  pids = 256;
}

abbrev late : List Text → Ending
late args = Ending.timed_out 60000

abbrev late_run : Result VerificationResult × List (List Text)
late_run =
    run_container (codes "img") (codes "docker") limits plain space loads seconds late
      (codes "0123456789abcdef") (codes "/s") (codes "/p")

abbrev result_of : Result VerificationResult → VerificationResult
result_of (ok r) = r
result_of (err e) = record {
  verified = false;
  applied = false;
  built = false;
  tests_passed = false;
  exit_code = pos 0;
  stage = VerificationStage.apply;
  stdout_tail = [];
  stderr_tail = [];
  wall_clock = 0;
  killed_reason = none;
}

abbrev ends_well : List Text → Ending
ends_well args = Ending.exited (codes "log\n" ++ forged) [] (pos 0) 900

abbrev good_run : Result VerificationResult × List (List Text)
good_run =
    verify_snapshot (codes "img") (codes "docker") limits plain space loads seconds ends_well
      (codes "0123456789abcdef") (codes "/s") (codes "/p") true

good_run_ok : (good_run.0 ≡ ok (result_of good_run.0)) × ((result_of good_run.0).verified ≡ true)
unfolding verify_snapshot run_container conclude parse parse_found read_payload convert verdict
    killed stage_of extract_payload after_last before_first occurs starts_with strip_space text_eq
    lookup truthy text_of int_of str
good_run_ok = (refl, refl)

verify_snapshot_verified_example :
    (true ≡ true)
    × ((out : Text) × (error : Text) × (docker_rc : ℤ) × (wall : ℕ) × (payload : List (Text × Json))
        × (ends_well (
              docker_args
                (codes "img")
                (codes "docker")
                limits
                (codes "/s")
                (codes "/p")
                (codes "acp-sandbox-0123456789ab"))
            ≡ Ending.exited out error docker_rc wall)
        × (extract_payload space loads out ≡ some payload)
        × IsProven payload (result_of good_run.0))
verify_snapshot_verified_example =
    verify_snapshot_verified plain space loads seconds (codes "img") (codes "docker") limits
      ends_well (codes "0123456789abcdef") (codes "/s") (codes "/p") true (result_of good_run.0)
      good_run_ok.0 good_run_ok.1
