-- ===== src/Sandbox/Docker.antt =====
-- `DockerSandboxRunner` of sandbox_client/docker_runner.py: the container that it starts, the verdict
-- that it reads from the container's output, and the removal of a container that did not end by itself.
-- The times are in milliseconds.
pub mod Payload
pub mod Verdict
use Payload.{Json, lookup, truthy, text_of, int_of, extract_payload}
use agentic_code_intelligenc.Prelude.{
  ℕ, ℤ, pos, negsuc, suc, ◌==◌, ◌*◌, Bool, true, false, not, ◌&&◌, ◌||◌, Option, none, some, List,
  [], ◌∷◌, ◌++◌, all, any, take, if◌then◌else◌, Text, codes, text_eq, str, occurs, is_some,
}
use agentic_code_intelligenc.Common.{Error, Result, ok, err}
use agentic_code_intelligenc.Sandbox.{VerificationStage, KilledReason, VerificationResult}

-- `cpus` is the text that `str` makes of the number.
pub record SandboxLimits : Type 0 where
  pub cpus : Text
  pub memory_mb : ℕ
  pub tmpfs_mb : ℕ
  pub wall_clock_seconds : ℕ
  pub pids : ℕ

-- What a started process comes to: there is no such program, the wait for it ran out of time, or it
-- ended with its two outputs and its return code.
pub data Ending : Type 0 where
  not_found : Ending
  timed_out : ℕ → Ending
  exited : Text → Text → ℤ → ℕ → Ending

abbrev pub int_eq : ℤ → ℤ → Bool
int_eq (pos a) (pos b) = a == b
int_eq (negsuc a) (negsuc b) = a == b
int_eq _ _ = false

-- `str(n)` of an integer
abbrev pub int_str : ℤ → Text
int_str (pos n) = str n
int_str (negsuc n) = b'-' ∷ str (suc n)

-- `_NETWORK_ERROR_MARKERS`
abbrev network_error_markers : List Text
network_error_markers =
    codes "Network is unreachable"
    ∷ codes "Temporary failure in name resolution"
    ∷ codes "Name or service not known"
    ∷ codes "Errno -3"
    ∷ codes "Errno -2"
    ∷ codes "Errno 101"
    ∷ codes "nodename nor servname provided"
    ∷ codes "Connection refused"
    ∷ codes "getaddrinfo"
    ∷ []

-- `VerificationStage(text)`
unfoldable pub stage_of : Text → Option VerificationStage
stage_of s =
    if text_eq s (codes "apply")
    then some VerificationStage.apply
    else if text_eq s (codes "build")
    then some VerificationStage.build
    else if text_eq s (codes "test")
    then some VerificationStage.test
    else if text_eq s (codes "done")
    then some VerificationStage.done
    else none

-- `payload.get(name, other)`
abbrev pub get_or : Text → Json → List (Text × Json) → Json
get_or name fallback payload = elim (lookup name payload) [ none ↦ fallback | some v ↦ v ]

abbrev pub flag : Text → List (Text × Json) → Bool
flag name payload = truthy (get_or name Json.null payload)

-- a conversion that raises ValueError where the value has not the form
unfoldable pub convert : {A B : Type 0} → Option A → (A → Result B) → Result B
convert none f = err Error.value_error
convert (some a) f = f a

-- `redact` is `redact_secrets`, `space` is `str.isspace`, `loads` is `json.loads` where it gives a
-- dictionary, and `seconds` reads the milliseconds of `float(str(value))`.
module _ (redact : Text → Text) (space : ℕ → Bool) (loads : Text → Option (List (Text × Json)))
    (seconds : Json → Option ℕ) where
  unfoldable pub infra_error : Text → ℕ → VerificationResult
  infra_error detail wall = record {
    verified = false;
    applied = false;
    built = false;
    tests_passed = false;
    exit_code = negsuc 0;
    stage = VerificationStage.apply;
    stdout_tail = [];
    stderr_tail = redact detail;
    wall_clock = wall;
    killed_reason = some KilledReason.error;
  }

  abbrev pub oom_kill : ℤ → ℕ → VerificationResult
  oom_kill docker_rc wall = record {
    verified = false;
    applied = false;
    built = false;
    tests_passed = false;
    exit_code = docker_rc;
    stage = VerificationStage.test;
    stdout_tail = [];
    stderr_tail = redact (codes "killed: container OOM (memory limit)");
    wall_clock = wall;
    killed_reason = some KilledReason.oom;
  }

  -- the text that the network markers are looked for in
  abbrev combined : Text → Text → Text
  combined stdout_tail stderr_tail = stdout_tail ++ (0xA ∷ stderr_tail)

  unfoldable pub killed : Bool → ℤ → Text → Option KilledReason
  unfolding occurs
  killed tests_passed exit_code text =
      if not tests_passed && any (λ m. occurs m text) network_error_markers
      then some KilledReason.network
      else if not tests_passed && int_eq exit_code (negsuc 8) && all space text
      then some KilledReason.oom
      else none

  -- the result of a payload whose texts were read
  unfoldable pub verdict : List (Text × Json) → ℤ → VerificationStage → ℕ → VerificationResult
  unfolding killed
  verdict payload exit_code stage run_wall =
      let stdout_tail = redact (text_of (get_or (codes "stdout_tail") (Json.text []) payload)) in
      let stderr_tail = redact (text_of (get_or (codes "stderr_tail") (Json.text []) payload)) in
      let applied = flag (codes "applied") payload in
      let built = flag (codes "built") payload in
      let tests_passed = flag (codes "tests_passed") payload in
      let reason = killed tests_passed exit_code (combined stdout_tail stderr_tail) in
      let verified = applied && built && tests_passed && not (is_some reason) in
      record {
        verified = verified;
        applied = applied;
        built = built;
        tests_passed = tests_passed;
        exit_code = exit_code;
        stage = if verified then VerificationStage.done else stage;
        stdout_tail = stdout_tail;
        stderr_tail = stderr_tail;
        wall_clock = run_wall;
        killed_reason = reason;
      }

  -- `float(str(payload.get("wall_clock_seconds", wall)))`
  abbrev wall_of : Option Json → ℕ → Option ℕ
  wall_of none wall = some wall
  wall_of (some v) wall = seconds v

  abbrev pub with_wall : List (Text × Json) → ℤ → VerificationStage → ℕ → Result VerificationResult
  with_wall payload exit_code stage run_wall = ok (verdict payload exit_code stage run_wall)

  abbrev pub with_stage : List (Text × Json) → ℕ → ℤ → VerificationStage → Result VerificationResult
  with_stage payload wall exit_code stage =
      convert (wall_of (lookup (codes "wall_clock_seconds") payload) wall)
        (with_wall payload exit_code stage)

  abbrev pub with_exit_code : List (Text × Json) → ℕ → ℤ → Result VerificationResult
  with_exit_code payload wall exit_code =
      convert (stage_of (text_of (get_or (codes "stage") (Json.text (codes "apply")) payload)))
        (with_stage payload wall exit_code)

  -- a payload that was found; a value that does not convert raises
  unfoldable pub read_payload : List (Text × Json) → ℕ → Result VerificationResult
  unfolding stage_of convert
  read_payload payload wall =
      convert (int_of (text_of (get_or (codes "exit_code") (Json.int (negsuc 0)) payload)))
        (with_exit_code payload wall)

  abbrev pub err_or_out : Text → Text → Text
  err_or_out [] out = out
  err_or_out (c ∷ s) out = c ∷ s

  abbrev pub no_payload_text : Text → Text → ℤ → Text
  no_payload_text out error docker_rc =
      codes "no result payload (docker rc="
      ++ (int_str docker_rc ++ (codes "): " ++ redact (take 2000 (err_or_out error out))))

  -- `_parse` behind the extraction
  unfoldable pub parse_found :
      Option (List (Text × Json)) → Text → Text → ℤ → ℕ → Result VerificationResult
  unfolding infra_error
  parse_found (some payload) out error docker_rc wall = read_payload payload wall
  parse_found none out error docker_rc wall =
      if int_eq docker_rc (pos 137) || int_eq docker_rc (negsuc 8)
      then ok (oom_kill docker_rc wall)
      else ok (infra_error (no_payload_text out error docker_rc) wall)

  unfoldable pub parse : Text → Text → ℤ → ℕ → Result VerificationResult
  parse out error docker_rc wall =
      parse_found (extract_payload space loads out) out error docker_rc wall

-- `image` and `docker_bin` are the constructor's.
module _ (image docker_bin : Text) (limits : SandboxLimits) where
  unfoldable pub docker_args : Text → Text → Text → List Text
  docker_args snapshot_dir patch_dir name =
      docker_bin
      ∷ codes "run"
      ∷ codes "--rm"
      ∷ codes "--name"
      ∷ name
      ∷ codes "--network"
      ∷ codes "none"
      ∷ codes "--cpus"
      ∷ limits.cpus
      ∷ codes "--memory"
      ∷ (str limits.memory_mb ++ codes "m")
      ∷ codes "--memory-swap"
      ∷ (str limits.memory_mb ++ codes "m")
      ∷ codes "--pids-limit"
      ∷ str limits.pids
      ∷ codes "--read-only"
      ∷ codes "--tmpfs"
      ∷ (codes "/work:rw,size=" ++ (str limits.tmpfs_mb ++ codes "m,mode=1777"))
      ∷ codes "--user"
      ∷ codes "10001:10001"
      ∷ codes "--cap-drop"
      ∷ codes "ALL"
      ∷ codes "--security-opt"
      ∷ codes "no-new-privileges"
      ∷ codes "--mount"
      ∷ (codes "type=bind,src=" ++ (snapshot_dir ++ codes ",dst=/snapshot,ro"))
      ∷ codes "--mount"
      ∷ (codes "type=bind,src=" ++ (patch_dir ++ codes ",dst=/patch,ro"))
      ∷ image
      ∷ []

  -- the commands of `_force_remove_container`; whatever they do, it goes on
  unfoldable pub force_remove_container : Text → List (List Text)
  force_remove_container name =
      (docker_bin ∷ codes "stop" ∷ codes "--time" ∷ codes "5" ∷ name ∷ [])
      ∷ (docker_bin ∷ codes "rm" ∷ codes "-f" ∷ name ∷ [])
      ∷ []

  module _ (redact : Text → Text) (space : ℕ → Bool) (loads : Text → Option (List (Text × Json)))
      (seconds : Json → Option ℕ) where
    abbrev deadline_kill : ℕ → VerificationResult
    deadline_kill wall = record {
      verified = false;
      applied = false;
      built = false;
      tests_passed = false;
      exit_code = negsuc 0;
      stage = VerificationStage.test;
      stdout_tail = [];
      stderr_tail = redact (
          codes "killed: wall-clock deadline of "
          ++ (str limits.wall_clock_seconds ++ codes "s exceeded"));
      wall_clock = wall;
      killed_reason = some KilledReason.deadline;
    }

    -- `result.killed_reason == KilledReason.ERROR`
    abbrev pub is_infra : Result VerificationResult → Bool
    is_infra (err e) = false
    is_infra (ok r) = elim r.killed_reason [
      | none ↦ false
      | some reason ↦ elim reason [ KilledReason.error ↦ true | _ ↦ false ]
    ]

    -- what the process came to, with the commands that were run for it
    unfoldable pub conclude :
        Text → List Text → Ending → Result VerificationResult × List (List Text)
    unfolding infra_error force_remove_container
    conclude name args not_found = (
      ok (infra_error redact space loads seconds (codes "docker binary not found on host") 0),
      args ∷ [],
    )
    conclude name args (timed_out wall) =
        (ok (deadline_kill wall), args ∷ force_remove_container name)
    conclude name args (exited out error docker_rc wall) =
        let result = parse redact space loads seconds out error docker_rc wall in
        (result, args ∷ (if is_infra result then force_remove_container name else []))

    -- `_run_container`: the result, and the commands that were run; `hex` is `uuid.uuid4().hex`, and
    -- `popen` what the started process comes to
    unfoldable pub run_container :
        (List Text → Ending) → Text → Text → Text → Result VerificationResult × List (List Text)
    unfolding docker_args conclude
    run_container popen hex snapshot_dir patch_dir =
        let name = codes "acp-sandbox-" ++ take 12 hex in
        let args = docker_args snapshot_dir patch_dir name in conclude name args (popen args)

    -- `verify_snapshot`: `is_dir` tells of the resolved directory; the envelope is written to the
    -- temporary `patch_dir`
    unfoldable pub verify_snapshot :
        (List Text → Ending)
        → Text
        → Text
        → Text
        → Bool
        → Result VerificationResult × List (List Text)
    unfolding run_container infra_error
    verify_snapshot popen hex snapshot_dir patch_dir is_dir =
        if is_dir then run_container popen hex snapshot_dir patch_dir else (
          ok (
              infra_error redact space loads seconds
                (codes "snapshot dir does not exist: " ++ snapshot_dir) 0),
          [],
        )
