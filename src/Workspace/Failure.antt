-- ===== src/Workspace/Failure.antt =====
-- pkg/manager/workspace/controller.go: how an error becomes the persisted error of a workspace.
use ana.Base.{
  ℕ, ◌≡◌, ◌||◌, ◌++◌, Bool, true, false, Option, none, some, [], Text, codes, ite, Text-discrete,
  ◌==◌, if◌then◌else◌, Bool-cases, ◌⊎◌, inl, inr,
}
use ana.Workspace.{WorkspaceError}

-- The sentinels that the code looks for with `errors.Is`.
pub data Sentinel : Type 0 where
  install_timeout plugin_not_found storage_not_found plugin_hash_mismatch : Sentinel
  infra_type_unknown agent_type_unknown canceled deadline_exceeded : Sentinel

-- An error: its message, and which sentinels its chain holds.
pub record GoError : Type 0 where
  pub message : Text
  pub is : Sentinel → Bool

unfoldable pub Sentinel-discrete : Discrete Sentinel
Sentinel-discrete = hlevel

-- `fmt.Errorf("%w: …", sentinel, …)`, with the text that the verbs produce
unfoldable pub wrap : Sentinel → Text → GoError
unfolding Sentinel-discrete
wrap s message = record { message = message; is = λ t. ite (Sentinel-discrete s t) true false }

unfoldable pub failure_code : Text → GoError → Text
failure_code phase e =
    if e.is install_timeout
    then codes "install.timeout"
    else if e.is plugin_not_found || e.is storage_not_found
    then phase ++ codes ".plugin_not_found"
    else if e.is plugin_hash_mismatch
    then phase ++ codes ".plugin_hash_mismatch"
    else if e.is infra_type_unknown
    then phase ++ codes ".infra_type_unknown"
    else if e.is agent_type_unknown
    then phase ++ codes ".agent_type_unknown"
    else phase ++ codes ".error"

unfoldable pub failure_from_error : ℕ → Text → GoError → WorkspaceError
unfolding failure_code
failure_from_error now phase e = record {
  code = failure_code phase e;
  message = e.message;
  phase = phase;
  recorded_at = now;
}

unfoldable pub failure_for_shutdown : ℕ → WorkspaceError
failure_for_shutdown now = record {
  code = codes "shutdown";
  message = codes "controller stopped";
  phase = codes "install";
  recorded_at = now;
}

-- `agent.ProbeResult`; the latency and the detail are not read here
pub record ProbeResult : Type 0 where
  pub healthy : Bool
  pub error : Option WorkspaceError

-- `if s == "" { s = d }`
abbrev pub or_default : Text → Text → Text
or_default s d = ite (Text-discrete s []) d s

unfoldable pub failure_from_probe_result : ℕ → ProbeResult → WorkspaceError
failure_from_probe_result now result = elim result.error [
  | none ↦ record {
    code = codes "probe.unhealthy";
    message = codes "probe reported unhealthy";
    phase = codes "probe";
    recorded_at = now;
  }
  | some e ↦ record {
    code = or_default e.code (codes "probe.unhealthy");
    message = or_default e.message (codes "probe reported unhealthy");
    phase = or_default e.phase (codes "probe");
    recorded_at = if e.recorded_at == 0 then now else e.recorded_at;
  }
]

-- `ctx.Err()`
pub data ContextState : Type 0 where
  live cancelled expired : ContextState

abbrev pub is_expired : ContextState → Bool
is_expired expired = true
is_expired _ = false

abbrev pub is_cancelled : ContextState → Bool
is_cancelled cancelled = true
is_cancelled _ = false

-- `fmt.Errorf("%w: %v", ErrInstallTimeout, err)`: the chain of `err` is cut off
abbrev timeout_of : GoError → GoError
timeout_of e = wrap install_timeout (codes "workspace: install timeout: " ++ e.message)

unfoldable pub classify_failure : ℕ → ContextState → Text → GoError → WorkspaceError
unfolding failure_from_error failure_for_shutdown wrap
classify_failure now ctx phase e =
    if is_expired ctx || e.is deadline_exceeded
    then failure_from_error now phase (timeout_of e)
    else if is_cancelled ctx || e.is canceled
    then failure_for_shutdown now
    else failure_from_error now phase e

-- A failure is reported as a timeout, with the code `install.timeout` in every phase, if its context has
-- expired or its error says so; as a shutdown if its context was cancelled or its error says so, and
-- neither expired; and otherwise with the message of the error, in the phase where it came up.
pub classify_failure_lem :
    (now : ℕ) (ctx : ContextState) (phase : Text) (e : GoError)
    → ((is_expired ctx || e.is deadline_exceeded ≡ true)
        × ((classify_failure now ctx phase e).code ≡ codes "install.timeout")
        × ((classify_failure now ctx phase e).phase ≡ phase))
      ⊎ ((is_expired ctx || e.is deadline_exceeded ≡ false)
          × (is_cancelled ctx || e.is canceled ≡ true)
          × ((classify_failure now ctx phase e).code ≡ codes "shutdown"))
      ⊎ ((is_expired ctx || e.is deadline_exceeded ≡ false)
          × (is_cancelled ctx || e.is canceled ≡ false)
          × ((classify_failure now ctx phase e).code ≡ failure_code phase e)
          × ((classify_failure now ctx phase e).message ≡ e.message)
          × ((classify_failure now ctx phase e).phase ≡ phase))
unfolding classify_failure failure_code
classify_failure_lem now ctx phase e =
    elim (Bool-cases (is_expired ctx || e.is deadline_exceeded)) [
      | inl late ↦ inl (late, rw (classify_failure, late), rw (classify_failure, late))
      | inr timely ↦ elim (Bool-cases (is_cancelled ctx || e.is canceled)) [
        | inl stopped ↦ inr (inl (timely, stopped, rw (classify_failure, timely, stopped)))
        | inr running ↦ inr (
            inr (
              timely,
              running,
              rw (classify_failure, timely, running),
              rw (classify_failure, timely, running),
              rw (classify_failure, timely, running),
            ))
      ]
    ]
