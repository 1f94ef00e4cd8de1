-- ===== src/Support/Preflight.antt =====
-- scripts/production_certification_preflight.py: the report before a release. What a command prints, an installed
-- version and the environment give are parameters.
use yasin_press_rewrite.Base.{
  ℕ, String, Bool, true, false, ◌&&◌, not, List, [], ◌∷◌, Option, none, some, all, map, ◌==◌,
  string_eq, nat_eq, if◌then◌else◌,
}

-- `shutil.which("sv")`, the output of a command, stripped, `len`, `startswith("run:")`, the version of a package, and
-- a variable of the environment, "" if it is not set.
pub record Host : Type 0 where
  pub which_sv : Option String
  pub command_output : List String → Option String
  pub length_of : String → ℕ
  pub says_run : String → Bool
  pub package_version : String → Option String
  pub getenv : String → String

pub record ServiceStatus : Type 0 where
  pub available : Bool
  pub running : Bool
  pub status : Option String

pub record PreflightReport : Type 0 where
  pub commit : Option String
  pub version : Option String
  pub credentials : List (String × Bool)
  pub services : List (String × ServiceStatus)
  pub ready_for_manual_operational_gate : Bool

abbrev secret_env_vars : List String
secret_env_vars = "YASINPRESS_SECRET_KEY" ∷ "YASINPRESS_EITAA_TOKEN" ∷ "OPENAI_API_KEY" ∷ []

abbrev service_names : List String
service_names = "hermes-agent" ∷ "yasin-ai" ∷ "yasinpress" ∷ "yasinrelay" ∷ []

module _ (host : Host) where
  unfoldable pub git_commit : Option String
  git_commit = elim (host.command_output ("git" ∷ "rev-parse" ∷ "HEAD" ∷ [])) [
    | none ↦ none
    | some value ↦ if host.length_of value == 40 then some value else none
  ]

  unfoldable pub service_status : String → ServiceStatus
  service_status service = elim host.which_sv [
    | none ↦ record { available = false; running = false; status = none }
    | some sv ↦ elim (host.command_output (sv ∷ "status" ∷ service ∷ [])) [
      | none ↦ record { available = true; running = false; status = none }
      | some output ↦ record {
        available = true;
        running = host.says_run output;
        status = some output;
      }
    ]
  ]

  abbrev is_text : Option String → Bool
  is_text none = false
  is_text (some s) = not (s == "")

  unfoldable pub build_report : Bool → PreflightReport
  unfolding git_commit service_status
  build_report check_services =
      let services : List (String × ServiceStatus) =
        if check_services then map (λ n. (n, service_status n)) service_names else [] in
      let version : Option String = host.package_version "yasinpress-rewrite" in
      record {
        commit = git_commit;
        version = version;
        credentials = map (λ n. (n, not (host.getenv n == ""))) secret_env_vars;
        services = services;
        ready_for_manual_operational_gate =
            (is_text git_commit && is_text version)
            && all (λ (s : String × ServiceStatus). s.1.running) services;
      }

  -- The exit code of main.
  unfoldable pub preflight_exit : Bool → ℕ
  unfolding build_report
  preflight_exit check_services =
      if (build_report check_services).ready_for_manual_operational_gate then 0 else 1
