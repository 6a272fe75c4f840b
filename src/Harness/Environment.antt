-- ===== src/Harness/Environment.antt =====
-- crates/stratamoto/src/transport.rs: the deployment and its links, and crates/stratamoto/src/roles. What a
-- role, its socket and the clock do is not code of the repository, or is not under the harness's
-- control, so that a deployment is a parameter: E is all that lies outside, L is a link.
use stratamoto.Base.{ℕ, ◌≤◌, ◌<◌, ◌≡◌, Bool, List, Option, ◌⊎◌, inr}
use stratamoto.Ir.Variable.{Protocol, mining, job_declaration, template_distribution}
use stratamoto.Harness.Errors.{Error}
use stratamoto.Harness.Frames.{Frame}

-- the wire library's protocols
pub data RoleProtocol : Type 0 where
  mining_protocol job_declaration_protocol template_distribution_protocol : RoleProtocol

unfoldable pub protocol_of : Protocol → RoleProtocol
protocol_of mining = mining_protocol
protocol_of job_declaration = job_declaration_protocol
protocol_of template_distribution = template_distribution_protocol

pub record RoleConfig : Type 0 where
  pub protocol : RoleProtocol
  pub min_version : ℕ
  pub max_version : ℕ
  pub supported_flags : ℕ

-- `RoleConfig::new`
abbrev pub new_role_config : RoleProtocol → RoleConfig
new_role_config protocol = record {
  protocol = protocol;
  min_version = 2;
  max_version = 2;
  supported_flags = 0;
}

unfoldable pub with_versions : ℕ → ℕ → RoleConfig → RoleConfig
with_versions min max c = record c { min_version = min; max_version = max }

unfoldable pub with_supported_flags : ℕ → RoleConfig → RoleConfig
with_supported_flags flags c = record c { supported_flags = flags }

-- The traits `Deployment` and `Transport`, with `Instant::now`; times are in milliseconds.
pub record Deployment (E L : Type 0) : Type 0 where
  -- the connection and the role
  pub connect : ℕ → ℕ → E → Option L × E
  pub role_config : ℕ → Option RoleConfig
  pub num_roles : ℕ
  pub advance_time : ℕ → E → E
  pub is_alive : E → Bool
  -- the extension type, the message type, the channel bit and the payload
  pub send : L → ℕ → ℕ → Bool → List ℕ → E → (Error ⊎ Unit {0}) × E
  -- the timeout
  pub recv : L → ℕ → E → (Error ⊎ Frame) × E
  pub now : E → ℕ × E

-- What the runner needs of it, to end: only finitely many frames arrive, of which each that is
-- received is one, and reading the clock brings no more.
pub record DeploymentLaws {E L : Type 0} (D : Deployment E L) : Type 0 where
  pub to_come : E → ℕ
  pub recv_takes :
      (l : L) (wait : ℕ) (e e' : E) (f : Frame)
      → D.recv l wait e ≡ (inr f, e')
      → to_come e' < to_come e
  pub now_keeps : (e : E) → to_come (D.now e).1 ≤ to_come e
