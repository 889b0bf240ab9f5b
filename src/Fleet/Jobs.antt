-- ===== src/Fleet/Jobs.antt =====
-- Scan jobs, gateways and credentials of apps/api/internal/repository/repository.go, and
-- `CancelScanJob` of apps/api/internal/handlers/handlers.go. `GetScanJob` hands out the pointer that
-- the map holds, and the handler writes through it. The goroutine of the simulation and the
-- requests that come between its stages are a sequence of events. `time.Format` is a parameter.
pub mod Simulation
use Prim.Native.String.{◌++◌ as ◌+++◌}
use zero_agent_scan.Prelude.{
  ℕ, String, Bool, true, false, ◌||◌, Option, none, some, List, [], ◌∷◌, ◌++◌, if◌then◌else◌, Map,
  lookup, insert, values, ◌==◌,
}
use zero_agent_scan.Prelude.Int.{ℤ, pos}
use zero_agent_scan.Fleet.Records.{ScanJob, CollectorGateway, VaultCredentialSummary, Repository}

pub record CreateScanJobRequest : Type 0 where
  pub name : String
  pub target_cidr : String
  pub scan_profile : String
  pub protocol : String
  pub vault_secret_ref : String
  pub gateway_id : String

-- A stage of the simulation, without its delay.
pub record Stage : Type 0 where
  pub log : String
  pub scanned : ℕ
  pub compliant : ℕ
  pub failed : ℕ

abbrev pub mock_stages : String → String → List Stage
mock_stages target protocol =
    record {
      log =
          "[DISCOVERY] Initiating ICMP echo and ARP subnet sweep on "
          +++ (target +++ "... Discovered 8 responsive target hosts.");
      scanned = 2;
      compliant = 2;
      failed = 0;
    }
    ∷ record {
      log =
          "[HANDSHAKE] WinRM HTTPS (5986) TLS 1.2+ mutual handshake established with SPN HTTP/DEMO-WKS-001 using "
          +++ (protocol +++ ".");
      scanned = 4;
      compliant = 4;
      failed = 0;
    }
    ∷ record {
      log =
          "[HARDWARE] Querying Win32_ComputerSystem, Win32_Processor, Win32_PhysicalMemory, Win32_DiskDrive, Win32_BIOS... 16 Cores, 32GB RAM, TPM 2.0 active.";
      scanned = 6;
      compliant = 5;
      failed = 1;
    }
    ∷ record {
      log =
          "[SECURITY] Inspecting BitLocker (Win32_EncryptableVolume), Defender AV engine (v4.18.24040.4), Secure Boot (UEFI), and active Firewall profiles.";
      scanned = 7;
      compliant = 6;
      failed = 1;
    }
    ∷ record {
      log =
          "[INDEXING] Correlating installed applications (Win32_Product / Registry), hotfix packages (KB5034441), and NIST NVD / CISA KEV vulnerability feeds.";
      scanned = 8;
      compliant = 7;
      failed = 1;
    }
    ∷ record {
      log =
          "[COMMIT] JSONB telemetry snapshot stored to PostgreSQL (SHA-256 verified). Drift analysis & CIS Benchmark scoring complete. Scan job COMPLETED.";
      scanned = 8;
      compliant = 7;
      failed = 1;
    }
    ∷ []

-- Is the simulation started? The two environment variables that `CreateScanJob` reads.
abbrev pub is_mock : String → String → Bool
is_mock mode environment = mode == "true" || environment == "development" || environment == ""

module _ (format : ℤ → String) where
  abbrev stamped : ℤ → String → String
  stamped now line = "[" +++ (format now +++ ("] " +++ line))

  abbrev pub new_job : ℤ → String → CreateScanJobRequest → ScanJob
  new_job now id req = record {
    id = id;
    name = req.name;
    target_cidr = req.target_cidr;
    scan_profile = req.scan_profile;
    protocol = req.protocol;
    vault_secret_ref = req.vault_secret_ref;
    gateway_id = req.gateway_id;
    status = "running";
    total_hosts = 8;
    scanned_hosts = 0;
    compliant_hosts = 0;
    failed_hosts = 0;
    logs =
        stamped now (
          "[DISCOVERY] Scan job '"
          +++ (req.name
              +++ ("' queued for target "
                  +++ (req.target_cidr +++ (" using " +++ (req.protocol +++ " protocol"))))))
        ∷ stamped now ("[DISCOVERY] Dispatching task to Collector Gateway " +++ req.gateway_id)
        ∷ [];
    started_at = some now;
    completed_at = none;
    created_at = now;
  }

  abbrev pub staged : ℤ → Stage → ScanJob → ScanJob
  staged now s job = record job {
    logs = job.logs ++ stamped now s.log ∷ [];
    scanned_hosts = s.scanned;
    compliant_hosts = s.compliant;
    failed_hosts = s.failed;
  }

  -- The job after a stage, with the stages that are left: after the last one it is completed.
  abbrev pub advanced : ℤ → Stage → List Stage → ScanJob → ScanJob
  advanced now s [] job = record (staged now s job) {
    status = "completed";
    completed_at = some now;
  }
  advanced now s (next ∷ rest) job = staged now s job

module _ {P : Type 0} (format : ℤ → String) where
  unfoldable pub create_scan_job : ℤ → String → CreateScanJobRequest → Repository P → Repository P
  unfolding insert
  create_scan_job now id req r = record r { scans = insert id (new_job format now id req) r.scans }

  -- One round of the loop: no stage is left where the job is gone or cancelled.
  unfoldable pub simulate_found :
      ℤ → String → Stage → List Stage → Option ScanJob → Repository P → Repository P × List Stage
  unfolding insert
  simulate_found now id s rest none r = (r, [])
  simulate_found now id s rest (some job) r =
      if job.status == "cancelled"
      then (r, [])
      else (record r { scans = insert id (advanced format now s rest job) r.scans }, rest)

  unfoldable pub simulate_stage :
      ℤ → String → Stage → List Stage → Repository P → Repository P × List Stage
  unfolding lookup simulate_found
  simulate_stage now id s rest r = simulate_found now id s rest (lookup id r.scans) r

abbrev pub cancelled : ℤ → ScanJob → ScanJob
cancelled now job = record job { status = "cancelled"; completed_at = some now }

-- The loop stops at the first gateway with the code.
unfoldable pub heartbeat_loop : ℤ → String → ℤ → Map CollectorGateway → Map CollectorGateway
heartbeat_loop now code latency [] = []
heartbeat_loop now code latency ((key, gw) ∷ gws) =
    let rest = heartbeat_loop now code latency gws in
    if gw.gateway_code == code
    then (key, record gw { last_heartbeat_at = now; latency_ms = latency; status = "healthy" })
      ∷ gws
    else (key, gw) ∷ rest

module _ {P : Type 0} where
  unfoldable pub get_scan_job : String → Repository P → Option ScanJob
  unfolding lookup
  get_scan_job id r = lookup id r.scans

  abbrev cancel_found : ℤ → String → Option ScanJob → Repository P → Repository P × Bool
  unfolding insert
  cancel_found now id none r = (r, false)
  cancel_found now id (some job) r =
      (record r { scans = insert id (cancelled now job) r.scans }, true)

  -- The test is false where the handler answers 404.
  unfoldable pub cancel_scan_job : ℤ → String → Repository P → Repository P × Bool
  unfolding get_scan_job cancel_found
  cancel_scan_job now id r = cancel_found now id (get_scan_job id r) r

  abbrev pub list_scan_jobs : Repository P → List ScanJob
  list_scan_jobs r = values r.scans

  unfoldable pub add_gateway : CollectorGateway → Repository P → Repository P
  unfolding insert
  add_gateway gw r = record r { gateways = insert gw.id gw r.gateways }

  unfoldable pub update_gateway_heartbeat : ℤ → String → ℤ → Repository P → Repository P
  unfolding heartbeat_loop
  update_gateway_heartbeat now code latency r = record r {
    gateways = heartbeat_loop now code latency r.gateways;
  }

  unfoldable pub add_vault_credential : VaultCredentialSummary → Repository P → Repository P
  unfolding insert
  add_vault_credential summary r = record r {
    credentials = insert summary.opaque_id summary r.credentials;
  }

  abbrev pub list_gateways : Repository P → List CollectorGateway
  list_gateways r = values r.gateways

  abbrev pub list_vault_credentials : Repository P → List VaultCredentialSummary
  list_vault_credentials r = values r.credentials
