-- ===== src/Drift/Losses.antt =====
-- What the differ reports of a protection that a host has lost (differ.go).
use zero_agent_scan.Prelude.{
  ℕ, zero, suc, String, ◌≡◌, refl, ◌∙◌, ap, Bool, true, false, ◌&&◌, ◌||◌, Option, some, List, [],
  ◌∷◌, ◌++◌, map, arith, ◌==◌, eq_refl, get_elem?,
}
use Prim.Native.String.{◌++◌ as ◌+++◌}
use zero_agent_scan.Prelude.Int.{ℤ}
use zero_agent_scan.Drift.Events.{DriftEvent, severity_critical}
use zero_agent_scan.Drift.Snapshots.{HostSnapshot, FirewallProfile}
use zero_agent_scan.Drift.Differ.{Change, on_loss, bool_val, diff_firewall_profile}
use zero_agent_scan.Drift.Sections.{
  security_sections, platform_sections, inventory_sections, flatten, changes, events, same_hash,
  event_of, diff_snapshots,
}

-- The protections that the differ watches as flags.
pub data Protection : Type 0 where
  antivirus real_time tamper behavior_monitor lsa credential_guard : Protection
  domain_firewall private_firewall public_firewall : Protection
  secure_boot uefi tpm_present tpm_enabled : Protection

abbrev pub is_on : Protection → HostSnapshot → Bool
is_on antivirus s = bool_val s.security_baseline.defender.antivirus_enabled true
is_on real_time s = bool_val s.security_baseline.defender.real_time_protection_enabled true
is_on tamper s = bool_val s.security_baseline.defender.tamper_protection_enabled true
is_on behavior_monitor s = bool_val s.security_baseline.defender.behavior_monitor_enabled true
is_on lsa s = s.security_baseline.lsa_protection_enabled
is_on credential_guard s = s.security_baseline.credential_guard_running
is_on domain_firewall s = s.security_baseline.domain_profile.enabled
is_on private_firewall s = s.security_baseline.private_profile.enabled
is_on public_firewall s = s.security_baseline.public_profile.enabled
is_on secure_boot s = s.firmware_bios.secure_boot_enabled
is_on uefi s = s.firmware_bios.uefi_mode
is_on tpm_present s = s.tpm.present
is_on tpm_enabled s = bool_val s.tpm.is_enabled true

abbrev firewall_property : String → String
firewall_property name = "security_baseline.firewall_profiles." +++ (name +++ ".enabled")

abbrev pub property_of : Protection → String
property_of antivirus = "security_baseline.defender.antivirus_enabled"
property_of real_time = "security_baseline.defender.realtime_protection_enabled"
property_of tamper = "security_baseline.defender.tamper_protection_enabled"
property_of behavior_monitor = "security_baseline.defender.behavior_monitor_enabled"
property_of lsa = "security_baseline.lsa_protection_enabled"
property_of credential_guard = "security_baseline.credential_guard_running"
property_of domain_firewall = firewall_property "domain"
property_of private_firewall = firewall_property "private"
property_of public_firewall = firewall_property "public"
property_of secure_boot = "firmware_bios.secure_boot_enabled"
property_of uefi = "firmware_bios.uefi_mode"
property_of tpm_present = "tpm.present"
property_of tpm_enabled = "tpm.is_enabled"

-- A critical change of a property is among the changes.
abbrev pub has_critical : String → List Change → Bool
has_critical property [] = false
has_critical property (c ∷ cs) =
    c.property == property && c.severity == severity_critical || has_critical property cs

has_critical-left :
    (p : String) (xs ys : List Change) → has_critical p xs ≡ true → has_critical p (xs ++ ys) ≡ true
has_critical-left p [] ys h = absurd (ground (arith, h))
has_critical-left p (c ∷ xs) ys h = ground (arith, has_critical-left p xs ys)

has_critical-right :
    (p : String) (xs ys : List Change) → has_critical p ys ≡ true → has_critical p (xs ++ ys) ≡ true
has_critical-right p [] ys h = h
has_critical-right p (c ∷ xs) ys h = ground (arith, has_critical-right p xs ys h)

has_critical-flatten :
    (p : String) (ss : List (List Change)) (i : ℕ) (s : List Change)
    → get_elem? ss i ≡ some s
    → has_critical p s ≡ true
    → has_critical p (flatten ss) ≡ true
has_critical-flatten p [] i s e h = absurd (ground (arith, e))
has_critical-flatten p (t ∷ ss) zero s e h = has_critical-left p t (flatten ss) (ground arith)
has_critical-flatten p (t ∷ ss) (suc i) s e h =
    has_critical-right p t (flatten ss) (has_critical-flatten p ss i s (ground arith) h)

on_loss-lost :
    (c p : String) (prev next : Bool)
    → prev ≡ true
    → next ≡ false
    → has_critical p (on_loss severity_critical c p prev next) ≡ true
unfolding on_loss
on_loss-lost c p prev next on off = rw (on, off, eq_refl p) refl

diff_firewall_profile-lost :
    (name : String) (prev next : FirewallProfile)
    → prev.enabled ≡ true
    → next.enabled ≡ false
    → has_critical (firewall_property name) (diff_firewall_profile name prev next) ≡ true
unfolding diff_firewall_profile
diff_firewall_profile-lost name prev next on off =
    has_critical-left (firewall_property name) _ _
      (on_loss-lost "SecurityBaseline" (firewall_property name) prev.enabled next.enabled on off)

module _ (show_int : ℤ → String) (prev next : HostSnapshot) where
  abbrev security : List Change
  security = flatten (security_sections show_int prev next)

  abbrev platform : List Change
  platform = flatten (platform_sections show_int prev next)

  abbrev inventory : List Change
  inventory = flatten (inventory_sections show_int prev next)

  in_security :
      (p : String) (i : ℕ) (s : List Change)
      → get_elem? (security_sections show_int prev next) i ≡ some s
      → has_critical p s ≡ true
      → has_critical p (changes show_int prev next) ≡ true
  unfolding changes
  in_security p i s e h =
      has_critical-left p security (platform ++ inventory)
        (has_critical-flatten p (security_sections show_int prev next) i s e h)

  in_platform :
      (p : String) (i : ℕ) (s : List Change)
      → get_elem? (platform_sections show_int prev next) i ≡ some s
      → has_critical p s ≡ true
      → has_critical p (changes show_int prev next) ≡ true
  unfolding changes
  in_platform p i s e h = has_critical-right p security (platform ++ inventory) (
      has_critical-left p platform inventory
        (has_critical-flatten p (platform_sections show_int prev next) i s e h))

  lost_protection_critical :
      (k : Protection)
      → is_on k prev ≡ true
      → is_on k next ≡ false
      → has_critical (property_of k) (changes show_int prev next) ≡ true
  lost_protection_critical antivirus on off = in_security _ 2 _ refl (on_loss-lost _ _ _ _ on off)
  lost_protection_critical real_time on off = in_security _ 3 _ refl (on_loss-lost _ _ _ _ on off)
  lost_protection_critical tamper on off = in_security _ 4 _ refl (on_loss-lost _ _ _ _ on off)
  lost_protection_critical behavior_monitor on off =
      in_security _ 5 _ refl (on_loss-lost _ _ _ _ on off)
  lost_protection_critical lsa on off = in_security _ 7 _ refl (on_loss-lost _ _ _ _ on off)
  lost_protection_critical credential_guard on off =
      in_security _ 8 _ refl (on_loss-lost _ _ _ _ on off)
  lost_protection_critical domain_firewall on off =
      in_security _ 9 _ refl (diff_firewall_profile-lost "domain" _ _ on off)
  lost_protection_critical private_firewall on off =
      in_security _ 10 _ refl (diff_firewall_profile-lost "private" _ _ on off)
  lost_protection_critical public_firewall on off =
      in_security _ 11 _ refl (diff_firewall_profile-lost "public" _ _ on off)
  lost_protection_critical secure_boot on off = in_platform _ 0 _ refl (on_loss-lost _ _ _ _ on off)
  lost_protection_critical uefi on off = in_platform _ 1 _ refl (on_loss-lost _ _ _ _ on off)
  lost_protection_critical tpm_present on off = in_platform _ 3 _ refl (on_loss-lost _ _ _ _ on off)
  lost_protection_critical tpm_enabled on off = in_platform _ 4 _ refl (on_loss-lost _ _ _ _ on off)

abbrev pub reports_critical : String → List DriftEvent → Bool
reports_critical property [] = false
reports_critical property (e ∷ es) =
    e.property_name == property && e.severity == severity_critical || reports_critical property es

module _ (show_int : ℤ → String) (payload_hash : HostSnapshot → Option String)
    (new_id : Change → String) (now : ℤ) (tenant_id host_id hostname : String) where
  reports_critical-map :
      (p : String) (cs : List Change)
      → reports_critical p
          (map (event_of show_int payload_hash new_id now tenant_id host_id hostname) cs)
        ≡ has_critical p cs
  reports_critical-map p [] = refl
  reports_critical-map p (c ∷ cs) =
      ap (λ b. c.property == p && c.severity == severity_critical || b) (reports_critical-map p cs)

  -- A watched protection that was on and is off is reported by a critical event for its property,
  -- whatever else has changed, if the payloads of the two snapshots have different hashes.
  pub diff_snapshots-critical :
      (k : Protection) (prev next : HostSnapshot)
      → is_on k prev ≡ true
      → is_on k next ≡ false
      → same_hash (payload_hash next) (payload_hash prev) ≡ false
      → (es : List DriftEvent) × (diff_snapshots show_int payload_hash new_id now tenant_id host_id
            hostname
            (some next)
            (some prev)
          ≡ events es)
        × (reports_critical (property_of k) es ≡ true)
  unfolding diff_snapshots
  diff_snapshots-critical k prev next on off changed = (
    map (event_of show_int payload_hash new_id now tenant_id host_id hostname)
        (changes show_int prev next),
    rw changed refl,
    reports_critical-map (property_of k) (changes show_int prev next)
        ∙ lost_protection_critical show_int prev next k on off,
  )
