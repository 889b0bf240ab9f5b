-- ===== src/Vulnscan/Flags.antt =====
-- The findings of a scan that are in the catalog of exploited vulnerabilities (engine.go).
use mathlib.Core.Path.{subst}
use zero_agent_scan.Prelude.{
  true, ℕ, String, ◌≡◌, ◌⊎◌, inl, inr, false, Option, none, some, List, refl,
}
use zero_agent_scan.Prelude.Text.{to_upper}
use zero_agent_scan.Prelude.Int.{ℤ}
use zero_agent_scan.Vulnscan.Ranges.{Cpe23}
use zero_agent_scan.Vulnscan.Findings.{
  Finding, FindingStore, UpsertError, Upserted, upserted, failed, upsert_finding, upsert_checked,
  upsert_found, upsert_at, created, updated, missing,
}
use zero_agent_scan.Vulnscan.Feeds.{CachedCve, CisaKevItem, Feeds, get_kev_item}
use zero_agent_scan.Vulnscan.Engine.{ScanCall, finding_of, matched_criteria, scan_hosts, begin}
use zero_agent_scan.Vulnscan.Paired.{Paired, scan_hosts-Paired}

-- A finding of the CVE `id`: it is open, and either the catalog has no entry for the CVE and the
-- finding is not marked, or it has one and the finding is marked and critical.
abbrev pub Flagged : Feeds → String → Finding → Type 0
Flagged feeds id f =
    (f.status ≡ "OPEN")
    × (((get_kev_item id feeds ≡ none) × (f.is_kev ≡ false))
        ⊎ ((item : CisaKevItem) × (get_kev_item id feeds ≡ some item)
            × (f.is_kev ≡ true)
            × (f.severity ≡ "CRITICAL")))

module _ (feeds : Feeds) (id : String) where
  abbrev FlaggedResult : Upserted → Type 0
  FlaggedResult (upserted f b) = Flagged feeds id f
  FlaggedResult (failed e) = Unit

  created-Flagged :
      (now : ℤ) (fresh : String) (f : Finding)
      → Flagged feeds id f
      → Flagged feeds id (created now fresh f)
  unfolding created
  created-Flagged now fresh f h = (rw h.0 refl, h.1)

  upsert_at-Flagged :
      (now : ℤ) (f : Finding) (a : ℕ) (o : Option Finding) (st : FindingStore)
      → Flagged feeds id f
      → FlaggedResult (upsert_at now f a o st).1
  unfolding upsert_at updated
  upsert_at-Flagged now f a none st h = tt
  upsert_at-Flagged now f a (some old) st h = (refl, h.1)

  upsert_found-Flagged :
      (now : ℤ) (fresh : String) (f : Finding) (o : Option ℕ) (st : FindingStore)
      → Flagged feeds id f
      → FlaggedResult (upsert_found now fresh f o st).1
  unfolding upsert_found
  upsert_found-Flagged now fresh f none st h = created-Flagged now fresh f h
  upsert_found-Flagged now fresh f (some a) st h = upsert_at-Flagged now f a _ st h

  upsert_checked-Flagged :
      (now : ℤ) (fresh : String) (f : Finding) (o : Option UpsertError) (st : FindingStore)
      → Flagged feeds id f
      → FlaggedResult (upsert_checked now fresh f o st).1
  upsert_checked-Flagged now fresh f none st h = upsert_found-Flagged now fresh f _ st h
  upsert_checked-Flagged now fresh f (some e) st h = tt

  upsert_finding-Flagged :
      (now : ℤ) (fresh : String) (f : Finding) (st : FindingStore)
      → Flagged feeds id f
      → FlaggedResult (upsert_finding now fresh (some f) st).1
  unfolding upsert_finding
  upsert_finding-Flagged now fresh f st h = upsert_checked-Flagged now fresh f (missing f) st h

  finding_of-Flagged :
      (call : ScanCall) (host : Cpe23) (cve : CachedCve) (criteria : String) (zero_time : ℤ)
      (o : Option CisaKevItem)
      → get_kev_item id feeds ≡ o
      → Flagged feeds id (finding_of call host cve criteria zero_time o)
  unfolding finding_of
  finding_of-Flagged call host cve criteria zero_time none e = (refl, inl (e, refl))
  finding_of-Flagged call host cve criteria zero_time (some item) e =
      (refl, inr (item, e, refl, refl))

-- In a scan that ends without an error, from any store of findings, the finding of each CVE that has
-- been seen is open; it is marked as exploited and critical where the catalog has an entry for the
-- CVE, and not marked where it has none, whatever was stored and however CVEs are scored.
pub scan_hosts-Flagged :
    (call : ScanCall) (zero_time : ℤ) (feeds : Feeds) (hosts : List Cpe23) (st : FindingStore)
    → (scan_hosts call zero_time feeds hosts (begin st)).error ≡ none
    → Paired
        (Flagged feeds)
        (scan_hosts call zero_time feeds hosts (begin st)).seen
        (scan_hosts call zero_time feeds hosts (begin st)).detected
scan_hosts-Flagged call zero_time feeds hosts st e =
    scan_hosts-Paired (Flagged feeds) call zero_time feeds
      (λ host cve n st f b is_result.
        let id = to_upper cve.cve_id in
        let criteria = matched_criteria host cve.cpe_matches in
        let g = finding_of call host cve criteria zero_time (get_kev_item id feeds) in
        subst (FlaggedResult feeds id) is_result (
          upsert_finding-Flagged feeds id (call.clock n) (call.fresh n) g st (
            finding_of-Flagged feeds id call host cve criteria zero_time (get_kev_item id feeds)
              refl)))
      hosts st e
