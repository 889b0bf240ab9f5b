-- ===== src/Vulnscan/Paired.antt =====
-- The findings of a scan beside the CVEs that it has seen (engine.go): each is what the upsert of a
-- finding of that CVE has returned.
use zero_agent_scan.Prelude.{
  String, ◌≡◌, refl, none, some, Option, List, [], ◌∷◌, ◌++◌, ◌||◌, ◌==◌, if_both, length, ℕ, Bool,
  arith,
}
use zero_agent_scan.Prelude.Text.{to_upper}
use zero_agent_scan.Prelude.Int.{ℤ}
use zero_agent_scan.Vulnscan.Ranges.{Cpe23}
use zero_agent_scan.Vulnscan.Findings.{
  Finding, FindingStore, UpsertError, Upserted, upserted, failed, upsert_finding,
}
use zero_agent_scan.Vulnscan.Feeds.{CachedCve, Feeds, get_cached_cves, get_kev_item}
use zero_agent_scan.Vulnscan.Engine.{
  ScanCall, Scan, finding_of, matched_criteria, has_seen, record_result, scan_cve, step, scan_cves,
  scan_hosts, begin,
}

-- A finding for each CVE that has been seen, in the order of the scan: the latest stands first among
-- the IDs and last among the findings.
pub data Paired (R : String → Finding → Type 0) : List String → List Finding → Type 0 where
  none_yet : Paired R [] []
  one_more :
      {seen : List String} {detected : List Finding} (id : String) (f : Finding)
      → Paired R seen detected
      → R id f
      → Paired R (id ∷ seen) (detected ++ f ∷ [])

module _ (R : String → Finding → Type 0) (call : ScanCall) (zero_time : ℤ) (feeds : Feeds)
    (holds : (host : Cpe23) (cve : CachedCve) (n : ℕ) (st : FindingStore) (f : Finding) (b : Bool)
      → (upsert_finding
          (call.clock n)
          (call.fresh n)
          (some (
            finding_of call host cve
              (matched_criteria host cve.cpe_matches)
              zero_time
              (get_kev_item (to_upper cve.cve_id) feeds)))
          st).1
        ≡ upserted f b
      → R (to_upper cve.cve_id) f) where
  IsPaired : Scan → Type 0
  IsPaired s = s.error ≡ none → Paired R s.seen s.detected

  record_result-IsPaired :
      (id : String) (st : FindingStore) (r : Upserted) (s : Scan)
      → ((f : Finding) (b : Bool) → r ≡ upserted f b → R id f)
      → s.error ≡ none
      → IsPaired s
      → IsPaired (record_result id (st, r) s)
  unfolding IsPaired
  record_result-IsPaired id st (upserted f b) s ok e p h = Paired.one_more id f (p e) (ok f b refl)
  record_result-IsPaired id st (failed x) s ok e p h = absurd (ground arith)

  scan_cve-IsPaired :
      (host : Cpe23) (cve : CachedCve) (s : Scan)
      → s.error ≡ none
      → IsPaired s
      → IsPaired (scan_cve call zero_time feeds host cve s)
  unfolding scan_cve
  scan_cve-IsPaired host cve s e p =
      let id = to_upper cve.cve_id in
      let criteria = matched_criteria host cve.cpe_matches in
      let f = finding_of call host cve criteria zero_time (get_kev_item id feeds) in
      let n = length s.detected in
      let (st', r) = upsert_finding (call.clock n) (call.fresh n) (some f) s.store in
      if_both IsPaired (cve.cve_id == "" || has_seen id s.seen || criteria == "") {x = s}
        {y = record_result id (st', r) s} p
        (record_result-IsPaired id st' r s (λ g b eq. holds host cve n s.store g b eq) e p)

  step-IsPaired :
      (host : Cpe23) (cve : CachedCve) (o : Option UpsertError) (s : Scan)
      → s.error ≡ o
      → IsPaired s
      → IsPaired (step call zero_time feeds host cve o s)
  unfolding step
  step-IsPaired host cve none s e p = scan_cve-IsPaired host cve s e p
  step-IsPaired host cve (some x) s e p = p

  scan_cves-IsPaired :
      (host : Cpe23) (cves : List CachedCve) (s : Scan)
      → IsPaired s
      → IsPaired (scan_cves call zero_time feeds host cves s)
  unfolding scan_cves
  scan_cves-IsPaired host [] s p = p
  scan_cves-IsPaired host (cve ∷ cves) s p =
      scan_cves-IsPaired host cves (step call zero_time feeds host cve s.error s)
        (step-IsPaired host cve s.error s refl p)

  scan_hosts-IsPaired :
      (hosts : List Cpe23) (s : Scan)
      → IsPaired s
      → IsPaired (scan_hosts call zero_time feeds hosts s)
  unfolding scan_hosts
  scan_hosts-IsPaired [] s p = p
  scan_hosts-IsPaired (host ∷ hosts) s p =
      scan_hosts-IsPaired hosts (scan_cves call zero_time feeds host (get_cached_cves feeds) s)
        (scan_cves-IsPaired host (get_cached_cves feeds) s p)

  -- A scan that ends without an error pairs its findings with the CVEs seen.
  pub scan_hosts-Paired :
      (hosts : List Cpe23) (st : FindingStore)
      → (scan_hosts call zero_time feeds hosts (begin st)).error ≡ none
      → Paired R
          (scan_hosts call zero_time feeds hosts (begin st)).seen
          (scan_hosts call zero_time feeds hosts (begin st)).detected
  unfolding IsPaired
  scan_hosts-Paired hosts st e = scan_hosts-IsPaired hosts (begin st) (λ h. Paired.none_yet) e
