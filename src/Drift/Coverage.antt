-- ===== src/Drift/Coverage.antt =====
-- What the differ reports (differ.go): nothing without a change, and every lost protection.
use zero_agent_scan.Prelude.{
  ℕ, String, ◌≡◌, refl, ◌∙◌, ap, Bool, true, false, not, ◌&&◌, ◌||◌, eqb, Option, some, List, [],
  ◌∷◌, map, arith, ◌==◌, eq_iff, eq_refl, if_both,
}
use zero_agent_scan.Prelude.Int.{ℤ, pos, negsuc}
use zero_agent_scan.Drift.Events.{Severity, severity_critical}
use zero_agent_scan.Drift.Snapshots.{FirewallProfile, HostSnapshot}
use zero_agent_scan.Drift.Differ.{
  Change, differs, on_loss, on_gain, eq_ℤ, on_new_text, diff_firewall_profile, on_status, listed,
  missing_from, sort_insert, sort_strings, diff_string_slices, admins_changed,
  extract_nic_descriptions, extract_app_names, nics_changed, apps_installed, apps_uninstalled,
}
use zero_agent_scan.Drift.Sections.{
  bit_locker_changed, on_quantity, security_sections, platform_sections, inventory_sections,
  flatten, changes, events, same_hash, event_of, diff_snapshots,
}

listed-sort_insert :
    (s t : String) (l : List String) → listed s (sort_insert t l) ≡ (t == s || listed s l)
listed-sort_insert s t [] = refl
listed-sort_insert s t (u ∷ l) = ground (arith, listed-sort_insert s t l)

listed-sort_strings : (s : String) (l : List String) → listed s (sort_strings l) ≡ listed s l
listed-sort_strings s [] = refl
listed-sort_strings s (t ∷ l) =
    listed-sort_insert s t (sort_strings l) ∙ ap (λ b. t == s || b) (listed-sort_strings s l)

listed-missing_from :
    (s : String) (known l : List String)
    → listed s (missing_from known l) ≡ (listed s l && not (listed s known))
listed-missing_from s known [] = refl
listed-missing_from s known (t ∷ l) = ground (arith, listed-missing_from s known l, eq_iff t s)

-- Of two lists, the first result has exactly the entries of the second list that the first lacks,
-- and the second result those of the first that the second lacks.
pub diff_string_slices_lem :
    (s : String) (old_list new_list : List String)
    → (listed s (diff_string_slices old_list new_list).0
        ≡ (listed s new_list && not (listed s old_list)))
      × (listed s (diff_string_slices old_list new_list).1
          ≡ (listed s old_list && not (listed s new_list)))
unfolding diff_string_slices
diff_string_slices_lem s old_list new_list = (
  listed-sort_strings s (missing_from old_list new_list) ∙ listed-missing_from s old_list new_list,
  listed-sort_strings s (missing_from new_list old_list) ∙ listed-missing_from s new_list old_list,
)

abbrev each_listed : List String → List String → Bool
each_listed [] known = true
each_listed (s ∷ l) known = listed s known && each_listed l known

missing_from-none : (l known : List String) → each_listed l known ≡ true → missing_from known l ≡ []
missing_from-none [] known h = refl
missing_from-none (s ∷ l) known h = ground (arith, missing_from-none l known)

each_listed-cons :
    (s : String) (l known : List String)
    → each_listed l known ≡ true
    → each_listed l (s ∷ known) ≡ true
each_listed-cons s [] known h = refl
each_listed-cons s (t ∷ l) known h = ground (arith, each_listed-cons s l known)

each_listed_self : (l : List String) → each_listed l l ≡ true
each_listed_self [] = refl
each_listed_self (s ∷ l) = ground (arith, each_listed-cons s l l (each_listed_self l), eq_refl s)

diff_string_slices-same : (l : List String) → diff_string_slices l l ≡ ([], [])
unfolding diff_string_slices
diff_string_slices-same l = rw (missing_from-none l l (each_listed_self l)) refl

differs-same : (b : Bool) → differs b b ≡ false
differs-same true = refl
differs-same false = refl

on_loss-same : (worst : Severity) (c p : String) (b : Bool) → on_loss worst c p b b ≡ []
unfolding on_loss
on_loss-same worst c p true = refl
on_loss-same worst c p false = refl

on_gain-same : (c p : String) (b : Bool) → on_gain c p b b ≡ []
unfolding on_gain
on_gain-same c p true = refl
on_gain-same c p false = refl

on_new_text-same :
    (c p : String) (severity : Severity) (s : String) → on_new_text c p severity s s ≡ []
unfolding on_new_text
on_new_text-same c p severity s = rw (eq_refl s) refl

on_status-same : (word p s : String) → on_status word p s s ≡ []
unfolding on_status
on_status-same word p s = rw (eq_refl s) refl

eqb-same : (n : ℕ) → eqb n n ≡ true
eqb-same n = ground arith

eq_ℤ-same : (n : ℤ) → eq_ℤ n n ≡ true
eq_ℤ-same (pos n) = eqb-same n
eq_ℤ-same (negsuc n) = eqb-same n

diff_firewall_profile-same :
    (name : String) (p : FirewallProfile) → diff_firewall_profile name p p ≡ []
unfolding diff_firewall_profile
diff_firewall_profile-same name p =
    rw (on_loss-same severity_critical "SecurityBaseline" _ p.enabled)
      (on_new_text-same "SecurityBaseline" _ _ p.default_inbound)

abbrev AllEmpty : List (List Change) → Type 0
AllEmpty [] = Unit
AllEmpty (s ∷ ss) = (s ≡ []) × AllEmpty ss

flatten-empty : (ss : List (List Change)) → AllEmpty ss → flatten ss ≡ []
flatten-empty [] h = refl
flatten-empty (s ∷ ss) (h, hs) = rw h (flatten-empty ss hs)

module _ (show_int : ℤ → String) where
  bit_locker_changed-same : (n : ℤ) → bit_locker_changed show_int n n ≡ []
  unfolding bit_locker_changed
  bit_locker_changed-same n = rw (eq_ℤ-same n) refl

  on_quantity-same : (p : String) (n : ℕ) → on_quantity show_int p n n ≡ []
  unfolding on_quantity
  on_quantity-same p n = rw (eqb-same n) refl

  security-same : (s : HostSnapshot) → AllEmpty (security_sections show_int s s)
  security-same s =
      let loss = on_loss-same severity_critical "SecurityBaseline" in
      (
        bit_locker_changed-same _,
        (
          on_new_text-same _ _ _ _,
          (
            loss _ _,
            (
              loss _ _,
              (
                loss _ _,
                (
                  loss _ _,
                  (
                    on_gain-same _ _ _,
                    (
                      loss _ _,
                      (
                        loss _ _,
                        (
                          diff_firewall_profile-same _ _,
                          (diff_firewall_profile-same _ _, (diff_firewall_profile-same _ _, tt)),
                        ),
                      ),
                    ),
                  ),
                ),
              ),
            ),
          ),
        ),
      )

  platform-same : (s : HostSnapshot) → AllEmpty (platform_sections show_int s s)
  platform-same s = (
    on_loss-same _ _ _ _,
    (
      on_loss-same _ _ _ _,
      (
        on_new_text-same _ _ _ _,
        (
          on_loss-same _ _ _ _,
          (on_loss-same _ _ _ _, (on_status-same _ _ _, (on_status-same _ _ _, tt))),
        ),
      ),
    ),
  )

  inventory-same : (s : HostSnapshot) → AllEmpty (inventory_sections show_int s s)
  inventory-same s =
      let admins = s.user_access.local_administrators in
      let nics = extract_nic_descriptions s.adapters in
      let apps = diff_string_slices-same (extract_app_names s.applications) in
      (
        ap (admins_changed admins admins) (diff_string_slices-same admins),
        (
          on_loss-same _ _ _ _,
          (
            on_quantity-same _ _,
            (
              on_quantity-same _ _,
              (
                ap (λ d. nics_changed nics nics d.0) (diff_string_slices-same nics),
                (ap (λ d. apps_installed d.0) apps, (ap (λ d. apps_uninstalled d.1) apps, tt)),
              ),
            ),
          ),
        ),
      )

  -- A snapshot compared to itself has no drift, whatever its hash.
  pub diff_snapshots-same :
      (payload_hash : HostSnapshot → Option String) (new_id : Change → String) (now : ℤ)
      (tenant_id host_id hostname : String) (s : HostSnapshot)
      → diff_snapshots show_int payload_hash new_id now tenant_id host_id hostname (some s) (some s)
        ≡ events []
  unfolding diff_snapshots changes
  diff_snapshots-same payload_hash new_id now tenant_id host_id hostname s =
      let none_changed : changes show_int s s ≡ [] =
        rw (flatten-empty (security_sections show_int s s) (security-same s)) (
          rw (flatten-empty (platform_sections show_int s s) (platform-same s))
            (flatten-empty (inventory_sections show_int s s) (inventory-same s))) in
      if_both (λ r. r ≡ events []) (same_hash (payload_hash s) (payload_hash s)) refl
        (ap
          (λ cs.
            events (map (event_of show_int payload_hash new_id now tenant_id host_id hostname) cs))
          none_changed)
