-- ===== src/Workbook/Keys.antt =====
-- The sheets that alpha-one/scripts/parse_prd_workbook.py knows: their columns with the keys of the
-- parsed rows, and their bands. The names of the columns stand in the order of the keys.
use alpha_one.Workbook.Floats.{points}
use alpha_one.Base.{List, [], ◌∷◌, Str, codes, map}
use alpha_one.Workbook.Pages.{Band}

-- The names of the columns, in the order of a mapping.
unfoldable pub names_of : List (Str × Str) → List Str
names_of = map (λ (entry : Str × Str). entry.0)

-- The columns of Domains and Modules
abbrev pub domain_keys : List (Str × Str)
domain_keys =
    (codes "Domain ID", codes "domain_id")
    ∷ (codes "Domain Name", codes "domain_name")
    ∷ (codes "Module ID", codes "module_id")
    ∷ (codes "Module Name", codes "module_name")
    ∷ []

-- `BACKLOG_KEYS`, whose names are `BACKLOG_NAMES`
abbrev pub backlog_keys : List (Str × Str)
backlog_keys =
    (codes "Req ID", codes "req")
    ∷ (codes "Domain ID", codes "domain_id")
    ∷ (codes "Domain Name", codes "domain_name")
    ∷ (codes "Module ID", codes "module_id")
    ∷ (codes "Module", codes "module")
    ∷ (codes "Feature Name", codes "feature")
    ∷ (codes "User Story", codes "story")
    ∷ (codes "Complexity", codes "complexity")
    ∷ (codes "Priority", codes "priority")
    ∷ (codes "Phase", codes "phase")
    ∷ (codes "Status", codes "status")
    ∷ (codes "Owner", codes "owner")
    ∷ (codes "Depends On", codes "depends_on")
    ∷ (codes "Build Strategy", codes "build_strategy")
    ∷ (codes "Notes", codes "notes")
    ∷ (codes "Proposed By", codes "proposed_by")
    ∷ (codes "Proposed On", codes "proposed_on")
    ∷ (codes "Team Comments", codes "team_comments")
    ∷ (codes "Comment Status", codes "comment_status")
    ∷ (codes "Last Reviewed By", codes "last_reviewed_by")
    ∷ (codes "Last Reviewed On", codes "last_reviewed_on")
    ∷ (codes "Release", codes "release")
    ∷ []

-- The mapping of feature_proposals, whose names are `PROPOSAL_NAMES`
abbrev pub proposal_keys : List (Str × Str)
proposal_keys =
    (codes "Proposal ID", codes "id")
    ∷ (codes "Submitted On", codes "submitted_on")
    ∷ (codes "Submitted By", codes "submitted_by")
    ∷ (codes "Domain", codes "domain")
    ∷ (codes "Module", codes "module")
    ∷ (codes "Feature Name", codes "feature")
    ∷ (codes "User Story", codes "story")
    ∷ (codes "Why It Matters", codes "why_it_matters")
    ∷ (codes "Est. Complexity", codes "est_complexity")
    ∷ (codes "Est. Priority", codes "est_priority")
    ∷ (codes "Suggested Release", codes "suggested_release")
    ∷ (codes "Status", codes "status")
    ∷ (codes "Reviewer", codes "reviewer")
    ∷ (codes "Review Notes", codes "review_notes")
    ∷ (codes "Promoted Req ID", codes "promoted_req")
    ∷ []

-- The mapping of version_roadmap, whose names are `ROADMAP_NAMES`
abbrev pub roadmap_keys : List (Str × Str)
roadmap_keys =
    (codes "Release", codes "release")
    ∷ (codes "Target Date", codes "target_date")
    ∷ (codes "Theme", codes "theme")
    ∷ (codes "Cashflow Critical", codes "cashflow_critical")
    ∷ (codes "Gate Rule", codes "gate_rule")
    ∷ (codes "Gate Status", codes "gate_status")
    ∷ (codes "P0 Count", codes "p0")
    ∷ (codes "P1 Count", codes "p1")
    ∷ (codes "P2 Count", codes "p2")
    ∷ (codes "Total Features", codes "total")
    ∷ (codes "Status", codes "status")
    ∷ (codes "Notes", codes "notes")
    ∷ []

-- The mapping of change_log, whose names are `CHANGE_NAMES`
abbrev pub change_keys : List (Str × Str)
change_keys =
    (codes "Timestamp", codes "timestamp")
    ∷ (codes "Actor", codes "actor")
    ∷ (codes "Action", codes "action")
    ∷ (codes "Req ID", codes "req")
    ∷ (codes "Field", codes "field")
    ∷ (codes "Old Value", codes "old_value")
    ∷ (codes "New Value", codes "new_value")
    ∷ (codes "Reason", codes "reason")
    ∷ []

-- The mapping of integration_map, whose names are `INTEGRATION_NAMES`
abbrev pub integration_keys : List (Str × Str)
integration_keys =
    (codes "Tool", codes "tool")
    ∷ (codes "Category", codes "category")
    ∷ (codes "What it does", codes "what_it_does")
    ∷ (codes "Serves Req IDs", codes "serves_req_ids")
    ∷ (codes "Serves Release", codes "serves_release")
    ∷ (codes "Cost", codes "cost")
    ∷ (codes "Cost model", codes "cost_model")
    ∷ (codes "Signup status", codes "signup_status")
    ∷ (codes "Owner", codes "owner")
    ∷ (codes "Action needed", codes "action_needed")
    ∷ []

-- The mapping of tooling_register, whose names are `TOOLING_NAMES`
abbrev pub tooling_keys : List (Str × Str)
tooling_keys =
    (codes "Tool", codes "tool")
    ∷ (codes "Category", codes "category")
    ∷ (codes "Type", codes "type")
    ∷ (codes "Licence", codes "licence")
    ∷ (codes "Version / Plan", codes "version_plan")
    ∷ (codes "Hosting", codes "hosting")
    ∷ (codes "Replaces building", codes "replaces_building")
    ∷ (codes "Serves releases", codes "serves_releases")
    ∷ (codes "Serves Req IDs", codes "serves_req_ids")
    ∷ (codes "Why this one", codes "why_this_one")
    ∷ (codes "Alternatives considered", codes "alternatives_considered")
    ∷ (codes "Why rejected", codes "why_rejected")
    ∷ (codes "Est. cost", codes "cost")
    ∷ (codes "Cost model", codes "cost_model")
    ∷ (codes "Signup status", codes "signup_status")
    ∷ (codes "Owner", codes "owner")
    ∷ (codes "Exit path", codes "exit_path")
    ∷ (codes "ADR link", codes "adr_link")
    ∷ (codes "Notes", codes "notes")
    ∷ []

-- The columns of the build-or-buy rules
abbrev pub rule_keys : List (Str × Str)
rule_keys =
    (codes "Rule ID", codes "id")
    ∷ (codes "Rule", codes "rule")
    ∷ (codes "Applies to", codes "applies_to")
    ∷ (codes "Enforced by", codes "enforced_by")
    ∷ (codes "Notes", codes "notes")
    ∷ []

-- `AUDIT_BANDS`
abbrev pub audit_bands : List Band
audit_bands =
    (codes "severity", points 0, points 200)
    ∷ (codes "sheet", points 200, points 400)
    ∷ (codes "row", points 400, points 465)
    ∷ (codes "rule", points 465, points 520)
    ∷ (codes "detail", points 520, points 900)
    ∷ []

-- `CHANGE_BANDS`
abbrev pub change_bands : List Band
change_bands =
    (codes "Timestamp", points 0, points 110)
    ∷ (codes "Actor", points 110, points 195)
    ∷ (codes "Action", points 195, points 275)
    ∷ (codes "Req ID", points 275, points 320)
    ∷ (codes "Field", points 320, points 373)
    ∷ (codes "Old Value", points 373, points 455)
    ∷ (codes "New Value", points 455, points 530)
    ∷ (codes "Reason", points 530, points 900)
    ∷ []

-- `ROADMAP_BANDS`
abbrev pub roadmap_bands : List Band
roadmap_bands =
    (codes "Release", points 0, points 60)
    ∷ (codes "Target Date", points 60, points 80)
    ∷ (codes "Theme", points 80, points 135)
    ∷ (codes "Cashflow Critical", points 135, points 185)
    ∷ (codes "Gate Rule", points 185, points 240)
    ∷ (codes "Gate Status", points 240, points 275)
    ∷ (codes "P0 Count", points 275, points 295)
    ∷ (codes "P1 Count", points 295, points 312)
    ∷ (codes "P2 Count", points 312, points 330)
    ∷ (codes "Total Features", points 330, points 350)
    ∷ (codes "Status", points 350, points 366)
    ∷ (codes "Notes", points 366, points 900)
    ∷ []

-- The bands of the data dictionary
abbrev pub dictionary_bands : List Band
dictionary_bands =
    (codes "section", points 100, points 300) ∷ (codes "value", points 300, points 700) ∷ []
