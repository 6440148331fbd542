-- ===== src/ReleaseDiff.antt =====
-- packages/shared/src/release-diff.ts: the fingerprints that two release snapshots differ in, and how
-- the severity of those that they share has moved (the blockers of a comparison are in Blockers). The
-- deltas of coverage and of lineage edges are not in the model, nor is the projection of evidence.
pub mod Laws
pub mod Mirror
pub mod Blockers
pub mod Comparable
mod Tests
use verglos_cli.Prelude.{
  ℕ, Bool, true, false, not, ◌&&◌, ◌||◌, Option, none, some, List, [], ◌∷◌, map, ltb, if◌then◌else◌,
  filter,
}
use verglos_cli.Text.{Text, text_eq}
use verglos_cli.Text.Sets.{has, set_of}
use verglos_cli.Text.Sorting.{sort_by}

pub data Severity : Type 0 where
  info low medium high critical : Severity

-- SEVERITY_ORDER
abbrev pub severity_order : Severity → ℕ
severity_order info = 1
severity_order low = 2
severity_order medium = 3
severity_order high = 4
severity_order critical = 5

-- The `severity` of an observation: its status, with the value of a known one.
pub data SeverityStatus : Type 0 where
  known : Severity → SeverityStatus
  mixed : SeverityStatus
  unavailable : SeverityStatus

-- A snapshot's observation; those of the legacy schemas have no severity.
pub record RiskObservation : Type 0 where
  pub fingerprint : Text
  pub severity : Option SeverityStatus

pub record Snapshot : Type 0 where
  pub primary_subject_id : Text
  pub subject_ids : List Text
  pub observations : List RiskObservation
  pub policy_input_digest : Text

abbrev pub fingerprints : Snapshot → List Text
fingerprints s = map RiskObservation.fingerprint s.observations

-- `riskMap(snapshot).get(fingerprint)`: of several observations with one fingerprint, the last.
abbrev pub risk_of : Text → List RiskObservation → Option RiskObservation
risk_of f [] = none
risk_of f (o ∷ os) = elim (risk_of f os) [
  | some later ↦ some later
  | none ↦ if text_eq f o.fingerprint then some o else none
]

-- `?.severity`, where its status is known.
abbrev pub known_severity : Option RiskObservation → Option Severity
known_severity none = none
known_severity (some o) = elim o.severity [
  | some s ↦ elim s [ known v ↦ some v | mixed ↦ none | unavailable ↦ none ]
  | none ↦ none
]

abbrev pub severity_in : Snapshot → Text → Option Severity
severity_in s f = known_severity (risk_of f s.observations)

pub data Movement : Type 0 where
  unassessed worse better level : Movement

abbrev pub compare_severities : Option Severity → Option Severity → Movement
compare_severities (some prior) (some current) =
    if ltb (severity_order prior) (severity_order current)
    then worse
    else if ltb (severity_order current) (severity_order prior)
    then better
    else level
compare_severities _ _ = unassessed

-- The arrays that the loop over the shared fingerprints fills.
pub record Moved : Type 0 where
  pub worsened : List Text
  pub improved : List Text
  pub severity_unassessed : List Text

-- One round of the loop; the fingerprint stands before those of the later rounds.
abbrev pub move : Movement → Text → Moved → Moved
move worse f m = record m { worsened = f ∷ m.worsened }
move better f m = record m { improved = f ∷ m.improved }
move unassessed f m = record m { severity_unassessed = f ∷ m.severity_unassessed }
move level f m = m

abbrev pub assess : Snapshot → Snapshot → List Text → Moved
assess base head [] = record { worsened = []; improved = []; severity_unassessed = [] }
assess base head (f ∷ fs) =
    move (compare_severities (severity_in base f) (severity_in head f)) f (assess base head fs)

abbrev pub sorted : List Text → List Text
sorted = sort_by (λ t. t)

-- `[...of].filter((fingerprint) => !other.has(fingerprint)).sort()`
abbrev pub only_in : List Text → List Text → List Text
only_in of other = sorted (filter (λ f. not (has f (set_of other))) (set_of of))

-- `[...after].filter((fingerprint) => before.has(fingerprint)).sort()`
abbrev pub shared : List Text → List Text → List Text
shared before after = sorted (filter (λ f. has f (set_of before)) (set_of after))

-- Two lists of texts are one canonical JSON array exactly where they are one list.
abbrev pub texts_eq : List Text → List Text → Bool
texts_eq [] [] = true
texts_eq (s ∷ ss) (t ∷ ts) = text_eq s t && texts_eq ss ts
texts_eq _ _ = false

-- ReleaseDiff without `coverageChanged`, `coverageDelta`, `lineageDelta` and `comparisonBlockers`.
pub record ReleaseDiff : Type 0 where
  pub added : List Text
  pub fixed : List Text
  pub worsened : List Text
  pub improved : List Text
  pub unchanged : List Text
  pub severity_unassessed : List Text
  pub identity_changed : Bool
  pub policy_changed : Bool

-- `diffReleaseSnapshots`, without its coverage and lineage.
unfoldable pub diff_release_snapshots : Snapshot → Snapshot → ReleaseDiff
diff_release_snapshots base head =
    let unchanged = shared (fingerprints base) (fingerprints head) in
    let moved = assess base head unchanged in
    record {
      added = only_in (fingerprints head) (fingerprints base);
      fixed = only_in (fingerprints base) (fingerprints head);
      worsened = sorted moved.worsened;
      improved = sorted moved.improved;
      unchanged = unchanged;
      severity_unassessed = sorted moved.severity_unassessed;
      identity_changed =
          not (text_eq base.primary_subject_id head.primary_subject_id)
          || not (texts_eq (sorted base.subject_ids) (sorted head.subject_ids));
      policy_changed = not (text_eq base.policy_input_digest head.policy_input_digest);
    }
