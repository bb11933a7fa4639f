-- ===== src/Cvss3/Metrics.antt =====
-- cvss3/base_metrics.go, temporal_metrics.go and environmental_metrics.go: the types of the metrics.
use nvdtools.Prelude.{[], ◌∷◌, codes}
use nvdtools.Cvss.Metric.{MetricType, table, modified, extended}

abbrev pub attack_vector : MetricType
attack_vector =
    table (codes "" ∷ codes "N" ∷ codes "A" ∷ codes "L" ∷ codes "P" ∷ [])
      (0 ∷ 850 ∷ 620 ∷ 550 ∷ 200 ∷ []) (0 ∷ 850 ∷ 620 ∷ 550 ∷ 200 ∷ [])

abbrev pub attack_complexity : MetricType
attack_complexity =
    table (codes "" ∷ codes "L" ∷ codes "H" ∷ []) (0 ∷ 770 ∷ 440 ∷ []) (0 ∷ 770 ∷ 440 ∷ [])

abbrev pub privileges_required : MetricType
privileges_required =
    table (codes "" ∷ codes "N" ∷ codes "L" ∷ codes "H" ∷ []) (0 ∷ 850 ∷ 620 ∷ 270 ∷ [])
      (0 ∷ 850 ∷ 680 ∷ 500 ∷ [])

abbrev pub user_interaction : MetricType
user_interaction =
    table (codes "" ∷ codes "N" ∷ codes "R" ∷ []) (0 ∷ 850 ∷ 620 ∷ []) (0 ∷ 850 ∷ 620 ∷ [])

abbrev pub scope : MetricType
scope = table (codes "" ∷ codes "U" ∷ codes "C" ∷ []) ([]) ([])

abbrev pub confidentiality : MetricType
confidentiality =
    table (codes "" ∷ codes "H" ∷ codes "L" ∷ codes "N" ∷ []) (0 ∷ 560 ∷ 220 ∷ 0 ∷ [])
      (0 ∷ 560 ∷ 220 ∷ 0 ∷ [])

abbrev pub integrity : MetricType
integrity =
    table (codes "" ∷ codes "H" ∷ codes "L" ∷ codes "N" ∷ []) (0 ∷ 560 ∷ 220 ∷ 0 ∷ [])
      (0 ∷ 560 ∷ 220 ∷ 0 ∷ [])

abbrev pub availability : MetricType
availability =
    table (codes "" ∷ codes "H" ∷ codes "L" ∷ codes "N" ∷ []) (0 ∷ 560 ∷ 220 ∷ 0 ∷ [])
      (0 ∷ 560 ∷ 220 ∷ 0 ∷ [])

abbrev pub exploit_code_maturity : MetricType
exploit_code_maturity =
    table (codes "X" ∷ codes "H" ∷ codes "F" ∷ codes "P" ∷ codes "U" ∷ [])
      (1000 ∷ 1000 ∷ 970 ∷ 940 ∷ 910 ∷ []) (1000 ∷ 1000 ∷ 970 ∷ 940 ∷ 910 ∷ [])

abbrev pub remediation_level : MetricType
remediation_level =
    table (codes "X" ∷ codes "U" ∷ codes "W" ∷ codes "T" ∷ codes "O" ∷ [])
      (1000 ∷ 1000 ∷ 970 ∷ 960 ∷ 950 ∷ []) (1000 ∷ 1000 ∷ 970 ∷ 960 ∷ 950 ∷ [])

abbrev pub report_confidence : MetricType
report_confidence =
    table (codes "X" ∷ codes "C" ∷ codes "R" ∷ codes "U" ∷ []) (1000 ∷ 1000 ∷ 960 ∷ 920 ∷ [])
      (1000 ∷ 1000 ∷ 960 ∷ 920 ∷ [])

abbrev pub confidentiality_requirement : MetricType
confidentiality_requirement =
    table (codes "X" ∷ codes "H" ∷ codes "M" ∷ codes "L" ∷ []) (1000 ∷ 1500 ∷ 1000 ∷ 500 ∷ [])
      (1000 ∷ 1500 ∷ 1000 ∷ 500 ∷ [])

abbrev pub integrity_requirement : MetricType
integrity_requirement =
    table (codes "X" ∷ codes "H" ∷ codes "M" ∷ codes "L" ∷ []) (1000 ∷ 1500 ∷ 1000 ∷ 500 ∷ [])
      (1000 ∷ 1500 ∷ 1000 ∷ 500 ∷ [])

abbrev pub availability_requirement : MetricType
availability_requirement =
    table (codes "X" ∷ codes "H" ∷ codes "M" ∷ codes "L" ∷ []) (1000 ∷ 1500 ∷ 1000 ∷ 500 ∷ [])
      (1000 ∷ 1500 ∷ 1000 ∷ 500 ∷ [])

abbrev pub modified_attack_vector : MetricType
modified_attack_vector = modified attack_vector

abbrev pub modified_attack_complexity : MetricType
modified_attack_complexity = modified attack_complexity

abbrev pub modified_privileges_required : MetricType
modified_privileges_required = modified privileges_required

abbrev pub modified_user_interaction : MetricType
modified_user_interaction = modified user_interaction

abbrev pub modified_scope : MetricType
modified_scope = modified scope

abbrev pub modified_confidentiality : MetricType
modified_confidentiality = modified confidentiality

abbrev pub modified_integrity : MetricType
modified_integrity = modified integrity

abbrev pub modified_availability : MetricType
modified_availability = modified availability

abbrev pub modified_exploit_code_maturity : MetricType
modified_exploit_code_maturity = extended exploit_code_maturity

abbrev pub modified_remediation_level : MetricType
modified_remediation_level = extended remediation_level

abbrev pub modified_report_confidence : MetricType
modified_report_confidence = extended report_confidence
