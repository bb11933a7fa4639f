-- ===== src/Cvss2/Metrics.antt =====
-- cvss2/base_metrics.go, temporal_metrics.go and environmental_metrics.go: the types of the metrics.
use nvdtools.Prelude.{[], ◌∷◌, codes}
use nvdtools.Cvss.Metric.{MetricType, table, extended}

abbrev pub access_vector : MetricType
access_vector =
    table (codes "" ∷ codes "L" ∷ codes "A" ∷ codes "N" ∷ []) (0 ∷ 395 ∷ 646 ∷ 1000 ∷ [])
      (0 ∷ 395 ∷ 646 ∷ 1000 ∷ [])

abbrev pub access_complexity : MetricType
access_complexity =
    table (codes "" ∷ codes "H" ∷ codes "M" ∷ codes "L" ∷ []) (0 ∷ 350 ∷ 610 ∷ 710 ∷ [])
      (0 ∷ 350 ∷ 610 ∷ 710 ∷ [])

abbrev pub authentication : MetricType
authentication =
    table (codes "" ∷ codes "M" ∷ codes "S" ∷ codes "N" ∷ []) (0 ∷ 450 ∷ 560 ∷ 704 ∷ [])
      (0 ∷ 450 ∷ 560 ∷ 704 ∷ [])

abbrev pub confidentiality_impact : MetricType
confidentiality_impact =
    table (codes "" ∷ codes "N" ∷ codes "P" ∷ codes "C" ∷ []) (0 ∷ 0 ∷ 275 ∷ 660 ∷ [])
      (0 ∷ 0 ∷ 275 ∷ 660 ∷ [])

abbrev pub integrity_impact : MetricType
integrity_impact =
    table (codes "" ∷ codes "N" ∷ codes "P" ∷ codes "C" ∷ []) (0 ∷ 0 ∷ 275 ∷ 660 ∷ [])
      (0 ∷ 0 ∷ 275 ∷ 660 ∷ [])

abbrev pub availability_impact : MetricType
availability_impact =
    table (codes "" ∷ codes "N" ∷ codes "P" ∷ codes "C" ∷ []) (0 ∷ 0 ∷ 275 ∷ 660 ∷ [])
      (0 ∷ 0 ∷ 275 ∷ 660 ∷ [])

abbrev pub exploitablity : MetricType
exploitablity =
    table (codes "ND" ∷ codes "U" ∷ codes "POC" ∷ codes "F" ∷ codes "H" ∷ [])
      (1000 ∷ 850 ∷ 900 ∷ 950 ∷ 1000 ∷ []) (1000 ∷ 850 ∷ 900 ∷ 950 ∷ 1000 ∷ [])

abbrev pub remediation_level : MetricType
remediation_level =
    table (codes "ND" ∷ codes "OF" ∷ codes "TF" ∷ codes "W" ∷ codes "U" ∷ [])
      (1000 ∷ 870 ∷ 900 ∷ 950 ∷ 1000 ∷ []) (1000 ∷ 870 ∷ 900 ∷ 950 ∷ 1000 ∷ [])

abbrev pub report_confidence : MetricType
report_confidence =
    table (codes "ND" ∷ codes "UC" ∷ codes "UR" ∷ codes "C" ∷ []) (1000 ∷ 900 ∷ 950 ∷ 1000 ∷ [])
      (1000 ∷ 900 ∷ 950 ∷ 1000 ∷ [])

abbrev pub collateral_damage_potential : MetricType
collateral_damage_potential =
    table (codes "ND" ∷ codes "N" ∷ codes "L" ∷ codes "LM" ∷ codes "MH" ∷ codes "H" ∷ [])
      (0 ∷ 0 ∷ 100 ∷ 300 ∷ 400 ∷ 500 ∷ []) (0 ∷ 0 ∷ 100 ∷ 300 ∷ 400 ∷ 500 ∷ [])

abbrev pub target_distribution : MetricType
target_distribution =
    table (codes "ND" ∷ codes "N" ∷ codes "L" ∷ codes "M" ∷ codes "H" ∷ [])
      (1000 ∷ 0 ∷ 250 ∷ 750 ∷ 1000 ∷ []) (1000 ∷ 0 ∷ 250 ∷ 750 ∷ 1000 ∷ [])

abbrev pub confidentiality_requirement : MetricType
confidentiality_requirement =
    table (codes "ND" ∷ codes "L" ∷ codes "M" ∷ codes "H" ∷ []) (1000 ∷ 500 ∷ 1000 ∷ 1510 ∷ [])
      (1000 ∷ 500 ∷ 1000 ∷ 1510 ∷ [])

abbrev pub integrity_requirement : MetricType
integrity_requirement =
    table (codes "ND" ∷ codes "L" ∷ codes "M" ∷ codes "H" ∷ []) (1000 ∷ 500 ∷ 1000 ∷ 1510 ∷ [])
      (1000 ∷ 500 ∷ 1000 ∷ 1510 ∷ [])

abbrev pub availability_requirement : MetricType
availability_requirement =
    table (codes "ND" ∷ codes "L" ∷ codes "M" ∷ codes "H" ∷ []) (1000 ∷ 500 ∷ 1000 ∷ 1510 ∷ [])
      (1000 ∷ 500 ∷ 1000 ∷ 1510 ∷ [])

abbrev pub modified_exploitablity : MetricType
modified_exploitablity = extended exploitablity

abbrev pub modified_remediation_level : MetricType
modified_remediation_level = extended remediation_level

abbrev pub modified_report_confidence : MetricType
modified_report_confidence = extended report_confidence
