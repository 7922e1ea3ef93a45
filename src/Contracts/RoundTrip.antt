-- ===== src/Contracts/RoundTrip.antt =====
-- Reading and writing the documents of contracts.py.
use knowledge_flow.Contracts.SourceFileMapping
use knowledge_flow.Contracts.SourceFileMapping.{SourceFileMapping}
use knowledge_flow.Contracts.CurationRunManifest
use knowledge_flow.Contracts.CurationRunManifest.{CurationRunManifest}
use knowledge_flow.Contracts.CurationEvidenceRecord
use knowledge_flow.Contracts.CurationEvidenceRecord.{CurationEvidenceRecord}
use knowledge_flow.Contracts.MapCandidate
use knowledge_flow.Contracts.MapCandidate.{MapCandidate}
use knowledge_flow.Contracts.MapDecision
use knowledge_flow.Contracts.MapDecision.{MapDecision}
use knowledge_flow.Contracts.ProcessorUsage
use knowledge_flow.Contracts.ProcessorUsage.{ProcessorUsage}
use knowledge_flow.Common.{◌≡◌}
use knowledge_flow.Common.Result.{ok}
use knowledge_flow.Common.Value.{Value}

-- Every source mapping that `from_mapping` reads is valid, and `from_mapping` reads the mapping
-- that `as_mapping` writes of it as the same object.
pub source_mapping-read_back :
    (v : Value) (r : SourceFileMapping)
    → SourceFileMapping.from_mapping v ≡ ok r
    → SourceFileMapping.IsValid r
      × (SourceFileMapping.from_mapping (SourceFileMapping.as_mapping r) ≡ ok r)
source_mapping-read_back v r h =
    let valid = SourceFileMapping.from_mapping-IsValid v r h in
    (valid, SourceFileMapping.from_mapping-as_mapping r valid)

-- Every curation run that `from_mapping` reads is valid, and `from_mapping` reads the mapping that
-- `as_mapping` writes of it as the same object.
pub run-read_back :
    (v : Value) (r : CurationRunManifest)
    → CurationRunManifest.from_mapping v ≡ ok r
    → CurationRunManifest.IsValid r
      × (CurationRunManifest.from_mapping (CurationRunManifest.as_mapping r) ≡ ok r)
run-read_back v r h =
    let valid = CurationRunManifest.from_mapping-IsValid v r h in
    (valid, CurationRunManifest.from_mapping-as_mapping r valid)

-- Every evidence record that `from_mapping` reads is valid, and `from_mapping` reads the mapping
-- that `as_mapping` writes of it as the same object.
pub evidence-read_back :
    (v : Value) (r : CurationEvidenceRecord)
    → CurationEvidenceRecord.from_mapping v ≡ ok r
    → CurationEvidenceRecord.IsValid r
      × (CurationEvidenceRecord.from_mapping (CurationEvidenceRecord.as_mapping r) ≡ ok r)
evidence-read_back v r h =
    let valid = CurationEvidenceRecord.from_mapping-IsValid v r h in
    (valid, CurationEvidenceRecord.from_mapping-as_mapping r valid)

-- Every map candidate that `from_mapping` reads is valid, and `from_mapping` reads the mapping
-- that `as_mapping` writes of it as the same object.
pub candidate-read_back :
    (v : Value) (r : MapCandidate)
    → MapCandidate.from_mapping v ≡ ok r
    → MapCandidate.IsValid r × (MapCandidate.from_mapping (MapCandidate.as_mapping r) ≡ ok r)
candidate-read_back v r h =
    let valid = MapCandidate.from_mapping-IsValid v r h in
    (valid, MapCandidate.from_mapping-as_mapping r valid)

-- Every map decision that `from_mapping` reads is valid, and `from_mapping` reads the mapping that
-- `as_mapping` writes of it as the same object.
pub map_decision-read_back :
    (v : Value) (r : MapDecision)
    → MapDecision.from_mapping v ≡ ok r
    → MapDecision.IsValid r × (MapDecision.from_mapping (MapDecision.as_mapping r) ≡ ok r)
map_decision-read_back v r h =
    let valid = MapDecision.from_mapping-IsValid v r h in
    (valid, MapDecision.from_mapping-as_mapping r valid)

-- Every processor usage that `from_mapping` reads is valid, and `from_mapping` reads the mapping
-- that `as_mapping` writes of it as the same object.
pub usage-read_back :
    (v : Value) (r : ProcessorUsage)
    → ProcessorUsage.from_mapping v ≡ ok r
    → ProcessorUsage.IsValid r × (ProcessorUsage.from_mapping (ProcessorUsage.as_mapping r) ≡ ok r)
usage-read_back v r h =
    let valid = ProcessorUsage.from_mapping-IsValid v r h in
    (valid, ProcessorUsage.from_mapping-as_mapping r valid)
