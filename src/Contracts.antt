-- ===== src/Contracts.antt =====
-- The value objects of src/knowledgeflow_curation/contracts.py: a module for each class.
pub mod Require
pub mod Timestamp
pub mod Collections
pub mod ByteRange
pub mod SourceBinding
pub mod ProcessingAuthorization
pub mod SourceFileMapping
pub mod TargetDecision
pub mod SegmentationProfile
pub mod ProcessorProfile
pub mod ProcessorUsage
pub mod CurationRunManifest
pub mod SegmentRecord
pub mod ScopeRecord
pub mod EvidenceLocator
pub mod TargetBinding
pub mod MapCandidate
pub mod CandidateDecision
pub mod Cover
pub mod Against
pub mod RoundTrip
pub mod Examples
pub mod Tests
pub mod CurationEvidenceRecord
pub mod MapDecision
pub mod CurationMap
