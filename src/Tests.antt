-- ===== src/Tests.antt =====
-- The theorems at concrete inputs.
mod DnsRecords
mod Ingresses
mod StringSet
mod Certificates
mod Status
mod Distributions
mod PathPatterns
mod Deletions
mod Services
mod Groups
mod Cluster
mod Reconciliations
mod Requests
mod Synced
mod Whole
mod OacNames
mod Environment
