-- ===== src/Route53.antt =====
-- internal/route53: the DNS aliases of a distribution.
pub mod Alias
pub mod Records
pub mod Repository
