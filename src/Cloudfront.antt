-- ===== src/Cloudfront.antt =====
-- internal/cloudfront: the distribution that a group of Ingresses asks for, and its upkeep.
pub mod Oac
pub mod Function
pub mod Origin
pub mod Sort
pub mod Distribution
pub mod AwsModels
pub mod Client
pub mod OacLister
pub mod OacRepository
pub mod DistRepository
pub mod Service
